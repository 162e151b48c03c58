-- ===== src/Time/Elapsed.antt =====
-- src/time/time.c: how many ticks `time_delay` waits.
use lboot.Base.{
  ℕ, zero, suc, ◌+◌, ◌*◌, ◌^◌, ◌≤◌, ◌<◌, ◌≡◌, refl, ap, ◌∙◌, subst, arith, true, leb, if_split, u32,
  Outcome, returns, length, get_or-set_self, some, none,
}
use lboot.Intr.{Ports, Intr, interrupt_register, send_eoi, handled, interrupt_wrapper}
use lboot.Time.{Clock, pit_handler, ports_of, time_init, time_offset, time_ispast, wait, time_delay}

-- The ticks of the first rounds.
unfoldable pub elapsed : (ℕ → ℕ) → ℕ → ℕ
elapsed ticks zero = 0
elapsed ticks (suc n) = ticks 0 + elapsed (λ round. ticks (suc round)) n

-- The loop is left after the first round by which the count is at `end`.
pub record Waited (ticks : ℕ → ℕ) (current end : ℕ) (out : Outcome ℕ) : Type 0 where
  pub rounds : ℕ
  pub run : out ≡ returns (current + elapsed ticks rounds)
  pub long_enough : end ≤ current + elapsed ticks rounds
  pub no_longer : (n : ℕ) → n < rounds → current + elapsed ticks n < end

Waited-more :
    (ticks : ℕ → ℕ) (current end : ℕ) {out : Outcome ℕ}
    → current < end
    → Waited (λ round. ticks (suc round)) (current + ticks 0) end out
    → Waited ticks current end out
unfolding elapsed
Waited-more ticks current end before w = record {
  rounds = suc w.rounds;
  run = w.run ∙ ap returns (omega arith);
  long_enough = omega (arith, w.long_enough);
  no_longer = later;
}
  where
    later : (n : ℕ) → n < suc w.rounds → current + elapsed ticks n < end
    later zero lt = omega (arith, before)
    later (suc n) lt = omega (arith, before, w.no_longer n (omega (arith, lt)))

wait-Waited :
    (ticks : ℕ → ℕ) (rounds fuel current end : ℕ)
    → rounds < fuel
    → end ≤ current + elapsed ticks rounds
    → current + elapsed ticks rounds < 2 ^ 32
    → Waited ticks current end (wait ticks fuel end current)
unfolding wait time_ispast elapsed
wait-Waited ticks rounds zero current end enough come small = absurd (omega arith)
wait-Waited ticks zero (suc fuel) current end enough come small =
    if_split (Waited ticks current end) (leb end current)
      (λ e. record {
        rounds = 0;
        run = ap returns (omega arith);
        long_enough = come;
        no_longer = λ n lt. absurd (omega (arith, lt));
      })
      (λ e. absurd (ground arith))
wait-Waited ticks (suc rounds) (suc fuel) current end enough come small =
    let sum : current + ticks 0 ≡ u32 (current + ticks 0) = omega arith in
    let later : ℕ → ℕ = λ round. ticks (suc round) in
    if_split (Waited ticks current end) (leb end current)
      (λ e. record {
        rounds = 0;
        run = ap returns (omega arith);
        long_enough = ground arith;
        no_longer = λ n lt. absurd (omega (arith, lt));
      })
      (λ e. Waited-more ticks current end (ground arith) (
        subst (λ t. Waited later (current + ticks 0) end (wait later fuel end t)) sum
          (wait-Waited later rounds fuel (current + ticks 0) end (omega arith) (omega arith)
            (omega arith))))

-- With interrupts enabled `time_delay` returns, and it does so at its first test by which as many
-- ticks have come as it is given milliseconds, however they fall between its tests: where so many come
-- within some number of rounds that the fuel is above, and the count does not pass 2 ^ 32 by then.
pub time_delay-returns :
    (ticks : ℕ → ℕ) (rounds fuel current ms : ℕ)
    → rounds < fuel
    → ms ≤ elapsed ticks rounds
    → current + elapsed ticks rounds < 2 ^ 32
    → Waited ticks current (current + ms) (time_delay ticks fuel true current ms)
unfolding time_delay time_offset
time_delay-returns ticks rounds fuel current ms enough come small =
    let end : current + ms ≡ u32 (current + u32 (ms * 1)) = omega arith in
    subst (λ t. Waited ticks current (current + ms) (wait ticks fuel t current)) end
      (wait-Waited ticks rounds fuel current (current + ms) enough (omega arith) small)

-- After `time_init`, an interrupt of the timer adds a tick and answers the controller.
pub time_init-ticks :
    {D : Type 0} (ports : Ports D) (s : Intr (Clock D)) (errcode : ℕ)
    → length s.isr_handlers ≡ 48
    → let started = time_init ports s in
      interrupt_wrapper (ports_of ports) started 32 errcode
      ≡ returns (
          send_eoi
            (ports_of ports)
            (record started.machine { current_ticks = u32 (started.machine.current_ticks + 1) })
            32)
unfolding time_init interrupt_register interrupt_wrapper handled pit_handler
time_init-ticks ports s errcode sized =
    let found = get_or-set_self s.isr_handlers 32 (some pit_handler) none (omega arith) in
    rw found refl
