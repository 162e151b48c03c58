-- ===== src/Time/Tests.antt =====
-- The reload values, and the theorems at a machine that keeps what is written to its ports.
use lboot.Base.{
  ℕ, ◌+◌, ◌-◌, ◌^◌, ◌≤◌, ◌<◌, ◌≡◌, refl, arith, true, if◌then◌else◌, ◌==◌, List, [], ◌∷◌, ◌++◌,
  replicate, none, returns,
}
use lboot.Intr.{Ports, Intr, idt_init}
use lboot.Time.{Clock, get_reload, time_offset, time_delay, wait, time_ispast}
use lboot.Time.Reload.{distance, get_reload-bounds}
use lboot.Time.Elapsed.{elapsed, Waited, time_delay-returns}

-- At 18 Hz the quotient 66287 does not fit in 16 bits, and the timer is set to 1586 Hz.
get_reload_cut : get_reload 18 ≡ 751
unfolding get_reload
get_reload_cut = refl

-- A delay over the wrap of the tick count ends at once.
time_delay_wrap : time_delay (λ round. 1) 5 true (2 ^ 32 - 2) 4 ≡ returns (2 ^ 32 - 2)
unfolding time_delay wait time_offset time_ispast
time_delay_wrap = refl

get_reload-bounds_example :
    (0 < get_reload 1000)
    × (get_reload 1000 < 2 ^ 16)
    × ((other : ℕ) → distance 1000 (get_reload 1000) ≤ distance 1000 other)
get_reload-bounds_example = get_reload-bounds 1000 (omega arith) (omega arith) (omega arith)

-- No tick in the first round, two in each of the others.
abbrev pairs : ℕ → ℕ
pairs round = if round == 0 then 0 else 2

time_delay-returns_example : Waited pairs 10 (10 + 3) (time_delay pairs 4 true 10 3)
unfolding elapsed
time_delay-returns_example =
    time_delay-returns pairs 3 4 10 3 (omega arith) (omega arith) (omega arith)

abbrev tape : Ports (List (ℕ × ℕ))
tape = record { inb = λ d port. 0xFF; outb = λ d port v. d ++ ((port, v) ∷ []) }

abbrev stopped : Intr (Clock (List (ℕ × ℕ)))
stopped = record {
  enabled = true;
  idt = idt_init;
  isr_handlers = replicate 48 none;
  machine = record { current_ticks = 9; machine = [] };
}
