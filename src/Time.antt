-- ===== src/Time.antt =====
-- src/time/time.c and src/time/pit.c with inc/time: the timer's reload value and the tick count, a
-- `uint32_t`. One tick is a millisecond.
pub mod Reload
pub mod Elapsed
mod Tests
use lboot.Base.{
  ℕ, zero, suc, ◌+◌, ◌*◌, ◌/◌, ◌^◌, Bool, true, false, ltb, leb, if◌then◌else◌, Option, some, none,
  List, [], ◌∷◌, u8, u16, u32, ◌>>>◌, Status, ok, failed, Outcome, returns, panics, no_fuel,
}
use lboot.Intr.{Ports, Intr, Handler, interrupt_register, interrupt_enable}

-- `_get_reload`
unfoldable pub get_reload : ℕ → ℕ
get_reload freq =
    if ltb freq 18 then 0xFFFF else if ltb 1193181 freq then 1 else u16 (1193180 / freq)

-- The command is channel 0, low byte then high byte, mode 2.
unfoldable pub pit_init : {D : Type 0} → Ports D → D → ℕ → D
pit_init ports d freq =
    let reload = get_reload freq in
    let set_up = ports.outb d 0x43 (2 * 2 ^ 1 + 3 * 2 ^ 4) in
    ports.outb (ports.outb set_up 0x40 (u8 reload)) 0x40 (u8 (reload >>> 8))

-- `_current_ticks` beside the machine
pub record Clock (D : Type 0) : Type 0 where
  pub current_ticks : ℕ
  pub machine : D

-- `_pit_handler`
unfoldable pub pit_handler : {D : Type 0} → Handler (Clock D)
pit_handler int_id errno c = record c { current_ticks = u32 (c.current_ticks + 1) }

-- the ports of the machine behind the clock
unfoldable pub ports_of : {D : Type 0} → Ports D → Ports (Clock D)
ports_of ports = record {
  inb = λ c port. ports.inb c.machine port;
  outb = λ c port v. record c { machine = ports.outb c.machine port v };
}

-- INT_ID_PIT is 32.
unfoldable pub time_init : {D : Type 0} → Ports D → Intr (Clock D) → Intr (Clock D)
time_init ports s =
    let cleared : Clock _ = record { current_ticks = 0; machine = s.machine.machine } in
    let timed = record s { machine = pit_init (ports_of ports) cleared 1000 } in
    let registered = (interrupt_register timed 32 (some pit_handler)).1 in
    record registered { machine = (interrupt_enable (ports_of ports) registered.machine 32).1 }

unfoldable pub time_offset : ℕ → ℕ → ℕ
time_offset current ms = u32 (current + u32 (ms * (1000 / 1000)))

unfoldable pub time_addoffset : ℕ → ℕ → ℕ
time_addoffset ticks ms = u32 (ticks + u32 (ms * (1000 / 1000)))

unfoldable pub time_ispast : ℕ → ℕ → Bool
time_ispast ticks current = leb ticks current

-- The loop of `time_delay`, on fuel. Between a test and the next one, so before and in the `hlt`, any
-- number of ticks may come, which the first argument gives for each round; any interrupt ends a `hlt`.
-- The result is the count when the loop is left.
unfoldable pub wait : (ℕ → ℕ) → ℕ → ℕ → ℕ → Outcome ℕ
wait ticks zero end current = no_fuel
wait ticks (suc fuel) end current =
    let next = wait (λ round. ticks (suc round)) fuel end (u32 (current + ticks 0)) in
    if time_ispast end current then returns current else next

unfoldable pub time_delay : (ℕ → ℕ) → ℕ → Bool → ℕ → ℕ → Outcome ℕ
time_delay ticks fuel interrupts_enabled current ms =
    if interrupts_enabled then wait ticks fuel (time_offset current ms) current else panics
