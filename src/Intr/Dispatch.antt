-- ===== src/Intr/Dispatch.antt =====
-- src/intr/interrupts.c: what `interrupt_register` makes `interrupt_wrapper` do.
use lboot.Base.{
  List, [], ◌∷◌, ◌||◌, ℕ, ◌≤◌, ◌<◌, ◌≡◌, ◌≢◌, refl, sym, ap, arith, true, false, Bool-cases, inl,
  inr, if◌then◌else◌, ltb, leb, length, get_or, get_or-set_self, get_or-set_ne, Option, some, none,
  ok, failed, returns, panics,
}
use lboot.Intr.{
  Ports, Intr, Handler, interrupt_register, pic_eoi, send_eoi, handled, interrupt_wrapper,
}

-- What the controllers are to be sent once an interrupt is handled, as (port, byte) in order: the end
-- of interrupt 0x20 to the first controller for its eight interrupts from 32 on, and to the second and
-- then the first for the eight from 40 on.
unfoldable pub end_of_interrupt : ℕ → List (ℕ × ℕ)
end_of_interrupt int_id =
    if ltb int_id 32 || leb 48 int_id
    then []
    else if ltb int_id 40
    then (0x20, 0x20) ∷ []
    else (0xA0, 0x20) ∷ (0x20, 0x20) ∷ []

unfoldable pub send_all : {D : Type 0} → Ports D → D → List (ℕ × ℕ) → D
send_all ports d [] = d
send_all ports d ((port, v) ∷ rest) = send_all ports (ports.outb d port v) rest

send_eoi-eq :
    {D : Type 0} (ports : Ports D) (d : D) (int_id : ℕ)
    → send_eoi ports d int_id ≡ send_all ports d (end_of_interrupt int_id)
unfolding send_eoi pic_eoi end_of_interrupt send_all
send_eoi-eq ports d int_id = ground arith

module _ {D : Type 0} (ports : Ports D) (s : Intr D) (sized : length s.isr_handlers ≡ 48) where
  -- A handler that is registered for one of the 48 interrupts is called for it, with the interrupt
  -- and the error code; then, for an interrupt of a controller, the end of the interrupt is sent to the
  -- first controller, or to the second and the first, and nothing else is written. Every other
  -- interrupt is handled as before.
  pub interrupt_wrapper-register :
      (int_id errcode : ℕ) (handler : Handler D)
      → int_id < 48
      → let after = interrupt_register s int_id (some handler) in
        (after.0 ≡ ok)
        × (interrupt_wrapper ports after.1 int_id errcode
            ≡ returns (send_all ports (handler int_id errcode s.machine) (end_of_interrupt int_id)))
        × ((other code : ℕ)
            → other ≢ int_id
            → interrupt_wrapper ports after.1 other code ≡ interrupt_wrapper ports s other code)
  unfolding interrupt_register interrupt_wrapper handled
  interrupt_wrapper-register int_id errcode handler below =
      let in_table : leb 48 int_id ≡ false = ground arith in
      let at_entry : ltb int_id 48 ≡ true = ground arith in
      let found = get_or-set_self s.isr_handlers int_id (some handler) none (omega arith) in
      rw (in_table, at_entry, found)
        (
          refl,
          ap returns (send_eoi-eq ports (handler int_id errcode s.machine) int_id),
          λ other code ne.
              rw
                (get_or-set_ne s.isr_handlers {i = int_id} {j = other} (some handler) none
                  (λ e. ne (sym e)))
                refl,
        )

-- An interrupt above the 48 is refused, and nothing is registered.
pub interrupt_register-refuses :
    {D : Type 0} (s : Intr D) (int_id : ℕ) (handler : Option (Handler D))
    → 48 ≤ int_id
    → interrupt_register s int_id handler ≡ (failed, s)
unfolding interrupt_register
interrupt_register-refuses s int_id handler above =
    let out : leb 48 int_id ≡ true = ground arith in rw out refl

module _ {D : Type 0} (ports : Ports D) (s : Intr D) where
  -- Without a handler an exception panics, and every other interrupt that has its place in the
  -- table only has its controller answered.
  pub interrupt_wrapper-unhandled :
      (int_id errcode : ℕ)
      → int_id < 48
      → get_or s.isr_handlers int_id none ≡ none
      → interrupt_wrapper ports s int_id errcode
        ≡ (if ltb int_id 32 then panics else returns (send_eoi ports s.machine int_id))
  unfolding interrupt_wrapper handled
  interrupt_wrapper-unhandled int_id errcode below empty =
      let in_table : ltb int_id 48 ≡ true = ground arith in
      rw (in_table, empty)
        (elim (Bool-cases (ltb int_id 32)) [ inl e ↦ rw e refl | inr e ↦ rw e refl ])
