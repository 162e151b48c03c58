-- ===== src/Intr/Tests.antt =====
-- The interrupts on a machine whose ports keep the two masks and the commands that were written.
use lboot.Base.{
  ℕ, ◌-◌, ◌<◌, ◌≡◌, ◌≢◌, refl, arith, Bool, true, false, if◌then◌else◌, ◌==◌, List, [], ◌∷◌, ◌++◌,
  get_or, replicate, some, none, ok, returns, u8,
}
use lboot.Intr.{
  Ports, pic1_data, pic2_data, pic_remap, pic_eoi, interrupt_enable, null_entry, idt_init,
  isr_wrappers_init, Intr, Handler, interrupt_register, send_eoi, interrupt_wrapper,
}
use lboot.Intr.Masks.{MaskRegisters, irq_masked, interrupt_enable-masked}
use lboot.Intr.Table.{entry_address, isr_wrappers_init-address}
use lboot.Intr.Dispatch.{end_of_interrupt, send_all, interrupt_wrapper-register}

record Machine : Type 0 where
  first : ℕ
  second : ℕ
  commands : List (ℕ × ℕ)

abbrev board : Ports Machine
board = record {
  inb = λ d port.
      if port == pic1_data then u8 d.first else if port == pic2_data then u8 d.second else 0;
  outb = λ d port v.
      if port == pic1_data
      then record d { first = v }
      else if port == pic2_data
      then record d { second = v }
      else record d { commands = d.commands ++ ((port, v) ∷ []) };
}

small_byte : (a b : Bool) (m n : ℕ) → (if a then u8 m else if b then u8 n else 0) < 256
small_byte true b m n = omega arith
small_byte false true m n = omega arith
small_byte false false m n = omega arith

board-MaskRegisters : MaskRegisters board
board-MaskRegisters = record {
  byte = λ d port. small_byte (port == pic1_data) (port == pic2_data) d.first d.second;
  reads_first = λ d v lt. omega arith;
  reads_second = λ d v lt. omega arith;
  keeps_second = λ d v. refl;
  keeps_first = λ d v. refl;
}

abbrev idle : Machine
idle = record { first = 0xFF; second = 0xFF; commands = [] }

-- Both controllers keep their masks over `pic_remap`.
remapped : (pic_remap board idle 32 40).first ≡ 0xFF
unfolding pic_remap
remapped = refl

-- An interrupt of the second controller is answered to both.
eoi_second : (send_eoi board idle 44).commands ≡ (0xA0, 0x20) ∷ (0x20, 0x20) ∷ []
unfolding send_eoi pic_eoi
eoi_second = refl

interrupt_enable-masked_example :
    ((interrupt_enable board idle 44).0 ≡ ok)
    × (irq_masked board (interrupt_enable board idle 44).1 12
        ≡ (if 12 == 44 - 32 then 0 else irq_masked board idle 12))
interrupt_enable-masked_example =
    interrupt_enable-masked board board-MaskRegisters idle 44 12 (omega arith) (omega arith)
      (omega arith)

abbrev wrappers : List ℕ
wrappers = replicate 48 0x7E001234

isr_wrappers_init-address_example :
    entry_address (get_or (isr_wrappers_init idt_init 0 wrappers) 47 null_entry)
    ≡ get_or wrappers 47 0
isr_wrappers_init-address_example =
    isr_wrappers_init-address wrappers 47 refl (omega arith) (omega arith)

abbrev quiet : Intr Machine
quiet = record { enabled = true; idt = idt_init; isr_handlers = replicate 48 none; machine = idle }

abbrev log_key : Handler Machine
log_key = λ int_id errcode d. record d { commands = (int_id, errcode) ∷ d.commands }

interrupt_wrapper-register_example :
    let after = interrupt_register quiet 33 (some log_key) in
    (after.0 ≡ ok)
    × (interrupt_wrapper board after.1 33 0
        ≡ returns (send_all board (log_key 33 0 idle) (end_of_interrupt 33)))
    × ((other code : ℕ)
        → other ≢ 33
        → interrupt_wrapper board after.1 other code ≡ interrupt_wrapper board quiet other code)
interrupt_wrapper-register_example =
    interrupt_wrapper-register board quiet refl 33 0 log_key (omega arith)
