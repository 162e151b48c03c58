-- ===== src/Intr.antt =====
-- src/intr/pic.c, src/intr/idt.c and src/intr/interrupts.c with their headers under inc/intr. The
-- ports of the machine are a parameter: a state, what `inb` reads in it and what `outb` makes of it.
pub mod Masks
pub mod Table
pub mod Dispatch
mod Tests
use lboot.Base.{
  ℕ, zero, suc, ◌+◌, ◌-◌, ◌*◌, ◌/◌, ◌^◌, List, [], ◌∷◌, Bool, true, false, ◌&&◌, ltb, leb,
  if◌then◌else◌, Option, some, none, get_or, set, replicate, bit_and, bit_or, u8, u16, ◌>>>◌,
  Status, ok, failed, Outcome, returns, panics, ◌>>=◌,
}

-- `inb` and `outb` of inc/io/ioport.h
pub record Ports (D : Type 0) : Type 0 where
  pub inb : D → ℕ → ℕ
  pub outb : D → ℕ → ℕ → D

abbrev pub pic_offset_master : ℕ
pic_offset_master = 32

abbrev pub pic_offset_slave : ℕ
pic_offset_slave = pic_offset_master + 8

abbrev pub pic1_command : ℕ
pic1_command = 0x20

abbrev pub pic1_data : ℕ
pic1_data = 0x21

abbrev pub pic2_command : ℕ
pic2_command = 0xA0

abbrev pub pic2_data : ℕ
pic2_data = 0xA1

abbrev pub int_id_max : ℕ
int_id_max = 48

module _ {D : Type 0} (ports : Ports D) where
  unfoldable pub pic_remap : D → ℕ → ℕ → D
  pic_remap d master slave =
      let m_mask = ports.inb d pic1_data in
      let s_mask = ports.inb d pic2_data in
      let icw1 = ports.outb (ports.outb d pic1_command 0x11) pic2_command 0x11 in
      let icw2 = ports.outb (ports.outb icw1 pic1_data master) pic2_data slave in
      let icw3 = ports.outb (ports.outb icw2 pic1_data 4) pic2_data 2 in
      let icw4 = ports.outb (ports.outb icw3 pic1_data 1) pic2_data 1 in
      ports.outb (ports.outb icw4 pic1_data m_mask) pic2_data s_mask

  -- PIC_OCW2_EOI is 0x20.
  unfoldable pub pic_eoi : D → ℕ → D
  pic_eoi d irq_id =
      ports.outb (if leb 8 irq_id then ports.outb d pic2_command 0x20 else d) pic1_command 0x20

  unfoldable pub pic_mask : D → ℕ → Status × D
  pic_mask d irq_id =
      if leb 16 irq_id
      then (failed, d)
      else (let port = if leb 8 irq_id then pic2_data else pic1_data in
          let line = if leb 8 irq_id then irq_id - 8 else irq_id in
          (ok, ports.outb d port (u8 (bit_or (ports.inb d port) (2 ^ line)))))

  unfoldable pub pic_unmask : D → ℕ → Status × D
  pic_unmask d irq_id =
      if leb 16 irq_id
      then (failed, d)
      else (let port = if leb 8 irq_id then pic2_data else pic1_data in
          let line = if leb 8 irq_id then irq_id - 8 else irq_id in
          (ok, ports.outb d port (u8 (bit_and (ports.inb d port) (2 ^ 32 - 1 - 2 ^ line)))))

  -- The interrupts of the two controllers, by the IRQ of each.
  unfoldable pub on_irq : (D → ℕ → Status × D) → D → ℕ → Status × D
  on_irq act d int_id =
      if leb pic_offset_master int_id && ltb int_id (pic_offset_master + 8)
      then act d (int_id - pic_offset_master)
      else if leb pic_offset_slave int_id && ltb int_id (pic_offset_slave + 8)
      then act d (int_id - pic_offset_slave + 8)
      else (failed, d)

  unfoldable pub interrupt_enable : D → ℕ → Status × D
  interrupt_enable d int_id = on_irq pic_unmask d int_id

  unfoldable pub interrupt_disable : D → ℕ → Status × D
  interrupt_disable d int_id = on_irq pic_mask d int_id

-- `idt_entry_t`
pub record IdtEntry : Type 0 where
  pub offset_low : ℕ
  pub segment : ℕ
  pub reserved : ℕ
  pub flags : ℕ
  pub offset_high : ℕ

abbrev pub null_entry : IdtEntry
null_entry = record { offset_low = 0; segment = 0; reserved = 0; flags = 0; offset_high = 0 }

-- `isr_entry_t`: a handler with its `data` as what it does to the machine, given the interrupt and
-- the error code.
abbrev pub Handler : Type 0 → Type 0
Handler D = ℕ → ℕ → D → D

-- The flag IF, `_idt`, `_isr_handlers`, and the machine behind the ports.
pub record Intr (D : Type 0) : Type 0 where
  pub enabled : Bool
  pub idt : List IdtEntry
  pub isr_handlers : List (Option (Handler D))
  pub machine : D

unfoldable pub idt_init : List IdtEntry
idt_init = replicate int_id_max null_entry

unfoldable pub idt_set_entry : List IdtEntry → ℕ → IdtEntry → Status × List IdtEntry
idt_set_entry idt n entry = if leb int_id_max n then (failed, idt) else (ok, set idt n entry)

-- `_idt_set_wrapper`; IDT_FLAGS_INTR(1) is 0x8E.
unfoldable pub wrapper_entry : ℕ → IdtEntry
wrapper_entry wrapper = record {
  offset_low = u16 wrapper;
  segment = 8;
  reserved = 0;
  flags = 0x8E;
  offset_high = u16 (wrapper >>> 16);
}

unfoldable pub idt_set_wrapper : List IdtEntry → ℕ → ℕ → List IdtEntry
idt_set_wrapper idt int_n wrapper = (idt_set_entry idt int_n (wrapper_entry wrapper)).1

-- `_isr_wrappers_init`, from number `n` on; the list has the addresses of the wrappers from there.
unfoldable pub isr_wrappers_init : List IdtEntry → ℕ → List ℕ → List IdtEntry
isr_wrappers_init idt n [] = idt
isr_wrappers_init idt n (wrapper ∷ wrappers) =
    isr_wrappers_init (idt_set_wrapper idt n wrapper) (suc n) wrappers

unfoldable pub interrupt_register : {D : Type 0} → Intr D → ℕ → Option (Handler D) → Status × Intr D
interrupt_register s int_id handler =
    if leb int_id_max int_id
    then (failed, s)
    else (ok, record s { isr_handlers = set s.isr_handlers int_id handler })

module _ {D : Type 0} (ports : Ports D) where
  -- `interrupts_init`, with the addresses of `isr_wrapper_0` to `isr_wrapper_47`
  unfoldable pub interrupts_init : List ℕ → Intr D → Intr D
  interrupts_init wrappers s = record {
    enabled = true;
    idt = isr_wrappers_init idt_init 0 wrappers;
    isr_handlers = replicate int_id_max none;
    machine = pic_remap ports s.machine pic_offset_master pic_offset_slave;
  }

  -- The EOI that an interrupt of a controller is answered with.
  unfoldable pub send_eoi : D → ℕ → D
  send_eoi d int_id =
      if leb pic_offset_master int_id && ltb int_id (pic_offset_master + 8)
      then pic_eoi ports d (int_id - pic_offset_master)
      else if leb pic_offset_slave int_id && ltb int_id (pic_offset_slave + 8)
      then pic_eoi ports d (int_id - pic_offset_slave + 8)
      else d

  -- The handler's call; without one an exception ends in `_handle_exception`, which panics.
  unfoldable pub handled : Option (Handler D) → D → ℕ → ℕ → Outcome D
  handled none d int_id errcode = if ltb int_id 32 then panics else returns d
  handled (some handler) d int_id errcode = returns (handler int_id errcode d)

  -- The test of the table's bound keeps `get_or`'s last argument out.
  unfoldable pub interrupt_wrapper : Intr D → ℕ → ℕ → Outcome D
  interrupt_wrapper s int_id errcode =
      let entry = if ltb int_id int_id_max then get_or s.isr_handlers int_id none else none in
      handled entry s.machine int_id errcode >>= λ d. returns (send_eoi d int_id)
