-- ===== src/Intr/Masks.antt =====
-- src/intr/pic.c and src/intr/interrupts.c: the lines that `interrupt_enable` and
-- `interrupt_disable` change in the masks of the controllers.
use lboot.Base.{
  ℕ, ◌+◌, ◌-◌, ◌/◌, ◌%◌, ◌^◌, ◌≤◌, ◌<◌, ◌≡◌, inl, inr, refl, ap, ◌∙◌, arith, Bool, true, false,
  Bool-cases, if◌then◌else◌, ltb, leb, ◌==◌, ◌&&◌, bit_and, bit_or, u8, Status, ok,
}
use lboot.Base.Bits.{passes, at_index}
use lboot.Intr.{
  Ports, pic1_data, pic2_data, pic_mask, pic_unmask, on_irq, interrupt_enable, interrupt_disable,
}

-- The bit at `i` of a byte.
abbrev pub bit_at : ℕ → ℕ → ℕ
bit_at byte i = byte / 2 ^ i % 2

unfoldable sets : ℕ → ℕ → ℕ → Bool
sets line i b = bit_at (u8 (bit_or b (2 ^ line))) i == (if i == line then 1 else bit_at b i)

unfoldable clears : ℕ → ℕ → ℕ → Bool
clears line i b =
    bit_at (u8 (bit_and b (2 ^ 32 - 1 - 2 ^ line))) i == (if i == line then 0 else bit_at b i)

unfoldable all_bits : (ℕ → ℕ → ℕ → Bool) → ℕ → Bool
all_bits test line = passes (λ i. passes (λ b. test line i b) 256) 8

from_table :
    (test : ℕ → ℕ → ℕ → Bool)
    → passes (all_bits test) 8 ≡ true
    → (line i b : ℕ) → line < 8
    → i < 8
    → b < 256
    → test line i b ≡ true
unfolding all_bits
from_table test table line i b small small' byte =
    at_index (λ b. test line i b) 256 b byte
      (at_index (λ i. passes (λ b. test line i b) 256) 8 i small'
        (at_index (all_bits test) 8 line small table))

set_bit :
    (line i b : ℕ)
    → line < 8
    → i < 8
    → b < 256
    → bit_at (u8 (bit_or b (2 ^ line))) i ≡ (if i == line then 1 else bit_at b i)
unfolding passes all_bits sets
set_bit line i b small small' byte = ground (arith, from_table sets refl line i b small small' byte)

clear_bit :
    (line i b : ℕ)
    → line < 8
    → i < 8
    → b < 256
    → bit_at (u8 (bit_and b (2 ^ 32 - 1 - 2 ^ line))) i ≡ (if i == line then 0 else bit_at b i)
unfolding passes all_bits clears
clear_bit line i b small small' byte =
    ground (arith, from_table clears refl line i b small small' byte)

-- The mask registers of the two controllers, set up: each reads back what was written to it last,
-- and a write to one leaves the other.
pub record MaskRegisters {D : Type 0} (ports : Ports D) : Type 0 where
  pub byte : (d : D) (port : ℕ) → ports.inb d port < 256
  pub reads_first : (d : D) (v : ℕ) → v < 256 → ports.inb (ports.outb d pic1_data v) pic1_data ≡ v
  pub reads_second : (d : D) (v : ℕ) → v < 256 → ports.inb (ports.outb d pic2_data v) pic2_data ≡ v
  pub keeps_second :
      (d : D) (v : ℕ) → ports.inb (ports.outb d pic1_data v) pic2_data ≡ ports.inb d pic2_data
  pub keeps_first :
      (d : D) (v : ℕ) → ports.inb (ports.outb d pic2_data v) pic1_data ≡ ports.inb d pic1_data

module _ {D : Type 0} (ports : Ports D) where
  -- 1 if the line `i` of the sixteen is masked
  unfoldable pub irq_masked : D → ℕ → ℕ
  irq_masked d i =
      if leb 8 i then bit_at (ports.inb d pic2_data) (i - 8) else bit_at (ports.inb d pic1_data) i

  module _ (law : MaskRegisters ports) (bit : ℕ) (change : ℕ → ℕ → ℕ)
      (small : (b line : ℕ) → change b line < 256)
      (spec : (line i b : ℕ)
        → line < 8
        → i < 8
        → b < 256
        → bit_at (change b line) i ≡ (if i == line then bit else bit_at b i)) where
    masked_second :
        (d : D) (line i : ℕ)
        → line < 8
        → i < 16
        → irq_masked (ports.outb d pic2_data (change (ports.inb d pic2_data) line)) i
          ≡ (if i == 8 + line then bit else irq_masked d i)
    unfolding irq_masked
    masked_second d line i below below' =
        let now = law.reads_second d (change (ports.inb d pic2_data) line) (small _ line) in
        let first = law.keeps_first d (change (ports.inb d pic2_data) line) in
        elim (Bool-cases (leb 8 i)) [
          | inl e ↦
              rw (e, now)
                (spec line (i - 8) (ports.inb d pic2_data) below (ground arith)
                    (law.byte d pic2_data)
                  ∙ ap (λ t. if t then bit else bit_at (ports.inb d pic2_data) (i - 8))
                      (ground arith))
          | inr e ↦ (let other : i == 8 + line ≡ false = ground arith in rw (e, other, first) refl)
        ]

    masked_first :
        (d : D) (line i : ℕ)
        → line < 8
        → i < 16
        → irq_masked (ports.outb d pic1_data (change (ports.inb d pic1_data) line)) i
          ≡ (if i == line then bit else irq_masked d i)
    unfolding irq_masked
    masked_first d line i below below' =
        let now = law.reads_first d (change (ports.inb d pic1_data) line) (small _ line) in
        let second = law.keeps_second d (change (ports.inb d pic1_data) line) in
        elim (Bool-cases (leb 8 i)) [
          | inl e ↦ (let other : i == line ≡ false = ground arith in rw (e, other, second) refl)
          | inr e ↦
              rw (e, now)
                (spec line i (ports.inb d pic1_data) below (ground arith) (law.byte d pic1_data))
        ]

    -- The one line that a change on a controller's IRQ reaches.
    at_irq :
        (act : D → ℕ → Status × D)
        → ((d : D) (irq : ℕ)
            → irq < 8
            → act d irq ≡ (ok, ports.outb d pic1_data (change (ports.inb d pic1_data) irq)))
        → ((d : D) (line : ℕ)
            → line < 8
            → act d (line + 8) ≡ (ok, ports.outb d pic2_data (change (ports.inb d pic2_data) line)))
        → (d : D) (int_id i : ℕ) → 32 ≤ int_id
        → int_id < 48
        → i < 16
        → ((on_irq ports act d int_id).0 ≡ ok)
          × (irq_masked (on_irq ports act d int_id).1 i
              ≡ (if i == int_id - 32 then bit else irq_masked d i))
    unfolding on_irq
    at_irq act first second d int_id i low high below = elim (Bool-cases (ltb int_id 40)) [
      | inl e ↦
          (let in_first : leb 32 int_id && ltb int_id 40 ≡ true = ground arith in
            rw (in_first, first d (int_id - 32) (ground arith))
              (refl, masked_first d (int_id - 32) i (ground arith) below))
      | inr e ↦
          (let not_first : leb 32 int_id && ltb int_id 40 ≡ false = ground arith in
            let in_second : leb 40 int_id && ltb int_id 48 ≡ true = ground arith in
            let place : 8 + (int_id - 40) ≡ int_id - 32 = ground arith in
            rw (not_first, in_second, second d (int_id - 40) (ground arith))
              (
                refl,
                masked_second d (int_id - 40) i (ground arith) below
                    ∙ ap (λ t. if i == t then bit else irq_masked d i) place,
              ))
    ]

  first_irq : (irq : ℕ) → irq < 8 → (leb 16 irq ≡ false) × (leb 8 irq ≡ false)
  first_irq irq lt = (ground arith, ground arith)

  second_irq :
      (line : ℕ)
      → line < 8
      → (leb 16 (line + 8) ≡ false) × (leb 8 (line + 8) ≡ true) × (line + 8 - 8 ≡ line)
  second_irq line lt = (ground arith, ground arith, omega arith)

  module _ (law : MaskRegisters ports) where
    -- For the interrupt of one of the sixteen lines, `interrupt_enable` succeeds and unmasks that
    -- line; every other line stays as it was.
    pub interrupt_enable-masked :
        (d : D) (int_id i : ℕ)
        → 32 ≤ int_id
        → int_id < 48
        → i < 16
        → ((interrupt_enable ports d int_id).0 ≡ ok)
          × (irq_masked (interrupt_enable ports d int_id).1 i
              ≡ (if i == int_id - 32 then 0 else irq_masked d i))
    unfolding interrupt_enable pic_unmask
    interrupt_enable-masked d int_id i low high below =
        at_irq law 0 (λ b line. u8 (bit_and b (2 ^ 32 - 1 - 2 ^ line))) (λ b line. omega arith)
          (λ line i b. clear_bit line i b) (pic_unmask ports)
          (λ d irq lt. (let (in_range, first) = first_irq irq lt in rw (in_range, first) refl))
          (λ d line lt.
            (let (in_range, second, back) = second_irq line lt in rw (in_range, second, back) refl))
          d int_id i low high below

    -- For the interrupt of one of the sixteen lines, `interrupt_disable` succeeds and masks that
    -- line; every other line stays as it was.
    pub interrupt_disable-masked :
        (d : D) (int_id i : ℕ)
        → 32 ≤ int_id
        → int_id < 48
        → i < 16
        → ((interrupt_disable ports d int_id).0 ≡ ok)
          × (irq_masked (interrupt_disable ports d int_id).1 i
              ≡ (if i == int_id - 32 then 1 else irq_masked d i))
    unfolding interrupt_disable pic_mask
    interrupt_disable-masked d int_id i low high below =
        at_irq law 1 (λ b line. u8 (bit_or b (2 ^ line))) (λ b line. omega arith)
          (λ line i b. set_bit line i b) (pic_mask ports)
          (λ d irq lt. (let (in_range, first) = first_irq irq lt in rw (in_range, first) refl))
          (λ d line lt.
            (let (in_range, second, back) = second_irq line lt in rw (in_range, second, back) refl))
          d int_id i low high below
