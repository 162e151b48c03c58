-- ===== src/Intr/Table.antt =====
-- src/intr/idt.c and src/intr/interrupts.c: the interrupt table after `_isr_wrappers_init`.
use lboot.Base.{
  ℕ, zero, suc, ◌+◌, ◌*◌, ◌^◌, ◌≤◌, ◌<◌, ◌≡◌, refl, ap, ◌∙◌, arith, false, leb, List, [], ◌∷◌,
  length, get_or, set, length-set, get_or-set_self, get_or-set_ne, length-replicate, Status, ok,
}
use lboot.Intr.{
  IdtEntry, null_entry, idt_init, idt_set_entry, wrapper_entry, idt_set_wrapper, isr_wrappers_init,
}

-- The address in an entry.
unfoldable pub entry_address : IdtEntry → ℕ
entry_address e = e.offset_low + e.offset_high * 2 ^ 16

wrapper_entry-address : (w : ℕ) → w < 2 ^ 32 → entry_address (wrapper_entry w) ≡ w
unfolding entry_address wrapper_entry
wrapper_entry-address w word = omega arith

idt_set_entry-in_table :
    (idt : List IdtEntry) (n : ℕ) (entry : IdtEntry)
    → n < 48
    → idt_set_entry idt n entry ≡ (ok, set idt n entry)
unfolding idt_set_entry
idt_set_entry-in_table idt n entry below =
    let in_table : leb 48 n ≡ false = ground arith in rw in_table refl

idt_set_wrapper-eq :
    (idt : List IdtEntry) (n w : ℕ) → n < 48 → idt_set_wrapper idt n w ≡ set idt n (wrapper_entry w)
unfolding idt_set_wrapper
idt_set_wrapper-eq idt n w below =
    ap (λ (r : Status × List IdtEntry). r.1) (idt_set_entry-in_table idt n (wrapper_entry w) below)

init-before :
    (ws : List ℕ) (idt : List IdtEntry) (n k : ℕ)
    → k < n
    → n + length ws ≤ 48
    → get_or (isr_wrappers_init idt n ws) k null_entry ≡ get_or idt k null_entry
unfolding isr_wrappers_init
init-before [] idt n k before fits = refl
init-before (w ∷ ws) idt n k before fits =
    init-before ws (idt_set_wrapper idt n w) (suc n) k (omega arith) (omega arith)
    ∙ ap (λ t. get_or t k null_entry) (idt_set_wrapper-eq idt n w (omega arith))
    ∙ get_or-set_ne idt (wrapper_entry w) null_entry (λ e. omega arith)

init-at :
    (ws : List ℕ) (idt : List IdtEntry) (n j : ℕ)
    → j < length ws
    → n + length ws ≤ 48
    → length idt ≡ 48
    → get_or (isr_wrappers_init idt n ws) (n + j) null_entry ≡ wrapper_entry (get_or ws j 0)
unfolding isr_wrappers_init
init-at [] idt n j below fits sized = absurd (omega arith)
init-at (w ∷ ws) idt n zero below fits sized =
    let here : n + 0 ≡ n = omega arith in
    ap (λ t. get_or (isr_wrappers_init (idt_set_wrapper idt n w) (suc n) ws) t null_entry) here
    ∙ init-before ws (idt_set_wrapper idt n w) (suc n) n (omega arith) (omega arith)
    ∙ ap (λ t. get_or t n null_entry) (idt_set_wrapper-eq idt n w (omega arith))
    ∙ get_or-set_self idt n (wrapper_entry w) null_entry (omega arith)
init-at (w ∷ ws) idt n (suc j) below fits sized =
    let there : n + suc j ≡ suc n + j = omega arith in
    let kept : length (idt_set_wrapper idt n w) ≡ 48 =
      ap length (idt_set_wrapper-eq idt n w (omega arith))
      ∙ length-set idt n (wrapper_entry w)
      ∙ sized in
    ap (λ t. get_or (isr_wrappers_init (idt_set_wrapper idt n w) (suc n) ws) t null_entry) there
    ∙ init-at ws (idt_set_wrapper idt n w) (suc n) j (omega arith) (omega arith) kept

-- After `_isr_wrappers_init` on the cleared table, the entry of each of the 48 interrupts holds the
-- address of its own wrapper, for addresses of 32 bits.
pub isr_wrappers_init-address :
    (wrappers : List ℕ) (n : ℕ)
    → length wrappers ≡ 48
    → n < 48
    → get_or wrappers n 0 < 2 ^ 32
    → entry_address (get_or (isr_wrappers_init idt_init 0 wrappers) n null_entry)
      ≡ get_or wrappers n 0
unfolding idt_init
isr_wrappers_init-address wrappers n sized below word =
    let first : n ≡ 0 + n = omega arith in
    ap (λ t. entry_address (get_or (isr_wrappers_init idt_init 0 wrappers) t null_entry)) first
    ∙ ap entry_address
        (init-at wrappers idt_init 0 n (omega arith) (omega arith) (length-replicate 48 null_entry))
    ∙ wrapper_entry-address (get_or wrappers n 0) word
