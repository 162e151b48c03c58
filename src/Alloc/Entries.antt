-- ===== src/Alloc/Entries.antt =====
-- src/mm/alloc.c: the entries, `_add_alloc`, `_add_alloc_block` and `alloc_init`.
use lboot.Base.{
  ℕ, ◌+◌, ◌-◌, ◌/◌, ◌%◌, ◌^◌, List, [], ◌∷◌, ◌++◌, Bool, true, false, not, Option, none, some, ◌==◌,
  if◌then◌else◌, replicate, u32, sub_u32, Outcome, returns, panics,
}

-- `alloc_ent_t`; the two bits of its flags stand alone.
pub record Entry : Type 0 where
  pub valid : Bool
  pub used : Bool
  pub addr : ℕ
  pub size : ℕ

-- The addresses of the blocks, first to last, and the entries of all of them.
pub record Heap : Type 0 where
  pub blocks : List ℕ
  pub entries : List Entry

-- `alloc_memrange_t`
pub record MemRange : Type 0 where
  pub start : ℕ
  pub end : ℕ

abbrev pub block_entries : ℕ
block_entries = 128

-- `sizeof(alloc_block_t)`: the entries of 12 bytes, and the pointer to the next block.
abbrev pub block_size : ℕ
block_size = 1540

-- `flags & (1UL << k)`
abbrev pub has_flag : ℕ → ℕ → Bool
has_flag flags k = flags / 2 ^ k % 2 == 1

abbrev pub setalign_bit : ℕ
setalign_bit = 4

abbrev pub low_bit : ℕ
low_bit = 5

abbrev pub nonewblock_bit : ℕ
nonewblock_bit = 31

abbrev pub zero_entry : Entry
zero_entry = record { valid = false; used = false; addr = 0; size = 0 }

-- A free entry over `[addr, addr + size)`.
abbrev pub free_entry : ℕ → ℕ → Entry
free_entry addr size = record { valid = true; used = false; addr = addr; size = size }

abbrev pub used_entry : ℕ → ℕ → Entry
used_entry addr size = record { valid = true; used = true; addr = addr; size = size }

-- `_add_alloc` on the entries: the first slot that is not valid takes the entry.
unfoldable pub fill_slot : List Entry → Entry → Option (List Entry)
fill_slot [] al = none
fill_slot (e ∷ es) al =
    let rest = fill_slot es al in
    if not e.valid then some (al ∷ es) else (elim rest [ none ↦ none | some es' ↦ some (e ∷ es') ])

unfoldable pub add_alloc : Heap → Entry → Outcome Heap
add_alloc h al = elim (fill_slot h.entries al) [
  | none ↦ panics
  | some es ↦ returns (record h { entries = es })
]

-- `_add_alloc_block`, on a block that `memset` has cleared
unfoldable pub add_alloc_block : Heap → ℕ → Heap
add_alloc_block h new = record h {
  blocks = h.blocks ++ (new ∷ []);
  entries = h.entries ++ replicate block_entries zero_entry;
}

unfoldable pub alloc_init : ℕ → ℕ → Outcome Heap
alloc_init base size =
    let aligned = if base % 4 == 0 then base else u32 (base + (4 - base % 4)) in
    let newbase = u32 (aligned + block_size) in
    let left = sub_u32 size (sub_u32 newbase base) in
    add_alloc (record { blocks = aligned ∷ []; entries = replicate block_entries zero_entry })
      (free_entry newbase left)
