-- ===== src/Alloc/Find.antt =====
-- src/mm/alloc.c: `_find_free` and `alloc`.
use lboot.Base.{
  ℕ, zero, suc, ◌+◌, ◌-◌, ◌%◌, ◌^◌, List, [], ◌∷◌, ◌&&◌, not, Option, none, some, ltb, ◌==◌,
  if◌then◌else◌, set, u32, sub_u32, Outcome, returns, panics, no_fuel, ◌>>=◌,
}
use lboot.Alloc.Entries.{
  Entry, Heap, MemRange, block_size, has_flag, setalign_bit, low_bit, nonewblock_bit, free_entry,
  used_entry, add_alloc, add_alloc_block,
}

unfoldable pub align_up : ℕ → ℕ → ℕ
align_up start align = if start % align == 0 then start else u32 (start + (align - start % align))

-- Where a request of `sz` bytes would start in a free entry, if it fits.
unfoldable pub fit : MemRange → ℕ → ℕ → Entry → Option ℕ
fit mrange align sz ent =
    let last = u32 (ent.addr + ent.size) in
    let low = if ltb ent.addr mrange.start then mrange.start else ent.addr in
    let high = if ltb mrange.end last then mrange.end else last in
    let start = align_up low align in
    if ltb high start then none else if ltb (high - start) sz then none else some start

-- What the walk of `_find_free` has found: `entry` with its index, `newent.addr`, and `free_ents`.
pub record Choice : Type 0 where
  pub index : ℕ
  pub entry : Entry
  pub start : ℕ

pub record Found : Type 0 where
  pub choice : Option Choice
  pub free_ents : ℕ

-- The smallest entry wins, the first of those.
unfoldable pub better : Option Choice → Choice → Choice
better none new = new
better (some old) new = if ltb new.entry.size old.entry.size then new else old

unfoldable pub visit : MemRange → ℕ → ℕ → ℕ → Entry → Found → Found
unfolding better
visit mrange align sz i ent s =
    if ent.valid && not ent.used
    then (elim (fit mrange align sz ent) [
      | none ↦ s
      | some start ↦ record s {
        choice = some (better s.choice (record { index = i; entry = ent; start = start }));
      }
    ])
    else if not ent.valid
    then record s { free_ents = s.free_ents + 1 }
    else s

unfoldable pub walk : MemRange → ℕ → ℕ → ℕ → List Entry → Found → Found
walk mrange align sz i [] s = s
walk mrange align sz i (e ∷ es) s = walk mrange align sz (i + 1) es (visit mrange align sz i e s)

abbrev pub found_none : Found
found_none = record { choice = none; free_ents = 0 }

-- The end of `_find_free`: a prior entry for what lies before the request, and the size of the
-- chosen entry behind it;
unfoldable pub carve_front : Heap → Choice → Outcome Heap
carve_front h c =
    if c.entry.addr == c.start
    then returns h
    else add_alloc h (free_entry c.entry.addr (sub_u32 c.start c.entry.addr))

unfoldable pub remaining : Choice → ℕ
remaining c =
    if c.entry.addr == c.start
    then c.entry.size
    else sub_u32 c.entry.size (sub_u32 c.start c.entry.addr)

-- then the entry is used whole, or keeps what lies behind the request beside a new used entry.
unfoldable pub carve_rest : Heap → Choice → ℕ → ℕ → Outcome (ℕ × Heap)
carve_rest h c size sz =
    if size == sz
    then returns (c.start, record h { entries = set h.entries c.index (used_entry c.start size) })
    else (do
      h' ←
          add_alloc
            (record h {
              entries = set h.entries c.index (free_entry (u32 (c.start + sz)) (sub_u32 size sz));
            })
            (used_entry c.start sz)
      returns (c.start, h'))

unfoldable pub carve : Heap → Choice → ℕ → Outcome (ℕ × Heap)
unfolding carve_front remaining carve_rest
carve h c sz = do h' ← carve_front h c; carve_rest h' c (remaining c) sz

-- 0 is NULL.
unfoldable pub take_found : Heap → Option Choice → ℕ → Outcome (ℕ × Heap)
take_found h none sz = returns (0, h)
take_found h (some c) sz = carve h c sz

abbrev pub range_16b : MemRange
range_16b = record { start = 0; end = 0xFFFF }

abbrev pub range_32b : MemRange
range_32b = record { start = 0x10000; end = 0xFFFF_FFFF }

-- `alloc`, over the `_find_free` that it calls
unfoldable pub alloc_by :
    (Heap → ℕ → ℕ → MemRange → Outcome (ℕ × Heap)) → Heap → ℕ → ℕ → Outcome (ℕ × Heap)
alloc_by find h sz flags = if sz == 0 then panics else (do
  (addr, h') ← find h sz flags (if has_flag flags low_bit then range_16b else range_32b)
  if addr == 0 then panics else returns (addr, h'))

unfoldable pub alignment : ℕ → ℕ
alignment flags = if has_flag flags setalign_bit then 2 ^ (flags % 16) else 4

-- `free_ents < ALLOC_BLOCK_SZ * 0.7` is `free_ents < 89.6`.
unfoldable pub find_free : ℕ → Heap → ℕ → ℕ → MemRange → Outcome (ℕ × Heap)
find_free zero h sz flags mrange = no_fuel
find_free (suc fuel) h sz flags mrange =
    let s = walk mrange (alignment flags) sz 0 h.entries found_none in
    let grow : Outcome (ℕ × Heap) = do
      (new, h') ← alloc_by (find_free fuel) h block_size (2 ^ nonewblock_bit)
      find_free fuel (add_alloc_block h' new) sz flags mrange
    in if ltb s.free_ents 90 && not (has_flag flags nonewblock_bit)
      then grow
      else take_found h s.choice sz

-- A recursion of depth two is the deepest there is.
unfoldable pub alloc : Heap → ℕ → ℕ → Outcome (ℕ × Heap)
alloc = alloc_by (find_free 2)
