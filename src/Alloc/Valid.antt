-- ===== src/Alloc/Valid.antt =====
-- The invariant of the allocator, and what `alloc_init`, `alloc` and `free` do to a valid heap.
use lboot.Base.{
  ℕ, suc, ◌+◌, ◌-◌, ◌%◌, ◌≤◌, ◌<◌, ◌^◌, ◌≡◌, ◌≢◌, ◌⊎◌, refl, ap, ap₂, ◌∙◌, arith, List, [], ◌∷◌,
  false, ◌==◌, if◌then◌else◌, u32, sub_u32, Status, ok, failed, Outcome, returns, panics, replicate,
}
use lboot.Alloc.Entries.{
  Entry, Heap, has_flag, nonewblock_bit, block_size, zero_entry, free_entry, fill_slot, add_alloc,
  alloc_init,
}
use lboot.Alloc.Cover.{total, slot, cover, use_cover, total-replicate}
use lboot.Alloc.Slots.{AllInBounds, AllInBounds-replicate}
use lboot.Alloc.Find.{alloc, alignment}
use lboot.Alloc.Free.{do_free, free}
use lboot.Alloc.Request.{inside}
use lboot.Alloc.Grow.{range_of, alloc-Allocated}
use lboot.Alloc.Release.{Held}
use lboot.Alloc.Merged.{Merged, FreeResult, unknown, given_up, do_free-FreeResult}

-- How many valid entries, and how many used ones, cover an address.
abbrev pub covered : Heap → ℕ → ℕ
covered h x = total (cover x) h.entries

abbrev pub in_use : Heap → ℕ → ℕ
in_use h x = total (use_cover x) h.entries

-- No address belongs to two entries, address 0 to none, and `_add_alloc` has slots to spare.
pub record IsValid (h : Heap) : Type 0 where
  pub bounds : AllInBounds h.entries
  pub apart : (x : ℕ) → covered h x ≤ 1
  pub no_null : covered h 0 ≡ 0
  pub room : 88 ≤ total slot h.entries

use_cover-le : (x : ℕ) (es : List Entry) → total (use_cover x) es ≤ total (cover x) es
use_cover-le x [] = omega arith
use_cover-le x (e ∷ es) = ground (arith, use_cover-le x es)

pub in_use-le-covered : (h : Heap) (x : ℕ) → in_use h x ≤ covered h x
in_use-le-covered h x = use_cover-le x h.entries

-- The heap of one block at `aligned`, with one free entry behind the block.
abbrev init_heap : ℕ → ℕ → Heap
init_heap aligned end = record {
  blocks = aligned ∷ [];
  entries =
      free_entry (aligned + block_size) (end - (aligned + block_size)) ∷ replicate 127 zero_entry;
}

abbrev aligned4 : ℕ → ℕ
aligned4 base = if base % 4 == 0 then base else u32 (base + (4 - base % 4))

aligned4_lem : (base : ℕ) → base < 2 ^ 31 → (base ≤ aligned4 base) × (aligned4 base < base + 4)
aligned4_lem base b = ground arith

aligned4-mod : (base : ℕ) → base < 2 ^ 31 → aligned4 base % 4 ≡ 0
aligned4-mod base b = ground arith

add_first :
    (n : ℕ) (bs : List ℕ) (al : Entry)
    → add_alloc (record { blocks = bs; entries = replicate (suc n) zero_entry }) al
      ≡ returns (record { blocks = bs; entries = al ∷ replicate n zero_entry })
unfolding add_alloc fill_slot
add_first n bs al = refl

init_returns :
    (base size : ℕ)
    → base + size < 2 ^ 31
    → 1543 ≤ size
    → alloc_init base size ≡ returns (init_heap (aligned4 base) (base + size))
unfolding alloc_init
init_returns base size b s =
    let a = aligned4_lem base (omega arith) in
    let at : u32 (aligned4 base + block_size) ≡ aligned4 base + block_size = omega (arith, a) in
    let left : sub_u32 size (sub_u32 (u32 (aligned4 base + block_size)) base)
        ≡ base + size - (aligned4 base + block_size) =
      omega (arith, a) in
    add_first 127 (aligned4 base ∷ []) _
    ∙ ap
        (λ (e : Entry).
          returns (record { blocks = aligned4 base ∷ []; entries = e ∷ replicate 127 zero_entry }))
        (ap₂ free_entry at left)

-- A heap with one free entry, and 127 slots.
single-covered :
    (bs : List ℕ) (addr size x : ℕ)
    → covered (record { blocks = bs; entries = free_entry addr size ∷ replicate 127 zero_entry }) x
      ≡ inside addr size x
single-covered bs addr size x = omega (arith, total-replicate (cover x) 127 zero_entry refl)

-- `alloc_init` on memory that ends below 2 GiB, does not start at 0 and has room for a block leaves
-- a valid heap with one block, at the first multiple of 4 from the start on, and nothing in use; the
-- heap holds just the addresses from behind the 1540 bytes of the block to the end of the memory.
pub alloc_init-IsValid :
    (base size : ℕ)
    → 0 < base
    → base + size < 2 ^ 31
    → 1543 ≤ size
    → (h : Heap) × (block : ℕ) × (alloc_init base size ≡ returns h)
      × IsValid h
      × (h.blocks ≡ block ∷ [])
      × ((base ≤ block) × (block < base + 4) × (block % 4 ≡ 0))
      × ((x : ℕ) → in_use h x ≡ 0)
      × ((x : ℕ) → block + 1540 ≤ x → x < base + size → covered h x ≡ 1)
      × ((x : ℕ) → (x < block + 1540) ⊎ (base + size ≤ x) → covered h x ≡ 0)
alloc_init-IsValid base size pos b s =
    let a = aligned4_lem base (omega arith) in
    let at = aligned4 base in
    (
      init_heap at (base + size),
      at,
      init_returns base size b s,
      record {
        bounds = (λ _. omega (arith, a), AllInBounds-replicate 127);
        apart = λ x.
            ground (
              arith,
              single-covered (at ∷ []) (at + block_size) (base + size - (at + block_size)) x,
            );
        no_null = ground (
          arith,
          a,
          single-covered (at ∷ []) (at + block_size) (base + size - (at + block_size)) 0,
        );
        room = omega arith;
      },
      refl,
      (a.0, a.1, aligned4-mod base (omega arith)),
      λ x. total-replicate (use_cover x) 127 zero_entry refl,
      λ x lo hi. ground (
        arith,
        a,
        single-covered (at ∷ []) (at + block_size) (base + size - (at + block_size)) x,
      ),
      λ x out. ground (
        arith,
        a,
        out,
        single-covered (at ∷ []) (at + block_size) (base + size - (at + block_size)) x,
      ),
    )

-- What a granted request means for a valid heap.
pub record Served (flags sz : ℕ) (h : Heap) (addr : ℕ) (k : Heap) : Type 0 where
  pub valid : IsValid k
  pub nonzero : addr ≢ 0
  pub in_range : ((range_of flags).start ≤ addr) × (addr + sz ≤ (range_of flags).end)
  pub aligned : addr % alignment flags ≡ 0
  pub was_free : (x : ℕ) → addr ≤ x → x < addr + sz → (covered h x ≡ 1) × (in_use h x ≡ 0)
  pub now_used : (x : ℕ) → addr ≤ x → x < addr + sz → in_use k x ≡ 1
  pub others : (x : ℕ) → in_use h x ≤ in_use k x
  pub same_region : (x : ℕ) → covered k x ≡ covered h x

-- When `alloc` grants a request on a valid heap (by flags that a caller may pass), the heap stays
-- valid; the request lies in the range that its flags allow, aligned; all of its addresses were in
-- the heap and not in use, and are in use now; no address stops being in use, and the heap holds
-- the same addresses.
pub alloc-Served :
    (h : Heap) (sz flags : ℕ) {addr : ℕ} {k : Heap}
    → IsValid h
    → has_flag flags nonewblock_bit ≡ false
    → alloc h sz flags ≡ returns (addr, k)
    → Served flags sz h addr k
alloc-Served h sz flags {addr} {k} v plain q =
    let r = alloc-Allocated h sz flags v.bounds plain q in
    record {
      valid = record {
        bounds = r.bounds;
        apart = λ x. omega (arith, r.covers x, v.apart x);
        no_null = r.covers 0 ∙ v.no_null;
        room = r.room v.room;
      };
      nonzero = r.nonzero;
      in_range = (r.in_range, r.ends_in_range);
      aligned = r.aligned;
      was_free = λ x lo hi. ground (arith, r.uses x, r.covers x, v.apart x, in_use-le-covered k x);
      now_used = λ x lo hi. ground (arith, r.uses x, r.covers x, v.apart x, in_use-le-covered k x);
      others = λ x. omega (arith, r.uses x);
      same_region = r.covers;
    }

-- What `free` gives up: a used entry that starts at the address, its bytes and no others.
pub record Returned (h : Heap) (addr : ℕ) (k : Heap) : Type 0 where
  pub index : ℕ
  pub entry : Entry
  pub held : Held h.entries index entry
  pub starts : entry.addr ≡ addr
  pub merged : Merged h index entry k
  pub valid : IsValid k
  pub uses : (x : ℕ) → in_use k x + inside addr entry.size x ≡ in_use h x
  pub same_region : (x : ℕ) → covered k x ≡ covered h x

pub data FreeOutcome (h : Heap) (addr : ℕ) : Outcome Heap → Type 0 where
  refused : ((j : ℕ) (e : Entry) → Held h.entries j e → e.addr ≢ addr) → FreeOutcome h addr panics
  accepted : {k : Heap} → Returned h addr k → FreeOutcome h addr (returns k)

-- `free` on a valid heap panics if no used entry starts at the address; else it returns a valid heap
-- in which just the bytes of such an entry have stopped being in use, and which has a free entry in
-- its place that holds all of it. This begins with a free entry which ended where the used one starts,
-- where there was one; it ends with a free entry which started at the end of the used one, where there
-- was one, the used one is not empty, and no free entry started inside of it.
pub free-FreeOutcome : (h : Heap) (addr : ℕ) → IsValid h → FreeOutcome h addr (free h addr)
unfolding free
free-FreeOutcome h addr v =
    go (do_free h addr).0 (do_free h addr).1 (do_free-FreeResult h addr v.bounds)
  where
    go :
        (s : Status) (h' : Heap)
        → FreeResult h addr s h'
        → FreeOutcome h addr (elim s [ ok ↦ returns h' | failed ↦ panics ])
    go s h' (unknown absent) = refused (λ j e t. absent j e t.there t.valid t.used)
    go s h' (given_up i e t at f m) = accepted (record {
      index = i;
      entry = e;
      held = t;
      starts = at;
      merged = m;
      valid = record {
        bounds = f.bounds;
        apart = λ x. omega (arith, f.covers x, v.apart x);
        no_null = f.covers 0 ∙ v.no_null;
        room = omega (arith, f.slots, v.room);
      };
      uses = λ x. rw at at (f.uses x);
      same_region = f.covers;
    })
