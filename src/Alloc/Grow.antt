-- ===== src/Alloc/Grow.antt =====
-- What `alloc` grants, with the block of entries that it may add first.
use lboot.Base.{
  ℕ, suc, ◌+◌, ◌%◌, ◌≤◌, ◌<◌, ◌^◌, ◌≡◌, ◌≢◌, refl, sym, ap, ◌∙◌, arith, List, [], ◌∷◌, ◌++◌, true,
  false, ltb, if◌then◌else◌, inl, inr, Bool-cases, Outcome, returns, ◌>>=◌, >>=-eq-returns,
  replicate, append-nil,
}
use lboot.Alloc.Entries.{
  Entry, Heap, MemRange, has_flag, nonewblock_bit, low_bit, block_size, block_entries, zero_entry,
  add_alloc_block,
}
use lboot.Alloc.Cover.{
  total, slot, cover, use_cover, bytes, OfValid, cover-OfValid, use_cover-OfValid, bytes-OfValid,
  total-append, total-replicate,
}
use lboot.Alloc.Slots.{AllInBounds, AllInBounds-append, AllInBounds-replicate}
use lboot.Alloc.Find.{walk, found_none, alignment, find_free, alloc_by, alloc, range_16b, range_32b}
use lboot.Alloc.Choose.{walk-free_ents}
use lboot.Alloc.Request.{inside, Granted, met_at_once}

-- The range that the flags of a request allow.
abbrev pub range_of : ℕ → MemRange
range_of flags = if has_flag flags low_bit then range_16b else range_32b

pub range_of-low : (flags : ℕ) → (range_of flags).start + 2 ^ 15 < 2 ^ 32
range_of-low flags = ground arith

pub alloc_by-returns :
    (find : Heap → ℕ → ℕ → MemRange → Outcome (ℕ × Heap)) (h : Heap) (sz flags : ℕ) {addr : ℕ}
    {k : Heap}
    → alloc_by find h sz flags ≡ returns (addr, k)
    → (find h sz flags (range_of flags) ≡ returns (addr, k)) × (addr ≢ 0) × (sz ≢ 0)
unfolding alloc_by
alloc_by-returns find h sz flags q = ground arith

-- A new block adds free slots and no bytes.
total-add_alloc_block :
    (w : Entry → ℕ) (h : Heap) (new : ℕ)
    → OfValid w
    → total w (add_alloc_block h new).entries ≡ total w h.entries
unfolding add_alloc_block
total-add_alloc_block w h new z = omega (
  arith,
  total-append w h.entries (replicate block_entries zero_entry),
  total-replicate w block_entries zero_entry (z zero_entry refl),
)

slots-add_alloc_block :
    (h : Heap) (new : ℕ) → total slot (add_alloc_block h new).entries ≡ total slot h.entries + 128
unfolding add_alloc_block
slots-add_alloc_block h new = total-append slot h.entries (replicate block_entries zero_entry)

bounds-add_alloc_block :
    (h : Heap) (new : ℕ) → AllInBounds h.entries → AllInBounds (add_alloc_block h new).entries
unfolding add_alloc_block
bounds-add_alloc_block h new a =
    AllInBounds-append h.entries (replicate block_entries zero_entry) a
      (AllInBounds-replicate block_entries)

chain-add_alloc_block :
    (h : Heap) (new : ℕ) → (add_alloc_block h new).blocks ≡ h.blocks ++ (new ∷ [])
unfolding add_alloc_block
chain-add_alloc_block h new = refl

-- The blocks of entries that cover `x`.
abbrev pub blocks_inside : List ℕ → ℕ → ℕ
blocks_inside [] x = 0
blocks_inside (b ∷ bs) x = inside b block_size x + blocks_inside bs x

-- What `alloc` leaves: the request lies in its range, aligned; every address is covered as before;
-- the addresses of the request, and of the blocks that were chained, have one more used entry.
pub record Allocated (flags sz : ℕ) (h : Heap) (addr : ℕ) (k : Heap) : Type 0 where
  pub new : List ℕ
  pub bounds : AllInBounds k.entries
  pub nonzero : addr ≢ 0
  pub in_range : (range_of flags).start ≤ addr
  pub ends_in_range : addr + sz ≤ (range_of flags).end
  pub aligned : addr % alignment flags ≡ 0
  pub covers : (x : ℕ) → total (cover x) k.entries ≡ total (cover x) h.entries
  pub uses :
      (x : ℕ)
      → total (use_cover x) k.entries
        ≡ total (use_cover x) h.entries + inside addr sz x + blocks_inside new x
  pub same_bytes : total bytes k.entries ≡ total bytes h.entries
  pub room : 88 ≤ total slot h.entries → 88 ≤ total slot k.entries
  pub chain : k.blocks ≡ h.blocks ++ new

module _ (h : Heap) (sz flags : ℕ) (a : AllInBounds h.entries) where
  direct :
      {addr : ℕ} {k : Heap}
      → 90 ≤ total slot h.entries
      → addr ≢ 0
      → Granted (range_of flags) flags sz h addr k
      → Allocated flags sz h addr k
  direct r ne g = record {
    new = [];
    bounds = g.bounds;
    nonzero = ne;
    in_range = g.in_range;
    ends_in_range = g.ends_in_range;
    aligned = g.aligned;
    covers = g.covers;
    uses = λ x. omega (arith, g.uses x);
    same_bytes = g.same_bytes;
    room = λ _. omega (arith, g.slots);
    chain = g.chain ∙ sym (append-nil h.blocks);
  }

  grown :
      (new : ℕ) (h' : Heap) {addr : ℕ} {k : Heap}
      → Granted range_32b (2 ^ nonewblock_bit) block_size h new h'
      → addr ≢ 0
      → Granted (range_of flags) flags sz (add_alloc_block h' new) addr k
      → Allocated flags sz h addr k
  grown new h' b ne g = record {
    new = new ∷ [];
    bounds = g.bounds;
    nonzero = ne;
    in_range = g.in_range;
    ends_in_range = g.ends_in_range;
    aligned = g.aligned;
    covers = λ x.
        omega
          (arith, g.covers x, b.covers x, total-add_alloc_block (cover x) h' new (cover-OfValid x));
    uses = λ x. omega (
      arith,
      g.uses x,
      b.uses x,
      total-add_alloc_block (use_cover x) h' new (use_cover-OfValid x),
    );
    same_bytes =
        omega (arith, g.same_bytes, b.same_bytes, total-add_alloc_block bytes h' new bytes-OfValid);
    room = λ _. omega (arith, g.slots, b.slots, slots-add_alloc_block h' new);
    chain = g.chain ∙ chain-add_alloc_block h' new ∙ ap (λ l. l ++ (new ∷ [])) b.chain;
  }

  find_free-grow :
      (fuel : ℕ) (mrange : MemRange)
      → has_flag flags nonewblock_bit ≡ false
      → ltb (walk mrange (alignment flags) sz 0 h.entries found_none).free_ents 90 ≡ true
      → find_free (suc fuel) h sz flags mrange ≡ (
          alloc_by (find_free fuel) h block_size (2 ^ nonewblock_bit) >>= λ p.
          find_free fuel (add_alloc_block p.1 p.0) sz flags mrange)
  unfolding find_free
  find_free-grow fuel mrange plain few = rw (few, plain)

  new_block :
      {new : ℕ} {h' : Heap}
      → alloc_by (find_free 1) h block_size (2 ^ nonewblock_bit) ≡ returns (new, h')
      → Granted range_32b (2 ^ nonewblock_bit) block_size h new h'
  new_block q =
      let (found, ne, _) = alloc_by-returns (find_free 1) h block_size (2 ^ nonewblock_bit) q in
      met_at_once range_32b (2 ^ nonewblock_bit) block_size (omega arith) 0 h a (inr refl) found ne

  -- What a granted request leaves of the heap.
  pub alloc-Allocated :
      {addr : ℕ} {k : Heap}
      → has_flag flags nonewblock_bit ≡ false
      → alloc h sz flags ≡ returns (addr, k)
      → Allocated flags sz h addr k
  unfolding alloc
  alloc-Allocated {addr} {k} plain q =
      let (found, ne, _) = alloc_by-returns (find_free 2) h sz flags q in
      let range = range_of flags in
      let low = range_of-low flags in
      let count = walk-free_ents range (alignment flags) sz 0 h.entries found_none in
      elim (Bool-cases
        (ltb (walk range (alignment flags) sz 0 h.entries found_none).free_ents 90)) [
          | inl few ↦
              let grow = alloc_by (find_free 1) h block_size (2 ^ nonewblock_bit) in
              let (p, first, second) =
                >>=-eq-returns grow (λ p. find_free 1 (add_alloc_block p.1 p.0) sz flags range)
                  (sym (find_free-grow 1 range plain few) ∙ found) in
              let b = new_block first in
              grown p.0 p.1 b ne (
                met_at_once range flags sz low 0 (add_alloc_block p.1 p.0)
                  (bounds-add_alloc_block p.1 p.0 b.bounds)
                  (inl (omega (arith, slots-add_alloc_block p.1 p.0))) second ne)
          | inr many ↦
              let r : 90 ≤ total slot h.entries = ground (arith, count) in
              direct r ne (met_at_once range flags sz low 1 h a (inl r) found ne)
        ]
