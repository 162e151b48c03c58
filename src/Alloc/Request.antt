-- ===== src/Alloc/Request.antt =====
-- What `alloc` grants.
use lboot.Base.{
  ℕ, suc, ◌+◌, ◌%◌, ◌≤◌, ◌<◌, ◌^◌, ◌≡◌, ◌≢◌, ◌⊎◌, subst, arith, ◌&&◌, leb, true, Option, some, ltb,
  if◌then◌else◌, inl, inr, Option-cases, returns,
}
use lboot.Alloc.Entries.{Heap, MemRange, has_flag, nonewblock_bit}
use lboot.Alloc.Cover.{
  total, slot, cover, use_cover, bytes, cover-OfValid, use_cover-OfValid, bytes-OfValid,
}
use lboot.Alloc.Slots.{AllInBounds, InBounds-get}
use lboot.Alloc.Find.{Choice, walk, found_none, alignment, take_found, find_free}
use lboot.Alloc.Carve.{Fits, carve-Carved}
use lboot.Alloc.Fit.{fit-Start, alignment_bounds}
use lboot.Alloc.Choose.{Chosen, walk-Chosen, walk-free_ents, Good}

-- 1 if `x` lies in `[addr, addr + sz)`, else 0.
abbrev pub inside : ℕ → ℕ → ℕ → ℕ
inside addr sz x = if leb addr x && ltb x (addr + sz) then 1 else 0

-- A request met from one free entry: every address is covered by as many valid entries as before,
-- and just those of the request by one more used entry.
pub record Granted (mrange : MemRange) (flags sz : ℕ) (h : Heap) (addr : ℕ) (k : Heap)
    : Type 0 where
  pub bounds : AllInBounds k.entries
  pub in_range : mrange.start ≤ addr
  pub ends_in_range : addr + sz ≤ mrange.end
  pub aligned : addr % alignment flags ≡ 0
  pub covers : (x : ℕ) → total (cover x) k.entries ≡ total (cover x) h.entries
  pub uses :
      (x : ℕ) → total (use_cover x) k.entries ≡ total (use_cover x) h.entries + inside addr sz x
  pub same_bytes : total bytes k.entries ≡ total bytes h.entries
  pub slots : total slot h.entries ≤ total slot k.entries + 2
  pub chain : k.blocks ≡ h.blocks

module _ (mrange : MemRange) (flags sz : ℕ) (lowr : mrange.start + 2 ^ 15 < 2 ^ 32) where
  abbrev pub chosen : Heap → Option Choice
  chosen h = (walk mrange (alignment flags) sz 0 h.entries found_none).choice

  granted :
      (h : Heap) (c : Choice) {addr : ℕ} {k : Heap}
      → AllInBounds h.entries
      → Chosen mrange (alignment flags) sz h.entries c
      → take_found h (some c) sz ≡ returns (addr, k)
      → Granted mrange flags sz h addr k
  unfolding take_found
  granted h c {addr} {k} a g q =
      let inb = InBounds-get h.entries c.index a g.there g.valid in
      let s =
        fit-Start mrange (alignment flags) sz c.entry c.start (alignment_bounds flags).0
          (alignment_bounds flags).1 lowr inb g.fits in
      let fits : Fits h.entries c sz = record {
        there = g.there;
        valid = g.valid;
        unused = g.unused;
        after = s.in_entry;
        before = s.ends_in_entry;
      } in
      let (at, d) = carve-Carved h c sz fits a q in
      record {
        bounds = d.bounds;
        in_range = rw at s.in_range;
        ends_in_range = rw at s.ends_in_range;
        aligned = rw at s.aligned;
        covers = λ x. ground (
          arith,
          d.sums (cover x) (cover-OfValid x) (λ e z. ground arith),
          s.in_entry,
          s.ends_in_entry,
          g.valid,
        );
        uses = λ x.
            ground (
              arith,
              d.sums (use_cover x) (use_cover-OfValid x) (λ e z. ground arith),
              at,
              g.unused,
            );
        same_bytes = ground (
          arith,
          d.sums bytes bytes-OfValid (λ e z. ground arith),
          s.in_entry,
          s.ends_in_entry,
          g.valid,
        );
        slots = d.slots;
        chain = d.chain;
      }

  -- With slots to spare, or told not to grow, `_find_free` takes its choice at once.
  pub find_free-at_once :
      (fuel : ℕ) (h : Heap)
      → (90 ≤ total slot h.entries) ⊎ (has_flag flags nonewblock_bit ≡ true)
      → find_free (suc fuel) h sz flags mrange ≡ take_found h (chosen h) sz
  unfolding find_free
  find_free-at_once fuel h p =
      ground (arith, walk-free_ents mrange (alignment flags) sz 0 h.entries found_none)

  pub met_at_once :
      (fuel : ℕ) (h : Heap) {addr : ℕ} {k : Heap}
      → AllInBounds h.entries
      → (90 ≤ total slot h.entries) ⊎ (has_flag flags nonewblock_bit ≡ true)
      → find_free (suc fuel) h sz flags mrange ≡ returns (addr, k)
      → addr ≢ 0
      → Granted mrange flags sz h addr k
  met_at_once fuel h {addr} {k} a p q ne =
      let r : take_found h (chosen h) sz ≡ returns (addr, k) =
        rw (find_free-at_once fuel h p) at q in
      elim (Option-cases (chosen h)) [
        | inl none_fits ↦ absurd (ne (unfold take_found in ground arith))
        | inr (c, e) ↦
            granted h c a
              (subst (Good mrange (alignment flags) sz h.entries) e
                (walk-Chosen mrange (alignment flags) sz h.entries))
              (rw e at r)
      ]
