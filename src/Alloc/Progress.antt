-- ===== src/Alloc/Progress.antt =====
-- When `alloc` grants a request: enough fuel, free slots, and a free entry that takes it.
use lboot.Base.{
  ℕ, zero, suc, ◌+◌, ◌≤◌, ◌<◌, ◌≡◌, ◌≢◌, ◌∙◌, subst, arith, List, [], ◌∷◌, true, false, some, ◌==◌,
  get_elem?, set, inl, inr, Bool-cases, u32, sub_u32, Outcome, returns,
}
use lboot.Alloc.Entries.{Entry, Heap, MemRange, free_entry, used_entry, add_alloc}
use lboot.Alloc.Cover.{total, slot, cover, total-set}
use lboot.Alloc.Slots.{AllInBounds, InBounds-get, fill_slot-room}
use lboot.Alloc.Find.{
  found_none, Choice, fit, carve_front, carve_rest, remaining, carve, take_found, find_free,
  alloc_by, alloc, alignment,
}
use lboot.Alloc.Carve.{Fits, carve_front-Fronted}
use lboot.Alloc.Fit.{fit-Start, alignment_bounds}
use lboot.Alloc.Choose.{Good, walk-Chosen, walk-beats}
use lboot.Alloc.Request.{find_free-at_once}
use lboot.Alloc.Grow.{range_of, range_of-low}
use lboot.Alloc.Valid.{IsValid}

add_alloc-room :
    (h : Heap) (al : Entry) → 0 < total slot h.entries → (k : Heap) × (add_alloc h al ≡ returns k)
unfolding add_alloc
add_alloc-room h al r =
    let (es, q) = fill_slot-room h.entries al r in (record h { entries = es }, rw (q, add_alloc))

carve_front-room :
    (h : Heap) (c : Choice) → 0 < total slot h.entries → (k : Heap) × (carve_front h c ≡ returns k)
unfolding carve_front
carve_front-room h c r = elim (Bool-cases (c.entry.addr == c.start)) [
  | inl e ↦ (h, rw e)
  | inr e ↦ rw e (add_alloc-room h _ r)
]

carve_rest-room :
    (h : Heap) (c : Choice) (size sz : ℕ)
    → get_elem? h.entries c.index ≡ some c.entry
    → c.entry.valid ≡ true
    → 0 < total slot h.entries
    → (k : Heap) × (carve_rest h c size sz ≡ returns (c.start, k))
unfolding carve_rest
carve_rest-room h c size sz g v r = elim (Bool-cases (size == sz)) [
  | inl e ↦ (record h { entries = set h.entries c.index (used_entry c.start size) }, rw e)
  | inr e ↦
      let rest = free_entry (u32 (c.start + sz)) (sub_u32 size sz) in
      let part = record h { entries = set h.entries c.index rest } in
      let (k, q) =
        add_alloc-room part (used_entry c.start sz)
          (ground (arith, v, total-set slot h.entries c.index c.entry rest g)) in
      (k, rw (e, q))
]

-- With two free slots the chosen entry is always split.
carve-room :
    (h : Heap) (c : Choice) (sz : ℕ)
    → AllInBounds h.entries
    → Fits h.entries c sz
    → 2 ≤ total slot h.entries
    → (k : Heap) × (carve h c sz ≡ returns (c.start, k))
unfolding carve
carve-room h c sz a f r =
    let (h', q) = carve_front-room h c (omega arith) in
    let g = carve_front-Fronted h c sz f a q in
    let (k, p) = carve_rest-room h' c (remaining c) sz g.there f.valid (omega (arith, g.slots)) in
    (k, rw (q) p)

total-get :
    (w : Entry → ℕ) (es : List Entry) (i : ℕ) {e : Entry}
    → get_elem? es i ≡ some e
    → w e ≤ total w es
total-get w [] i g = cc
total-get w (f ∷ es) zero g = ground arith
total-get w (f ∷ es) (suc i) g = omega (arith, total-get w es i g)

alloc_by-found :
    (find : Heap → ℕ → ℕ → MemRange → Outcome (ℕ × Heap)) (h : Heap) (sz flags addr : ℕ) (k : Heap)
    → find h sz flags (range_of flags) ≡ returns (addr, k)
    → addr ≢ 0
    → sz ≢ 0
    → alloc_by find h sz flags ≡ returns (addr, k)
unfolding alloc_by
alloc_by-found find h sz flags addr k q na ns = ground (arith, na, ns)

-- On a valid heap with 90 free slots `alloc` grants every request of at least one byte that some
-- free entry takes.
pub alloc_serves :
    (h : Heap) (sz flags j : ℕ) (e : Entry) (start : ℕ)
    → IsValid h
    → 90 ≤ total slot h.entries
    → 0 < sz
    → get_elem? h.entries j ≡ some e
    → e.valid ≡ true
    → e.used ≡ false
    → fit (range_of flags) (alignment flags) sz e ≡ some start
    → (addr : ℕ) × (k : Heap) × (alloc h sz flags ≡ returns (addr, k))
unfolding alloc take_found
alloc_serves h sz flags j e start v r pos g va un f =
    let range = range_of flags in
    let (c, chose, _) =
      walk-beats range (alignment flags) sz 0 h.entries found_none j e start g va un f in
    let good =
      subst (Good range (alignment flags) sz h.entries) chose
        (walk-Chosen range (alignment flags) sz h.entries) in
    let b = InBounds-get h.entries c.index v.bounds good.there good.valid in
    let s =
      fit-Start range (alignment flags) sz c.entry c.start (alignment_bounds flags).0
        (alignment_bounds flags).1 (range_of-low flags) b good.fits in
    let fits : Fits h.entries c sz = record {
      there = good.there;
      valid = good.valid;
      unused = good.unused;
      after = s.in_entry;
      before = s.ends_in_entry;
    } in
    let (k, q) = carve-room h c sz v.bounds fits (omega arith) in
    let taken : find_free 2 h sz flags range ≡ returns (c.start, k) =
      find_free-at_once range flags sz (range_of-low flags) 1 h (inl r)
      ∙ rw (chose, take_found) q in
    let nonzero : c.start ≢ 0 = λ z. ground (
      arith,
      v.no_null,
      total-get (cover 0) h.entries c.index good.there,
      good.valid,
      s.in_entry,
      s.ends_in_entry,
    ) in
    (c.start, k, alloc_by-found (find_free 2) h sz flags c.start k taken nonzero (ground arith))
