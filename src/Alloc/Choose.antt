-- ===== src/Alloc/Choose.antt =====
-- The walk of `_find_free`: which entry is chosen.
use native.Mathlib.Nat.{le_trans}
use lboot.Base.{
  subst, ℕ, zero, suc, ◌+◌, ◌≤◌, ◌≡◌, refl, ap, ◌∙◌, arith, List, [], ◌∷◌, ◌&&◌, not, true, false,
  Option, none, some, ltb, get_elem?, inl, inr, Bool-cases, Option-cases,
}
use lboot.Alloc.Entries.{Entry, MemRange}
use lboot.Alloc.Cover.{total, slot}
use lboot.Alloc.Find.{fit, Choice, Found, better, visit, walk, found_none}

module _ (mrange : MemRange) (align sz : ℕ) where
  -- The entry stands at the index, is free, and takes the request at the start.
  pub record Chosen (es : List Entry) (c : Choice) : Type 0 where
    pub there : get_elem? es c.index ≡ some c.entry
    pub valid : c.entry.valid ≡ true
    pub unused : c.entry.used ≡ false
    pub fits : fit mrange align sz c.entry ≡ some c.start

  abbrev pub Good : List Entry → Option Choice → Type 0
  Good es none = Unit {0}
  Good es (some c) = Chosen es c

  -- Some entry of at most `n` bytes is chosen.
  abbrev pub Within : ℕ → Option Choice → Type 0
  Within n o = (c : Choice) × (o ≡ some c) × (c.entry.size ≤ n)

  -- `es` is what stands in `all` from index `i` on.
  abbrev Suffix : List Entry → ℕ → List Entry → Type 0
  Suffix all i es = (j : ℕ) → get_elem? all (i + j) ≡ get_elem? es j

  better-Good :
      (all : List Entry) (o : Option Choice) (c : Choice)
      → Good all o
      → Chosen all c
      → Chosen all (better o c)
  unfolding better
  better-Good all none c g h = h
  better-Good all (some d) c g h = elim (Bool-cases (ltb c.entry.size d.entry.size)) [
    | inl e ↦ rw e h
    | inr e ↦ rw e g
  ]

  better-le :
      (o : Option Choice) (c d : Choice)
      → (better o c).entry.size ≤ c.entry.size
        × (o ≡ some d → (better o c).entry.size ≤ d.entry.size)
  unfolding better
  better-le none c d = ground arith
  better-le (some b) c d = ground arith

  visit-Good :
      (all : List Entry) (i : ℕ) (e : Entry) (s : Found)
      → get_elem? all i ≡ some e
      → Good all s.choice
      → Good all (visit mrange align sz i e s).choice
  unfolding visit
  visit-Good all i e s g h = elim (Bool-cases (e.valid && not e.used)) [
    | inl free ↦ elim (Option-cases (fit mrange align sz e)) [
      | inl f ↦ rw (free, f) h
      | inr (start, f) ↦
          rw (free, f)
            (better-Good all s.choice _ h
              (record { there = g; valid = ground arith; unused = ground arith; fits = f }))
    ]
    | inr other ↦ elim (Bool-cases e.valid) [ inl v ↦ rw (other, v) h | inr v ↦ rw (other, v) h ]
  ]

  visit-free_ents :
      (i : ℕ) (e : Entry) (s : Found)
      → (visit mrange align sz i e s).free_ents ≡ s.free_ents + slot e
  unfolding visit
  visit-free_ents i e s = ground arith

  visit-keeps :
      (n i : ℕ) (e : Entry) (s : Found)
      → Within n s.choice
      → Within n (visit mrange align sz i e s).choice
  unfolding visit
  visit-keeps n i e s (c, o, l) = elim (Bool-cases (e.valid && not e.used)) [
    | inl free ↦ elim (Option-cases (fit mrange align sz e)) [
      | inl f ↦ (c, ground arith, l)
      | inr (start, f) ↦
          let new : Choice = record { index = i; entry = e; start = start } in
          (better s.choice new, rw (free, f) refl, le_trans ((better-le s.choice new c).1 o) l)
    ]
    | inr other ↦ (c, ground arith, l)
  ]

  visit-beats :
      (i : ℕ) (e : Entry) (s : Found) (start : ℕ)
      → e.valid ≡ true
      → e.used ≡ false
      → fit mrange align sz e ≡ some start
      → Within e.size (visit mrange align sz i e s).choice
  unfolding visit
  visit-beats i e s start v u f =
      let new : Choice = record { index = i; entry = e; start = start } in
      (better s.choice new, ground arith, (better-le s.choice new new).0)

  pub walk-free_ents :
      (i : ℕ) (es : List Entry) (s : Found)
      → (walk mrange align sz i es s).free_ents ≡ s.free_ents + total slot es
  unfolding walk
  walk-free_ents i [] s = omega arith
  walk-free_ents i (e ∷ es) s =
      omega (arith, walk-free_ents (i + 1) es (visit mrange align sz i e s), visit-free_ents i e s)

  suffix_tail :
      (all : List Entry) (i : ℕ) (e : Entry) (es : List Entry)
      → Suffix all i (e ∷ es)
      → Suffix all (i + 1) es
  suffix_tail all i e es h j =
      ap (get_elem? all) {x = i + 1 + j} {y = i + suc j} (omega arith) ∙ h (suc j)

  walk-Good :
      (all : List Entry) (i : ℕ) (es : List Entry) (s : Found)
      → Suffix all i es
      → Good all s.choice
      → Good all (walk mrange align sz i es s).choice
  unfolding walk
  walk-Good all i [] s h g = g
  walk-Good all i (e ∷ es) s h g =
      walk-Good all (i + 1) es _ (suffix_tail all i e es h)
        (visit-Good all i e s (ap (get_elem? all) {x = i} {y = i + 0} (omega arith) ∙ h 0) g)

  walk-keeps :
      (n i : ℕ) (es : List Entry) (s : Found)
      → Within n s.choice
      → Within n (walk mrange align sz i es s).choice
  unfolding walk
  walk-keeps n i [] s w = w
  walk-keeps n i (e ∷ es) s w =
      walk-keeps n (i + 1) es (visit mrange align sz i e s) (visit-keeps n i e s w)

  pub walk-beats :
      (i : ℕ) (es : List Entry) (s : Found) (j : ℕ) (e : Entry) (start : ℕ)
      → get_elem? es j ≡ some e
      → e.valid ≡ true
      → e.used ≡ false
      → fit mrange align sz e ≡ some start
      → Within e.size (walk mrange align sz i es s).choice
  unfolding walk
  walk-beats i [] s j e start g v u f = cc
  walk-beats i (d ∷ es) s zero e start g v u f =
      let same : d ≡ e = ground arith in
      walk-keeps e.size (i + 1) es (visit mrange align sz i d s)
        (rw same (visit-beats i e s start v u f))
  walk-beats i (d ∷ es) s (suc j) e start g v u f =
      walk-beats (i + 1) es (visit mrange align sz i d s) j e start g v u f

  -- The entry that the walk chooses is free and takes the request; no free entry that would take
  -- it is smaller, and none is chosen only if no free entry takes it.
  pub walk-Chosen : (es : List Entry) → Good es (walk mrange align sz 0 es found_none).choice
  walk-Chosen es = walk-Good es 0 es found_none (λ j. ap (get_elem? es) (omega arith)) tt

  -- Where some free entry takes the request, an entry is chosen; it is free, takes the request, and
  -- no free entry that takes it is smaller.
  pub walk_best :
      (es : List Entry) (j : ℕ) (e : Entry) (start : ℕ)
      → get_elem? es j ≡ some e
      → e.valid ≡ true
      → e.used ≡ false
      → fit mrange align sz e ≡ some start
      → (c : Choice) × ((walk mrange align sz 0 es found_none).choice ≡ some c)
        × Chosen es c
        × (c.entry.size ≤ e.size)
  walk_best es j e start g v u f =
      let (c, chose, small) = walk-beats 0 es found_none j e start g v u f in
      (c, chose, subst (Good es) chose (walk-Chosen es), small)
