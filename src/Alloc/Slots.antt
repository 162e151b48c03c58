-- ===== src/Alloc/Slots.antt =====
-- What `_add_alloc` does to the other entries, and the invariant on entries.
use lboot.Base.{
  ℕ, zero, suc, ◌+◌, ◌<◌, ◌^◌, ◌≡◌, arith, List, [], ◌∷◌, ◌++◌, true, some, set, get_elem?,
  replicate, inl, inr, Bool-cases, Option-cases,
}
use lboot.Alloc.Entries.{Entry, zero_entry, fill_slot}
use lboot.Alloc.Cover.{total, slot}

-- A valid entry ends at least 2^15 bytes below the end of the address space, so that neither its
-- end nor an aligned start inside it wraps.
abbrev pub InBounds : Entry → Type 0
InBounds e = e.valid ≡ true → e.addr + e.size + 2 ^ 15 < 2 ^ 32

abbrev pub AllInBounds : List Entry → Type 0
AllInBounds [] = Unit {0}
AllInBounds (e ∷ es) = InBounds e × AllInBounds es

pub InBounds-get :
    (es : List Entry) (i : ℕ) {e : Entry} → AllInBounds es → get_elem? es i ≡ some e → InBounds e
InBounds-get [] i a h = cc
InBounds-get (f ∷ es) zero a h = ground arith
InBounds-get (f ∷ es) (suc i) a h = InBounds-get es i a.1 h

pub AllInBounds-set :
    (es : List Entry) (i : ℕ) (e : Entry) → AllInBounds es → InBounds e → AllInBounds (set es i e)
AllInBounds-set [] i e a b = tt
AllInBounds-set (f ∷ es) zero e a b = (b, a.1)
AllInBounds-set (f ∷ es) (suc i) e a b = (a.0, AllInBounds-set es i e a.1 b)

pub AllInBounds-append :
    (es fs : List Entry) → AllInBounds es → AllInBounds fs → AllInBounds (es ++ fs)
AllInBounds-append [] fs a b = b
AllInBounds-append (e ∷ es) fs a b = (a.0, AllInBounds-append es fs a.1 b)

pub AllInBounds-replicate : (n : ℕ) → AllInBounds (replicate n zero_entry)
AllInBounds-replicate zero = tt
AllInBounds-replicate (suc n) = (λ h. cc, AllInBounds-replicate n)

pub AllInBounds-fill_slot :
    (es : List Entry) (al : Entry) {es' : List Entry}
    → AllInBounds es
    → InBounds al
    → fill_slot es al ≡ some es'
    → AllInBounds es'
unfolding fill_slot
AllInBounds-fill_slot [] al a b h = cc
AllInBounds-fill_slot (e ∷ es) al a b h = elim (Option-cases (fill_slot es al)) [
  | inl q ↦ ground arith
  | inr (fs, q) ↦ ground (arith, AllInBounds-fill_slot es al a.1 b q)
]

-- A valid entry keeps its place.
pub get_elem?-fill_slot :
    (es : List Entry) (al : Entry) (i : ℕ) {e : Entry} {es' : List Entry}
    → fill_slot es al ≡ some es'
    → get_elem? es i ≡ some e
    → e.valid ≡ true
    → get_elem? es' i ≡ some e
unfolding fill_slot
get_elem?-fill_slot [] al i h g v = cc
get_elem?-fill_slot (f ∷ es) al zero h g v = elim (Option-cases (fill_slot es al)) [
  | inl q ↦ ground arith
  | inr (fs, q) ↦ ground arith
]
get_elem?-fill_slot (f ∷ es) al (suc i) h g v = elim (Option-cases (fill_slot es al)) [
  | inl q ↦ ground arith
  | inr (fs, q) ↦ ground (arith, get_elem?-fill_slot es al i q g v)
]

-- A free slot is taken by a valid entry.
pub slots-fill_slot :
    (es : List Entry) (al : Entry) {es' : List Entry}
    → al.valid ≡ true
    → fill_slot es al ≡ some es'
    → total slot es' + 1 ≡ total slot es
unfolding fill_slot
slots-fill_slot [] al v h = cc
slots-fill_slot (e ∷ es) al v h = elim (Option-cases (fill_slot es al)) [
  | inl q ↦ ground arith
  | inr (fs, q) ↦ ground (arith, slots-fill_slot es al v q)
]

-- With a free slot there is room.
pub fill_slot-room :
    (es : List Entry) (al : Entry)
    → 0 < total slot es
    → (es' : List Entry) × (fill_slot es al ≡ some es')
unfolding fill_slot
fill_slot-room [] al h = absurd (omega arith)
fill_slot-room (e ∷ es) al h = elim (Bool-cases e.valid) [
  | inl v ↦ let (fs, q) = fill_slot-room es al (ground arith) in (e ∷ fs, ground arith)
  | inr v ↦ (al ∷ es, ground arith)
]
