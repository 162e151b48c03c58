-- ===== src/Alloc/Cover.antt =====
-- Sums over the entries, and the view of a heap byte by byte: how many valid entries cover an
-- address, and how many of those are used.
use lboot.Base.{
  ℕ, zero, suc, ◌+◌, ◌≡◌, refl, arith, List, [], ◌∷◌, ◌++◌, Bool, false, ◌&&◌, some, ltb, leb,
  if◌then◌else◌, set, get_elem?, replicate, inl, inr, Option-cases,
}
use lboot.Alloc.Entries.{Entry, fill_slot}

abbrev pub total : (Entry → ℕ) → List Entry → ℕ
total w [] = 0
total w (e ∷ es) = w e + total w es

abbrev pub spans : Entry → ℕ → Bool
spans e x = leb e.addr x && ltb x (e.addr + e.size)

-- 1 if the entry is valid and covers `x`, else 0; and the same for a used entry.
abbrev pub cover : ℕ → Entry → ℕ
cover x e = if e.valid && spans e x then 1 else 0

abbrev pub use_cover : ℕ → Entry → ℕ
use_cover x e = if e.valid && e.used && spans e x then 1 else 0

-- The bytes of a valid entry.
abbrev pub bytes : Entry → ℕ
bytes e = if e.valid then e.size else 0

abbrev pub slot : Entry → ℕ
slot e = if e.valid then 0 else 1

-- A weight that only valid entries have.
abbrev pub OfValid : (Entry → ℕ) → Type 0
OfValid w = (e : Entry) → e.valid ≡ false → w e ≡ 0

pub cover-OfValid : (x : ℕ) → OfValid (cover x)
cover-OfValid x e h = ground arith

pub use_cover-OfValid : (x : ℕ) → OfValid (use_cover x)
use_cover-OfValid x e h = ground arith

pub bytes-OfValid : OfValid bytes
bytes-OfValid e h = ground arith

pub total-append :
    (w : Entry → ℕ) (es fs : List Entry) → total w (es ++ fs) ≡ total w es + total w fs
total-append w [] fs = omega arith
total-append w (e ∷ es) fs = omega (arith, total-append w es fs)

pub total-replicate : (w : Entry → ℕ) (n : ℕ) (e : Entry) → w e ≡ 0 → total w (replicate n e) ≡ 0
total-replicate w zero e h = refl
total-replicate w (suc n) e h = omega (arith, total-replicate w n e h)

pub total-set :
    (w : Entry → ℕ) (es : List Entry) (i : ℕ) (e e' : Entry)
    → get_elem? es i ≡ some e
    → total w (set es i e') + w e ≡ total w es + w e'
total-set w [] i e e' h = cc
total-set w (f ∷ es) zero e e' h = ground arith
total-set w (f ∷ es) (suc i) e e' h = omega (arith, total-set w es i e e' h)

pub total-fill_slot :
    (w : Entry → ℕ) (es : List Entry) (al : Entry) {es' : List Entry}
    → OfValid w
    → fill_slot es al ≡ some es'
    → total w es' ≡ total w es + w al
unfolding fill_slot
total-fill_slot w [] al z h = cc
total-fill_slot w (e ∷ es) al z h = elim (Option-cases (fill_slot es al)) [
  | inl q ↦ ground (arith, z e)
  | inr (fs, q) ↦ ground (arith, z e, total-fill_slot w es al z q)
]
