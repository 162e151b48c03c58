-- ===== src/SectorMap/Expand.antt =====
-- tools/sector_mapper/inc/sector_map.h: the sectors that a list of entries stands for, and entries put
-- into a table of them.
use lboot.Base.{
  ℕ, zero, suc, ◌+◌, ◌<◌, ◌≡◌, refl, sym, ap, ap₂, ◌∙◌, arith, if_split, if◌then◌else◌, ◌==◌, List,
  [], ◌∷◌, ◌++◌, append_assoc, length, length-append, replicate, get_or, set,
}
use lboot.SectorMap.{SectorMapEntry, no_entry}

-- The sectors of a run.
unfoldable pub range : ℕ → ℕ → List ℕ
range s zero = []
range s (suc n) = s ∷ range (suc s) n

-- The sectors of a list of entries; a sector of 0 is the end.
unfoldable pub expand : List SectorMapEntry → List ℕ
expand [] = []
expand (e ∷ es) = if e.sector == 0 then [] else range e.sector e.count ++ expand es

pub range-snoc : (s n : ℕ) → range s (suc n) ≡ range s n ++ ((s + n) ∷ [])
unfolding range
range-snoc s zero = ap (λ t. t ∷ []) (omega arith)
range-snoc s (suc n) =
    ap (λ t. s ∷ t) (range-snoc (suc s) n ∙ ap (λ t. range (suc s) n ++ (t ∷ [])) (omega arith))

pub one_sector : (x : ℕ) → range x 1 ≡ x ∷ []
unfolding range
one_sector x = refl

pub expand-entry :
    (e : SectorMapEntry) (es : List SectorMapEntry)
    → 0 < e.sector
    → expand (e ∷ es) ≡ range e.sector e.count ++ expand es
unfolding expand
expand-entry e es pos =
    if_split (λ z. z ≡ range e.sector e.count ++ expand es) (e.sector == 0)
      (λ h. absurd (ground arith)) (λ h. refl)

pub expand-none : (k : ℕ) → expand (replicate k no_entry) ≡ []
unfolding expand
expand-none zero = refl
expand-none (suc k) = refl

-- What an expansion of a list that begins with these entries begins with.
abbrev pub Expands : List SectorMapEntry → List ℕ → Type 0
Expands es sectors = (t : List SectorMapEntry) → expand (es ++ t) ≡ sectors ++ expand t

pub Expands-snoc :
    (es : List SectorMapEntry) (sectors : List ℕ) (e : SectorMapEntry)
    → Expands es sectors
    → 0 < e.sector
    → Expands (es ++ (e ∷ [])) (sectors ++ range e.sector e.count)
Expands-snoc es sectors e h pos t =
    ap expand (append_assoc es (e ∷ []) t)
    ∙ h (e ∷ t)
    ∙ ap (λ u. sectors ++ u) (expand-entry e t pos)
    ∙ sym (append_assoc sectors (range e.sector e.count) (expand t))

pub set-append :
    (es : List SectorMapEntry) (x v : SectorMapEntry) (xs : List SectorMapEntry)
    → set (es ++ (x ∷ xs)) (length es) v ≡ es ++ (v ∷ xs)
set-append [] x v xs = refl
set-append (e ∷ es) x v xs = ap (λ t. e ∷ t) (set-append es x v xs)

pub get_or-append :
    (es : List SectorMapEntry) (x d : SectorMapEntry) (xs : List SectorMapEntry)
    → get_or (es ++ (x ∷ xs)) (length es) d ≡ x
get_or-append [] x d xs = refl
get_or-append (e ∷ es) x d xs = get_or-append es x d xs

pub set-next :
    (es : List SectorMapEntry) (e x v : SectorMapEntry) (xs : List SectorMapEntry)
    → set (es ++ (e ∷ x ∷ xs)) (length es + 1) v ≡ (es ++ (e ∷ [])) ++ (v ∷ xs)
set-next es e x v xs =
    ap₂ (λ t i. set t i v) (sym (append_assoc es (e ∷ []) (x ∷ xs)))
      (sym (length-append es (e ∷ [])))
    ∙ set-append (es ++ (e ∷ [])) x v xs
