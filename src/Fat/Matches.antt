-- ===== src/Fat/Matches.antt =====
-- `_fat_strcmp` tells the padded name of a directory entry from every other name.
use lboot.Base.{
  ℕ, zero, suc, ◌+◌, ◌-◌, ◌≤◌, ◌<◌, ◌≡◌, ◌≢◌, ◌↔◌, ◌⊎◌, inl, inr, ◌∙◌, ap, ap₂, sym, subst, refl,
  List, [], ◌∷◌, ◌++◌, Bool, true, false, ◌&&◌, ◌==◌, ==_iff, length, replicate, arith,
}
use lboot.Fat.Find.{only_spaces, same_name, fat_strcmp}
use lboot.Fat.Names.{Plain, one_char, padded, after_dot, padded-split, fat_strcmp-padded}

&&-true : (a b : Bool) → (a && b) ≡ true → (a ≡ true) × (b ≡ true)
&&-true true b h = (refl, h)
&&-true false b h = cc

-- Where two names of the same length agree, the comparison goes on behind them.
same_name-front :
    (fidx : ℕ) (name held fs cs : List ℕ)
    → Plain name
    → length held ≡ length name
    → same_name fidx (held ++ fs) (name ++ cs) ≡ true
    → (held ≡ name) × (same_name (fidx + length name) fs cs ≡ true)
unfolding same_name
same_name-front fidx [] [] fs cs p long h = (refl, ap (λ t. same_name t fs cs) (omega arith) ∙ h)
same_name-front fidx [] (f ∷ held) fs cs p long h = absurd (omega arith)
same_name-front fidx (c ∷ name) [] fs cs p long h = absurd (omega arith)
same_name-front fidx (c ∷ name) (f ∷ held) fs cs (one_char _ _ space dot p) long h =
    let other : (c == 46) ≡ false = ground (arith, dot) in
    let both = &&-true (f == c) (same_name (suc fidx) (held ++ fs) (name ++ cs)) (rw other at h) in
    let rest = same_name-front (suc fidx) name held fs cs p (omega arith) both.1 in
    (
      ap₂ (λ x xs. x ∷ xs) ((==_iff f c).0 both.0) rest.0,
      ap (λ t. same_name t fs cs) (omega arith) ∙ rest.1,
    )

-- An extension that compares equal up to the eleventh byte is the one that is held.
same_name-ext :
    (fidx pad : ℕ) (ext held rest : List ℕ)
    → Plain ext
    → Plain held
    → fidx + length held + pad ≡ 11
    → length ext ≤ length held + pad
    → same_name fidx (held ++ (replicate pad 32 ++ rest)) ext ≡ true
    → held ≡ ext
unfolding same_name only_spaces
same_name-ext fidx pad [] [] rest p q ends short h = refl
same_name-ext fidx pad [] (f ∷ held) rest p (one_char _ _ space dot q) ends short h =
    let left : 11 - fidx ≡ suc (10 - fidx) = omega arith in
    let after : List ℕ = held ++ (replicate pad 32 ++ rest) in
    let spaces : only_spaces (suc (10 - fidx)) (f ∷ after) ≡ true =
      ap (λ n. only_spaces n (f ∷ after)) (sym left) ∙ h in
    absurd (space ((==_iff f 32).0 (&&-true (f == 32) (only_spaces (10 - fidx) after) spaces).0))
same_name-ext fidx zero (c ∷ ext) [] rest p q ends short h = absurd (omega arith)
same_name-ext fidx (suc pad) (c ∷ ext) [] rest (one_char _ _ space dot p) q ends short h =
    let other : (c == 46) ≡ false = ground (arith, dot) in
    let both =
      &&-true (32 == c) (same_name (suc fidx) (replicate pad 32 ++ rest) ext) (rw other at h) in
    absurd (space (sym ((==_iff 32 c).0 both.0)))
same_name-ext fidx pad (c ∷ ext) (f ∷ held) rest (one_char _ _ space dot p) (one_char _ _ _ _ q)
      ends short h =
    let other : (c == 46) ≡ false = ground (arith, dot) in
    let after : List ℕ = held ++ (replicate pad 32 ++ rest) in
    let both = &&-true (f == c) (same_name (suc fidx) after ext) (rw other at h) in
    ap₂ (λ x xs. x ∷ xs) ((==_iff f c).0 both.0)
      (same_name-ext (suc fidx) pad ext held rest p q (omega arith) (omega arith) both.1)

only_spaces-blocked :
    (n m x : ℕ) (rest : List ℕ)
    → m < n
    → only_spaces n (replicate m 32 ++ (x ∷ rest)) ≡ true
    → x ≡ 32
unfolding only_spaces
only_spaces-blocked zero m x rest lt h = absurd (omega arith)
only_spaces-blocked (suc n) zero x rest lt h =
    (==_iff x 32).0 (&&-true (x == 32) (only_spaces n rest) h).0
only_spaces-blocked (suc n) (suc m) x rest lt h = only_spaces-blocked n m x rest (omega arith) h

-- What is left of a name, and a space behind it, are no extension.
same_name-gap :
    (fidx k x : ℕ) (left ext rest : List ℕ)
    → Plain left
    → Plain ext
    → x ≢ 32
    → fidx + length left + k ≡ 8
    → 0 < k
    → ¬ (same_name fidx (left ++ (replicate k 32 ++ (x ∷ rest))) ext ≡ true)
unfolding same_name only_spaces
same_name-gap fidx k x [] [] rest q p other ends some_space h =
    other (only_spaces-blocked (11 - fidx) k x rest (omega arith) h)
same_name-gap fidx k x (f ∷ left) [] rest (one_char _ _ space dot q) p other ends some_space h =
    let after : List ℕ = left ++ (replicate k 32 ++ (x ∷ rest)) in
    let longer : 11 - fidx ≡ suc (10 - fidx) = omega arith in
    let spaces : only_spaces (suc (10 - fidx)) (f ∷ after) ≡ true =
      ap (λ n. only_spaces n (f ∷ after)) (sym longer) ∙ h in
    space ((==_iff f 32).0 (&&-true (f == 32) (only_spaces (10 - fidx) after) spaces).0)
same_name-gap fidx zero x [] (c ∷ ext) rest q p other ends some_space h = absurd (omega arith)
same_name-gap fidx (suc k) x [] (c ∷ ext) rest q (one_char _ _ space dot p) other ends some_space
      h =
    let no_dot : (c == 46) ≡ false = ground (arith, dot) in
    let both =
      &&-true (32 == c) (same_name (suc fidx) (replicate k 32 ++ (x ∷ rest)) ext)
        (rw no_dot at h) in
    space (sym ((==_iff 32 c).0 both.0))
same_name-gap fidx k x (f ∷ left) (c ∷ ext) rest (one_char _ _ _ _ q) (one_char _ _ space dot p)
      other ends some_space h =
    let no_dot : (c == 46) ≡ false = ground (arith, dot) in
    let after : List ℕ = left ++ (replicate k 32 ++ (x ∷ rest)) in
    let both = &&-true (f == c) (same_name (suc fidx) after ext) (rw no_dot at h) in
    same_name-gap (suc fidx) k x left ext rest q p other (omega arith) some_space both.1

-- A name of another length than a held one with a space behind it does not compare equal.
same_name-length :
    (fidx k x : ℕ) (held name ext rest : List ℕ)
    → Plain held
    → Plain name
    → Plain ext
    → x ≢ 32
    → fidx + length held + k ≡ 8
    → 0 < k
    → same_name fidx (held ++ (replicate k 32 ++ (x ∷ rest))) (name ++ (46 ∷ ext)) ≡ true
    → length held ≡ length name
unfolding same_name
same_name-length fidx k x [] [] ext rest r q p other ends some_space h = refl
same_name-length fidx k x (f ∷ held) [] ext rest (one_char _ _ space dot r) q p other ends
      some_space h =
    let after : List ℕ = held ++ (replicate k 32 ++ (x ∷ rest)) in
    let here : same_name fidx (f ∷ after) ext ≡ true =
      ap (λ n. same_name n (f ∷ after) ext) (omega arith)
      ∙ sym (after_dot fidx 0 f after ext space)
      ∙ h in
    absurd (
      same_name-gap fidx k x (f ∷ held) ext rest (one_char f held space dot r) p other ends
        some_space here)
same_name-length fidx zero x [] (c ∷ name) ext rest r q p other ends some_space h =
    absurd (omega arith)
same_name-length fidx (suc k) x [] (c ∷ name) ext rest r (one_char _ _ space dot q) p other ends
      some_space h =
    let no_dot : (c == 46) ≡ false = ground (arith, dot) in
    let both =
      &&-true (32 == c) (same_name (suc fidx) (replicate k 32 ++ (x ∷ rest)) (name ++ (46 ∷ ext)))
        (rw no_dot at h) in
    absurd (space (sym ((==_iff 32 c).0 both.0)))
same_name-length fidx k x (f ∷ held) (c ∷ name) ext rest (one_char _ _ _ _ r)
      (one_char _ _ space dot q) p other ends some_space h =
    let no_dot : (c == 46) ≡ false = ground (arith, dot) in
    let after : List ℕ = held ++ (replicate k 32 ++ (x ∷ rest)) in
    let both =
      &&-true (f == c) (same_name (suc fidx) after (name ++ (46 ∷ ext))) (rw no_dot at h) in
    ap suc (
      same_name-length (suc fidx) k x held name ext rest r q p other (omega arith) some_space
        both.1)

fat_strcmp-same :
    (held : List ℕ) (x : ℕ) (xs : List ℕ) (name : List ℕ) (e : ℕ) (es rest : List ℕ)
    → Plain (x ∷ xs)
    → Plain name
    → Plain (e ∷ es)
    → length held ≡ length name
    → length name ≤ 8
    → length (x ∷ xs) ≤ 3
    → length (e ∷ es) ≤ 3
    → fat_strcmp (padded held (x ∷ xs) ++ rest) (name ++ (46 ∷ (e ∷ es))) ≡ true
    → (held ≡ name) × ((x ∷ xs) ≡ (e ∷ es))
unfolding fat_strcmp
fat_strcmp-same held x xs name e es rest (one_char _ _ space dot held_plain) p q long short_name
      short_held short_ext h =
    let pad : ℕ = 8 - length held in
    let end_pad : ℕ = 3 - length (x ∷ xs) in
    let fs = (x ∷ xs) ++ (replicate end_pad 32 ++ rest) in
    let front =
      same_name-front 0 name held (replicate pad 32 ++ fs) (46 ∷ (e ∷ es)) p long (
        ap (λ t. same_name 0 t (name ++ (46 ∷ (e ∷ es)))) (sym (padded-split held x xs rest))
        ∙ h) in
    let passed =
      sym (after_dot (0 + length name) pad x (xs ++ (replicate end_pad 32 ++ rest)) (e ∷ es) space)
      ∙ front.1 in
    (
      front.0,
      same_name-ext (0 + length name + pad) end_pad (e ∷ es) (x ∷ xs) rest q
          (one_char x xs space dot held_plain) (omega arith) (omega arith) passed,
    )

fat_strcmp-length :
    (held : List ℕ) (x : ℕ) (xs : List ℕ) (name : List ℕ) (e : ℕ) (es rest : List ℕ)
    → Plain held
    → Plain (x ∷ xs)
    → Plain name
    → Plain (e ∷ es)
    → (length held ≡ length name) ⊎ (length held < 8)
    → fat_strcmp (padded held (x ∷ xs) ++ rest) (name ++ (46 ∷ (e ∷ es))) ≡ true
    → length held ≡ length name
unfolding fat_strcmp
fat_strcmp-length held x xs name e es rest r (one_char _ _ space dot _) p q (inl same) h = same
fat_strcmp-length held x xs name e es rest r (one_char _ _ space dot _) p q (inr below) h =
    same_name-length 0 (8 - length held) x held name (e ∷ es) _ r p q space (omega arith)
      (omega arith)
      (ap (λ t. same_name 0 t (name ++ (46 ∷ (e ∷ es)))) (sym (padded-split held x xs rest)) ∙ h)

-- A name of up to eight plain characters, a dot and an extension of one to three compares equal to the
-- eleven bytes of an entry that pads a name and such an extension with spaces exactly if these are the
-- name and the extension, whatever follows the bytes, where the entry's name is shorter than eight
-- characters or as long as the name.
pub fat_strcmp_iff :
    (held : List ℕ) (x : ℕ) (xs : List ℕ) (name : List ℕ) (e : ℕ) (es rest : List ℕ)
    → Plain held
    → Plain (x ∷ xs)
    → Plain name
    → Plain (e ∷ es)
    → (length held ≡ length name) ⊎ (length held < 8)
    → length name ≤ 8
    → length (x ∷ xs) ≤ 3
    → length (e ∷ es) ≤ 3
    → (fat_strcmp (padded held (x ∷ xs) ++ rest) (name ++ (46 ∷ (e ∷ es))) ≡ true)
      ↔ ((held ≡ name) × ((x ∷ xs) ≡ (e ∷ es)))
fat_strcmp_iff held x xs name e es rest r ext_plain p q long short_name short_held short_ext = (
  λ h.
      fat_strcmp-same held x xs name e es rest ext_plain p q
        (fat_strcmp-length held x xs name e es rest r ext_plain p q long h) short_name short_held
        short_ext h,
  λ h.
      subst (λ b. fat_strcmp (b ++ rest) (name ++ (46 ∷ (e ∷ es))) ≡ true)
        (ap₂ padded (sym h.0) (sym h.1))
        (fat_strcmp-padded name e es rest p q short_name short_ext),
)
