-- ===== src/Fat/Names.antt =====
-- `_fat_strcmp` compares a name with its dot to the padded name of a directory entry.
use lboot.Base.{
  ℕ, zero, suc, ◌+◌, ◌-◌, ◌≤◌, ◌≡◌, ◌≢◌, ◌∙◌, ap, sym, append_assoc, append-nil, refl, List, [],
  ◌∷◌, ◌++◌, true, false, ◌==◌, length, replicate, arith,
}
use lboot.Fat.Find.{skip_spaces, only_spaces, same_name, fat_strcmp}

-- Characters of a name: neither a space nor a dot.
pub data Plain : List ℕ → Type 0 where
  no_chars : Plain []
  one_char : (c : ℕ) (cs : List ℕ) → c ≢ 32 → c ≢ 46 → Plain cs → Plain (c ∷ cs)

-- The eleven bytes of a directory entry for a name and an extension.
abbrev pub padded : List ℕ → List ℕ → List ℕ
padded name ext = (name ++ replicate (8 - length name) 32) ++ (ext ++ replicate (3 - length ext) 32)

only_spaces-replicate :
    (n m : ℕ) (fs : List ℕ) → n ≤ m → only_spaces n (replicate m 32 ++ fs) ≡ true
unfolding only_spaces
only_spaces-replicate zero m fs h = refl
only_spaces-replicate (suc n) zero fs h = absurd (omega arith)
only_spaces-replicate (suc n) (suc m) fs h = only_spaces-replicate n m fs (omega arith)

-- The characters that agree are passed over.
same_name-append :
    (fidx : ℕ) (name fs cs : List ℕ)
    → Plain name
    → same_name fidx (name ++ fs) (name ++ cs) ≡ same_name (fidx + length name) fs cs
unfolding same_name
same_name-append fidx [] fs cs p = ap (λ t. same_name t fs cs) (omega arith)
same_name-append fidx (c ∷ name) fs cs (one_char _ _ space dot p) =
    let other : (c == 46) ≡ false = ground (arith, dot) in
    let same : (c == c) ≡ true = ground arith in
    rw (other, same)
      (same_name-append (suc fidx) name fs cs p ∙ ap (λ t. same_name t fs cs) (omega arith))

skip_spaces-replicate :
    (m fidx c : ℕ) (fs : List ℕ)
    → c ≢ 32
    → skip_spaces fidx (replicate m 32 ++ (c ∷ fs)) ≡ (fidx + m, c ∷ fs)
unfolding skip_spaces
skip_spaces-replicate zero fidx c fs h =
    let other : (c == 32) ≡ false = ground (arith, h) in
    rw other (ap (λ t. (t, c ∷ fs)) (omega arith))
skip_spaces-replicate (suc m) fidx c fs h =
    skip_spaces-replicate m (suc fidx) c fs h ∙ ap (λ t. (t, c ∷ fs)) (omega arith)

-- A dot passes over the padding.
pub after_dot :
    (fidx m c : ℕ) (fs cs : List ℕ)
    → c ≢ 32
    → same_name fidx (replicate m 32 ++ (c ∷ fs)) (46 ∷ cs) ≡ same_name (fidx + m) (c ∷ fs) cs
unfolding same_name
after_dot fidx m c fs cs h = rw (skip_spaces-replicate m fidx c fs h)

at_end :
    (fidx m : ℕ) (fs : List ℕ) → 11 ≤ fidx + m → same_name fidx (replicate m 32 ++ fs) [] ≡ true
unfolding same_name
at_end fidx m fs h = only_spaces-replicate (11 - fidx) m fs (omega arith)

pub padded-split :
    (name : List ℕ) (e : ℕ) (es rest : List ℕ)
    → padded name (e ∷ es) ++ rest
      ≡ name
        ++ (replicate (8 - length name) 32
            ++ ((e ∷ es) ++ (replicate (3 - length (e ∷ es)) 32 ++ rest)))
padded-split name e es rest =
    let ext = e ∷ es in
    let pad : List ℕ = replicate (8 - length name) 32 in
    let end_pad : List ℕ = replicate (3 - length ext) 32 in
    append_assoc (name ++ pad) (ext ++ end_pad) rest
    ∙ append_assoc name pad ((ext ++ end_pad) ++ rest)
    ∙ ap (λ t. name ++ (pad ++ t)) (append_assoc ext end_pad rest)

-- The name that an entry pads is found in it.
pub fat_strcmp-padded :
    (name : List ℕ) (e : ℕ) (es rest : List ℕ)
    → Plain name
    → Plain (e ∷ es)
    → length name ≤ 8
    → length (e ∷ es) ≤ 3
    → fat_strcmp (padded name (e ∷ es) ++ rest) (name ++ (46 ∷ (e ∷ es))) ≡ true
unfolding fat_strcmp
fat_strcmp-padded name e es rest p (one_char _ _ space dot q) short_name short_ext =
    let ext = e ∷ es in
    let end_pad : List ℕ = replicate (3 - length ext) 32 in
    let pad : List ℕ = replicate (8 - length name) 32 in
    let plain_ext : Plain ext = one_char e es space dot q in
    let fs = ext ++ (end_pad ++ rest) in
    ap (λ t. same_name 0 t (name ++ (46 ∷ ext))) (padded-split name e es rest)
    ∙ same_name-append 0 name (pad ++ fs) (46 ∷ ext) p
    ∙ after_dot (0 + length name) (8 - length name) e (es ++ (end_pad ++ rest)) ext space
    ∙ ap (same_name (0 + length name + (8 - length name)) fs) (sym (append-nil ext))
    ∙ same_name-append (0 + length name + (8 - length name)) ext (end_pad ++ rest) [] plain_ext
    ∙ at_end (0 + length name + (8 - length name) + length ext) (3 - length ext) rest (omega arith)
