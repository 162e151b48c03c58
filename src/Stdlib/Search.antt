-- ===== src/Stdlib/Search.antt =====
-- src/stdlib/string.c: `strstr` and `strchr` against the places where a string stands in another.
use lboot.Base.{
  ℕ, zero, suc, ◌+◌, ◌-◌, ◌≤◌, ◌<◌, ◌≡◌, inl, inr, refl, sym, ap, ap₂, ◌∙◌, arith, true, Bool-cases,
  if_split, ltb, ◌==◌, List, [], ◌∷◌, length, take, drop, length-take, length-drop, Option, some,
  none,
}
use lboot.Stdlib.{strlen, rest_of, matches, strstr_loop, strstr}

pub strlen-eq-length : (s : List ℕ) → strlen s ≡ length s
unfolding strlen
strlen-eq-length [] = refl
strlen-eq-length (c ∷ cs) = ap suc (strlen-eq-length cs)

-- The needle stands at the index `i` of the haystack.
abbrev pub StandsAt : List ℕ → List ℕ → ℕ → Type 0
StandsAt hay needle i = take (length needle) (drop i hay) ≡ needle

matches-true : (needle hay : List ℕ) → matches needle hay ≡ true → StandsAt hay needle 0
unfolding matches
matches-true [] hay h = refl
matches-true (n ∷ ns) [] h = cc
matches-true (n ∷ ns) (x ∷ xs) h =
    if_split (λ b. b ≡ true → x ∷ take (length ns) xs ≡ n ∷ ns) (x == n)
      (λ e h'. ap₂ (λ y ys. y ∷ ys) (ground arith) (matches-true ns xs h')) (λ e h'. cc) h

matches-same : (needle hay : List ℕ) → StandsAt hay needle 0 → matches needle hay ≡ true
unfolding matches rest_of
matches-same [] hay h = refl
matches-same (n ∷ ns) [] h = cc
matches-same (n ∷ ns) (x ∷ xs) h =
    let head : x ≡ n = cc in
    let tail : take (length ns) xs ≡ ns = ap rest_of h in
    if_split (λ b. b ≡ true) (x == n) (λ e. matches-same ns xs tail) (λ e. absurd (ground arith))

drop-rest_of : (hay : List ℕ) (j : ℕ) → drop j (rest_of hay) ≡ drop (suc j) hay
unfolding rest_of
drop-rest_of [] zero = refl
drop-rest_of [] (suc j) = refl
drop-rest_of (x ∷ xs) j = refl

-- What a search over the first places of a haystack, the first of them numbered `i`, returns.
unfoldable pub FirstPlace : List ℕ → List ℕ → ℕ → ℕ → Option ℕ → Type 0
FirstPlace hay needle i places none = (k : ℕ) → k < places → ¬ StandsAt hay needle k
FirstPlace hay needle i places (some r) =
    (j : ℕ) × (r ≡ i + j)
    × (j < places)
    × StandsAt hay needle j
    × ((k : ℕ) → k < j → ¬ StandsAt hay needle k)

-- A search that goes on behind a place where the needle does not stand.
FirstPlace-rest_of :
    (hay needle : List ℕ) (i places : ℕ) (r : Option ℕ)
    → ¬ StandsAt hay needle 0
    → FirstPlace (rest_of hay) needle (suc i) places r
    → FirstPlace hay needle i (suc places) r
unfolding FirstPlace
FirstPlace-rest_of hay needle i places none not_here found = λ (k : ℕ) lt h.
    elim k as (λ k. k < suc places → StandsAt hay needle k → ⊥) [
      | zero ↦ λ lt h. not_here h
      | suc k ↦ λ lt h. found k (omega arith) (ap (take (length needle)) (drop-rest_of hay k) ∙ h)
    ]
      lt h
FirstPlace-rest_of hay needle i places (some r) not_here (j, at, below, here, before) = (
  suc j,
  at ∙ omega arith,
  omega arith,
  sym (ap (take (length needle)) (drop-rest_of hay j)) ∙ here,
  λ (k : ℕ) lt h.
      elim k as (λ k. k < suc j → StandsAt hay needle k → ⊥) [
        | zero ↦ λ lt h. not_here h
        | suc k ↦
            λ lt h. before k (omega arith) (ap (take (length needle)) (drop-rest_of hay k) ∙ h)
      ]
        lt h,
)

strstr_loop-FirstPlace :
    (rounds i : ℕ) (hay needle : List ℕ)
    → FirstPlace hay needle i rounds (strstr_loop rounds i hay needle)
unfolding strstr_loop FirstPlace
strstr_loop-FirstPlace zero i hay needle = λ k lt h. absurd (omega arith)
strstr_loop-FirstPlace (suc rounds) i hay needle =
    if_split (FirstPlace hay needle i (suc rounds)) (matches needle hay)
      (λ e.
        (0, omega arith, omega arith, matches-true needle hay e, λ k lt h. absurd (omega arith)))
      (λ e.
        FirstPlace-rest_of hay needle i rounds (strstr_loop rounds (suc i) (rest_of hay) needle)
          (λ h. cc (matches-same needle hay h))
          (strstr_loop-FirstPlace rounds (suc i) (rest_of hay) needle))

too_short :
    (hay needle : List ℕ) (k : ℕ)
    → k ≤ length hay
    → length hay < k + length needle
    → ¬ StandsAt hay needle k
too_short hay needle k le lt h =
    let whole : length (take (length needle) (drop k hay)) ≡ length needle = ap length h in
    let cut = length-take (length needle) (drop k hay) in
    let left = length-drop k hay in omega arith

FirstPlace-widen :
    (hay needle : List ℕ) (places : ℕ) (r : Option ℕ)
    → places ≤ suc (length hay)
    → length hay < places + length needle
    → FirstPlace hay needle 0 places r
    → FirstPlace hay needle 0 (suc (length hay)) r
unfolding FirstPlace
FirstPlace-widen hay needle places none le lt found = λ k below h.
    elim (Bool-cases (ltb k places)) [
      | inl e ↦ found k (ground arith) h
      | inr e ↦ too_short hay needle k (omega arith) (ground arith) h
    ]
FirstPlace-widen hay needle places (some r) le lt (j, at, below, here, before) =
    (j, at, omega arith, here, before)

-- `strstr` returns the first index at which the needle stands in the haystack, and NULL exactly
-- where it stands at none.
pub strstr-FirstPlace :
    (hay needle : List ℕ) → FirstPlace hay needle 0 (suc (length hay)) (strstr hay needle)
unfolding strstr FirstPlace
strstr-FirstPlace hay needle =
    let long = strlen-eq-length hay in
    let short = strlen-eq-length needle in
    if_split (FirstPlace hay needle 0 (suc (length hay))) (ltb (strlen hay) (strlen needle))
      (λ e.
        FirstPlace-widen hay needle 0 none (omega arith) (ground arith)
          (λ k lt h. absurd (omega arith)))
      (λ e.
        FirstPlace-widen hay needle (suc (strlen hay - strlen needle)) _ (omega arith)
          (ground arith) (strstr_loop-FirstPlace (suc (strlen hay - strlen needle)) 0 hay needle))
