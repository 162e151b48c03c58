-- ===== src/Base/Slices.antt =====
-- `take` and `drop` across an append.
use Prim.Native.Nat.{ℕ, zero, suc, ◌+◌, ◌-◌, ◌≤◌}
use mathlib.Core.Path.{◌≡◌, refl, ap, sym, ◌∙◌}
use mathlib.Core.List.{List, [], ◌∷◌, ◌++◌}
use native.Mathlib.Omega.{arith}
use lboot.Base.Lists.{length, take, drop}

module _ {ℓ} {A : Type ℓ} where
  pub take_exact : (xs ys : List A) (n : ℕ) → n ≡ length xs → take n (xs ++ ys) ≡ xs
  take_exact [] ys zero h = refl
  take_exact [] ys (suc n) h = absurd (omega arith)
  take_exact (x ∷ xs) ys zero h = absurd (omega arith)
  take_exact (x ∷ xs) ys (suc n) h = ap (λ t. x ∷ t) (take_exact xs ys n (omega arith))

  pub take_within : (xs ys : List A) (n : ℕ) → n ≤ length xs → take n (xs ++ ys) ≡ take n xs
  take_within xs ys zero h = refl
  take_within [] ys (suc n) h = absurd (omega arith)
  take_within (x ∷ xs) ys (suc n) h = ap (λ t. x ∷ t) (take_within xs ys n (omega arith))

  pub take_past :
      (xs ys : List A) (n : ℕ) → length xs ≤ n → take n (xs ++ ys) ≡ xs ++ take (n - length xs) ys
  take_past [] ys n h = ap (λ t. take t ys) (omega arith)
  take_past (x ∷ xs) ys zero h = absurd (omega arith)
  take_past (x ∷ xs) ys (suc n) h =
      ap (λ t. x ∷ t)
        (rw (take_past xs ys n (omega arith)) (ap (λ t. xs ++ take t ys) (omega arith)))

  pub drop_past :
      (xs ys : List A) (n : ℕ) → length xs ≤ n → drop n (xs ++ ys) ≡ drop (n - length xs) ys
  drop_past [] ys n h = ap (λ t. drop t ys) (omega arith)
  drop_past (x ∷ xs) ys zero h = absurd (omega arith)
  drop_past (x ∷ xs) ys (suc n) h =
      rw (drop_past xs ys n (omega arith)) (ap (λ t. drop t ys) (omega arith))

  pub drop_within : (xs ys : List A) (n : ℕ) → n ≤ length xs → drop n (xs ++ ys) ≡ drop n xs ++ ys
  drop_within xs ys zero h = refl
  drop_within [] ys (suc n) h = absurd (omega arith)
  drop_within (x ∷ xs) ys (suc n) h = drop_within xs ys n (omega arith)

  drop_nil : (n : ℕ) → drop {A = A} n [] ≡ []
  drop_nil zero = refl
  drop_nil (suc n) = refl

  pub drop-drop : (a b : ℕ) (xs : List A) → drop a (drop b xs) ≡ drop (b + a) xs
  drop-drop a zero xs = ap (λ t. drop t xs) (omega arith)
  drop-drop a (suc b) [] = drop_nil a ∙ sym (drop_nil (suc b + a))
  drop-drop a (suc b) (x ∷ xs) = drop-drop a b xs ∙ ap (λ t. drop t (x ∷ xs)) more
    where
      more : suc (b + a) ≡ suc b + a
      more = omega arith
