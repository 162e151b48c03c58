-- ===== src/Output/Digits.antt =====
-- src/io/output.c: the digits that `_print_int` fills `ans` with, read back and counted.
use lboot.Base.{
  ℕ, zero, suc, ◌+◌, ◌*◌, ◌/◌, ◌%◌, ◌^◌, ◌≤◌, ◌<◌, ◌≡◌, refl, sym, ap, ◌∙◌, arith, inl, inr, subst,
  Bool-cases, if◌then◌else◌, ◌==◌, List, [], ◌∷◌, get_or, length, reverse_aux,
}
use native.Mathlib.Nat.{div-add-mod', mul-le-mul_left, mod-lt}
use lboot.Output.{ans_loop}
use lboot.Output.Division.{udiv64-divides}

-- A round of the loop, for a base that is not 0 and fits in 32 bits.
pub ans_loop-suc :
    (fuel : ℕ) (nums : List ℕ) (base num : ℕ)
    → 0 < base
    → base < 2 ^ 32
    → num < 2 ^ 64
    → ans_loop (suc fuel) nums base num
      ≡ (if num == 0 then [] else get_or nums (num % base) 0 ∷ ans_loop fuel nums base (num / base))
unfolding ans_loop
ans_loop-suc fuel nums base num pos small word =
    ap (λ r. if num == 0 then [] else get_or nums r.1 0 ∷ ans_loop fuel nums base r.0)
      (udiv64-divides num base pos (omega arith) word (inl small))

ans_loop-zero : (nums : List ℕ) (base num : ℕ) → ans_loop zero nums base num ≡ []
unfolding ans_loop
ans_loop-zero nums base num = refl

smaller : (base factor num : ℕ) → factor ≤ base → num / base * factor ≤ num
smaller base factor num le =
    let split = div-add-mod' num base in
    let below : num / base * factor ≤ num / base * base = mul-le-mul_left (num / base) le in
    omega arith

module _ {ℓ} {A : Type ℓ} (base : ℕ) (nums : List ℕ) (bound : ℕ) (read : ℕ → List ℕ → A)
    (two : 2 ≤ base) (small : base < 2 ^ 32)
    (eats : (n d : ℕ) (tail : List ℕ)
      → d < base
      → n * base + d ≤ bound
      → read n (get_or nums d 0 ∷ tail) ≡ read (n * base + d) tail) where
  -- A reader that takes a digit of the base at a time takes the digits of a number, highest first,
  -- to the number.
  pub read-reverse_aux-ans_loop :
      (fuel num : ℕ) (tail : List ℕ)
      → num < 2 ^ fuel
      → num < 2 ^ 64
      → num ≤ bound
      → read 0 (reverse_aux (ans_loop fuel nums base num) tail) ≡ read num tail
  read-reverse_aux-ans_loop zero num tail enough word le =
      ap (λ l. read 0 (reverse_aux l tail)) (ans_loop-zero nums base num)
      ∙ ap (λ t. read t tail) (omega arith)
  read-reverse_aux-ans_loop (suc fuel) num tail enough word le =
      let split : num / base * base + num % base ≡ num = div-add-mod' num base in
      let half = smaller base 2 num two in
      ap (λ l. read 0 (reverse_aux l tail))
        (ans_loop-suc fuel nums base num (omega arith) small word)
      ∙ elim (Bool-cases (num == 0)) [
        | inl e ↦ rw e (ap (λ t. read t tail) (ground arith))
        | inr e ↦ rw e (
            read-reverse_aux-ans_loop fuel (num / base) (get_or nums (num % base) 0 ∷ tail)
              (omega arith) (omega arith) (omega arith)
            ∙ eats (num / base) (num % base) tail (mod-lt num (omega arith)) (omega arith)
            ∙ ap (λ t. read t tail) split)
      ]

module _ (base : ℕ) (nums : List ℕ) (eight : 8 ≤ base) (small : base < 2 ^ 32) where
  -- A number below `8 ^ k` has at most `k` digits in a base of eight or more.
  pub length-ans_loop :
      (fuel k num : ℕ) → num < 8 ^ k → num < 2 ^ 64 → length (ans_loop fuel nums base num) ≤ k
  length-ans_loop zero k num lt word =
      subst (λ l. length l ≤ k) (sym (ans_loop-zero nums base num)) (omega arith)
  length-ans_loop (suc fuel) zero num lt word =
      subst (λ l. length l ≤ 0) (sym (ans_loop-suc fuel nums base num (omega arith) small word))
        (elim (Bool-cases (num == 0)) [
          | inl e ↦ rw e (omega arith)
          | inr e ↦ absurd (ground arith)
        ])
  length-ans_loop (suc fuel) (suc k) num lt word =
      let eighth = smaller base 8 num eight in
      subst (λ l. length l ≤ suc k) (sym (ans_loop-suc fuel nums base num (omega arith) small word))
        (elim (Bool-cases (num == 0)) [
          | inl e ↦ rw e (omega arith)
          | inr e ↦
              rw e (omega (arith, length-ans_loop fuel k (num / base) (omega arith) (omega arith)))
        ])
