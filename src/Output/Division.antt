-- ===== src/Output/Division.antt =====
-- src/io/output.c: `udiv64` against the quotient and the remainder.
use lboot.Base.{
  ℕ, zero, suc, ◌+◌, ◌-◌, ◌*◌, ◌/◌, ◌%◌, ◌^◌, ◌≤◌, ◌<◌, ◌≡◌, refl, sym, ap, ap₂, ◌∙◌, arith, ◌⊎◌,
  inl, inr, subst, Bool, true, false, Bool-cases, if◌then◌else◌, ltb, leb, bit_or, u32, u64, ◌<<<◌,
}
use native.Mathlib.Omega.{by_contra}
use native.Mathlib.Nat.{
  mul_assoc, add-mul, le-mul_of_pos_right, one-le-pow, mul_comm, mul-le-mul_left, mul-le-mul_right,
  pow-le-pow_right, mul-add-div_right, div-eq_of_lt, mul-add-mod_self_right, mod-eq_of_lt,
}
use lboot.Base.Bits.{bit_or-one}
use lboot.Output.{clz, divide, udiv64}

-- The highest set bit of a number is at the index that `clz` leaves.
top_bit :
    (w x : ℕ) → 0 < x → x < 2 ^ w → (k : ℕ) × (clz w x + suc k ≡ w) × (2 ^ k ≤ x) × (x < 2 ^ suc k)
unfolding clz
top_bit zero x pos lt = absurd (omega arith)
top_bit (suc w) x pos lt = elim (Bool-cases (leb (2 ^ w) x)) [
  | inl e ↦ rw e (w, omega arith, ground arith, lt)
  | inr e ↦
      (let (k, sum, low, high) = top_bit w x pos (ground arith) in rw e (k, omega arith, low, high))
]

double : (n d : ℕ) → 2 ^ suc n * d ≡ 2 * (2 ^ n * d)
double n d = ap (λ t. t * d) (omega arith) ∙ mul_assoc 2 (2 ^ n) d

step_sum : (q p r bit x y : ℕ) → x ≡ (q * 2 + bit) * p + y → y + bit * p ≡ r → x ≡ q * (2 * p) + r
step_sum q p r bit x y h sum =
    h
    ∙ ap (λ t. t + y) (add-mul (q * 2) bit p ∙ ap (λ t. t + bit * p) (mul_assoc q 2 p))
    ∙ omega arith

-- A round, by its test.
round :
    (n q a b : ℕ) (fits : Bool)
    → leb b a ≡ fits
    → q * 2 < 2 ^ 64
    → divide (suc n) q a b
      ≡ divide n (if fits then q * 2 + 1 else q * 2) (if fits then a - b else a) (b / 2)
unfolding divide
round n q a b fits e lt =
    let small : u64 (q * 2) ≡ q * 2 = omega arith in
    let odd : bit_or (u64 (q * 2)) 1 ≡ q * 2 + 1 = bit_or-one (u64 (q * 2)) ∙ omega arith in
    ap
      (λ t.
        divide n (if t then bit_or (u64 (q * 2)) 1 else u64 (q * 2)) (if t then a - b else a)
          (b / 2))
      e
    ∙ ap₂ (λ s t. divide n (if fits then s else t) (if fits then a - b else a) (b / 2)) odd small

-- `n` rounds on a dividend below `2 ^ n * d` have quotient and remainder together make it up.
abbrev Splits : ℕ → ℕ → ℕ → ℕ → ℕ × ℕ → Type 0
Splits n q a d r = (r.0 * d + r.1 ≡ q * (2 ^ n * d) + a) × (r.1 < d)

divide_lem :
    (n q a b d : ℕ)
    → a < 2 ^ n * d
    → q * 2 ^ n + 2 ^ n ≤ 2 ^ 64
    → b ≡ 2 ^ n * d / 2
    → Splits n q a d (divide n q a b)
unfolding divide
divide_lem zero q a b d lt fits half = (ap (λ t. q * t + a) (omega arith), omega arith)
divide_lem (suc n) q a b d lt fits half =
    let twice : 2 ^ suc n * d ≡ 2 * (2 ^ n * d) = double n d in
    let power : q * 2 ^ suc n ≡ q * 2 * 2 ^ n =
      ap (λ t. q * t) (omega arith) ∙ sym (mul_assoc q 2 (2 ^ n)) in
    let wide : (q * 2 + 1) * 2 ^ n ≡ q * 2 * 2 ^ n + 2 ^ n =
      add-mul (q * 2) 1 (2 ^ n) ∙ omega arith in
    let positive : 0 < 2 ^ n = one-le-pow n 2 (omega arith) in
    let le : q * 2 ≤ q * 2 * 2 ^ n = le-mul_of_pos_right (q * 2) positive in
    elim (Bool-cases (leb b a)) [
      | inl e ↦
          (let (sum, rest) =
              divide_lem n (q * 2 + 1) (a - b) (b / 2) d (ground arith) (omega arith)
                (omega arith) in
            subst (Splits (suc n) q a d) (sym (round n q a b true e (omega arith))) (
              step_sum q (2 ^ n * d) a 1 _ _ sum (ground arith) ∙ ap (λ t. q * t + a) (sym twice),
              rest,
            ))
      | inr e ↦
          (let (sum, rest) =
              divide_lem n (q * 2) a (b / 2) d (ground arith) (omega arith) (omega arith) in
            subst (Splits (suc n) q a d) (sym (round n q a b false e (omega arith))) (
              step_sum q (2 ^ n * d) a 0 _ _ (sum ∙ ap (λ t. t * (2 ^ n * d) + a) (omega arith))
                    (omega arith)
                  ∙ ap (λ t. q * t + a) (sym twice),
              rest,
            ))
    ]

-- A pair that makes up the dividend with a remainder below the divisor is the pair of the division.
division_unique : (a b : ℕ) → 0 < b → (r : ℕ × ℕ) → r.0 * b + r.1 ≡ a → r.1 < b → r ≡ (a / b, a % b)
division_unique a b pos r sum lt =
    let quotient : (r.0 * b + r.1) / b ≡ r.0 =
      mul-add-div_right pos r.0 r.1 ∙ ap (λ t. r.0 + t) (div-eq_of_lt lt) ∙ omega arith in
    let remainder : (r.0 * b + r.1) % b ≡ r.1 =
      mul-add-mod_self_right r.0 b r.1 ∙ mod-eq_of_lt lt in
    ap₂ (λ q m. (q, m)) (sym quotient ∙ ap (λ t. t / b) sum) (sym remainder ∙ ap (λ t. t % b) sum)

two_power : (m n : ℕ) → 2 ^ (m + n) ≡ 2 ^ m * 2 ^ n
two_power zero n = let same : 2 ^ (0 + n) ≡ 2 ^ n = ap (λ t. 2 ^ t) (omega arith) in omega arith
two_power (suc m) n =
    let same : suc m + n ≡ suc (m + n) = omega arith in
    let step : 2 ^ (suc m + n) ≡ 2 * 2 ^ (m + n) = ap (λ t. 2 ^ t) same ∙ omega arith in
    step ∙ ap (λ t. 2 * t) (two_power m n) ∙ sym (double m (2 ^ n))

even_below : (j b : ℕ) → 0 < b → 2 ^ j ≤ b / 2 * 2 + 1 → 2 ^ j ≤ b
even_below zero b pos le = omega arith
even_below (suc j) b pos le = omega arith

-- The long division, with the divisor's and the dividend's highest bits at `j` and `k`.
shifted :
    (a b j k : ℕ)
    → 0 < b
    → b ≤ a
    → k < 64
    → a < 2 ^ suc k
    → 2 ^ j ≤ bit_or b 1
    → bit_or b 1 < 2 ^ suc j
    → 2 ^ k ≤ bit_or a 1
    → divide (suc (k - j)) 0 a (u64 (b <<< (k - j))) ≡ (a / b, a % b)
shifted a b j k pos le in_word high low' high' low =
    let odd : bit_or b 1 ≡ b / 2 * 2 + 1 = bit_or-one b in
    let even : 2 ^ suc k ≡ 2 ^ k * 2 = omega arith in
    let even' : 2 ^ suc j ≡ 2 ^ j * 2 = omega arith in
    let ordered : j ≤ k = by_contra j k (λ gt.
      let over : 2 ^ suc k ≤ 2 ^ j = pow-le-pow_right (omega arith) (omega arith) in omega arith) in
    let at_least : 2 ^ j ≤ b = even_below j b pos (omega arith) in
    let whole : 2 ^ suc (k - j) * 2 ^ j ≡ 2 ^ suc k =
      sym (two_power (suc (k - j)) j) ∙ ap (λ t. 2 ^ t) (omega arith) in
    let whole' : 2 ^ suc j * 2 ^ (k - j) ≡ 2 ^ suc k =
      sym (two_power (suc j) (k - j)) ∙ ap (λ t. 2 ^ t) (omega arith) in
    let covers : 2 ^ suc (k - j) * 2 ^ j ≤ 2 ^ suc (k - j) * b =
      mul-le-mul_left (2 ^ suc (k - j)) at_least in
    let room : (b + 1) * 2 ^ (k - j) ≤ 2 ^ suc j * 2 ^ (k - j) =
      mul-le-mul_right (2 ^ (k - j)) (omega arith) in
    let apart : (b + 1) * 2 ^ (k - j) ≡ b * 2 ^ (k - j) + 1 * 2 ^ (k - j) =
      add-mul b 1 (2 ^ (k - j)) in
    let word : 2 ^ suc k ≤ 2 ^ 64 = pow-le-pow_right (omega arith) in_word in
    let word' : 2 ^ suc (k - j) ≤ 2 ^ 64 = pow-le-pow_right (omega arith) {j = 64} (omega arith) in
    let step : 2 ^ suc (k - j) * b ≡ 2 * (b * 2 ^ (k - j)) =
      double (k - j) b ∙ ap (λ t. 2 * t) (mul_comm (2 ^ (k - j)) b) in
    let positive : 0 < 2 ^ (k - j) = one-le-pow (k - j) 2 (omega arith) in
    let (sum, rest) =
      divide_lem (suc (k - j)) 0 a (u64 (b <<< (k - j))) b (omega arith) (omega arith)
        (omega arith) in
    division_unique a b pos (divide (suc (k - j)) 0 a (u64 (b <<< (k - j)))) (sum ∙ omega arith)
      rest

-- `udiv64` is the quotient and the remainder of 64-bit numbers, for a divisor that is not 0, where
-- the divisor fits in 32 bits or the dividend does not.
pub udiv64-divides :
    (a b : ℕ)
    → 0 < b
    → b < 2 ^ 64
    → a < 2 ^ 64
    → (b < 2 ^ 32) ⊎ (2 ^ 32 ≤ a)
    → udiv64 a b ≡ (a / b, a % b)
unfolding udiv64
udiv64-divides a b pos lt_b lt_a fits = elim (Bool-cases (ltb a (2 ^ 32))) [
  | inl e ↦
      (let dividend : u32 a ≡ a = ground arith in
        let divisor : u32 b ≡ b = ground arith in rw (e, dividend, divisor) refl)
  | inr e ↦ elim (Bool-cases (ltb a b)) [
    | inl f ↦ rw (e, f) (division_unique a b pos (0, a) (omega arith) (ground arith))
    | inr f ↦
        (let le : b ≤ a = ground arith in
          let odd_b : bit_or b 1 ≡ b / 2 * 2 + 1 = bit_or-one b in
          let odd_a : bit_or a 1 ≡ a / 2 * 2 + 1 = bit_or-one a in
          let (j, sum_b, low_b, high_b) = top_bit 64 (bit_or b 1) (omega arith) (omega arith) in
          let (k, sum_a, low_a, high_a) = top_bit 64 (bit_or a 1) (omega arith) (omega arith) in
          let shift : clz 64 (bit_or b 1) - clz 64 (bit_or a 1) ≡ k - j = omega arith in
          rw (e, f, shift) (shifted a b j k pos le (omega arith) (omega arith) low_b high_b low_a))
  ]
]
