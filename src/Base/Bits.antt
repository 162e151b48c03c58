-- ===== src/Base/Bits.antt =====
-- A test that a finite table of numbers passes and what its passing says of each number in it,
-- and an `or` whose operands share no bit.
use Prim.Native.Nat.{
  ℕ, zero, suc, ◌<◌, ◌≤◌, ◌+◌, ◌*◌, ◌^◌, ◌/◌, max, bit_or, bit_or-bitwise, digits,
}
use mathlib.Core.Path.{◌≡◌, refl, ◌∙◌, ap, sym}
use mathlib.Core.Bool.{Bool, true, false}
use native.Mathlib.Omega.{arith}
use native.Mathlib.Nat.{mul_assoc}
use lboot.Base.Tests.{if◌then◌else◌}

-- The test passes at every number of a table whose last index is below `bound`.
unfoldable pub passes : (ℕ → Bool) → ℕ → Bool
passes test zero = true
passes test (suc bound) = if test bound then passes test bound else false

pub at_index :
    (test : ℕ → Bool) (bound : ℕ) (i : ℕ) → i < bound → passes test bound ≡ true → test i ≡ true
unfolding passes
at_index test zero i below table = absurd (omega arith)
at_index test (suc bound) i below table = ground (arith, at_index test bound i)

or_digits : (n x y k : ℕ) → x ≤ n → x < 2 ^ k → digits (λ b. b) max n x (y * 2 ^ k) ≡ x + y * 2 ^ k
or_digits zero zero y k le lt = omega arith
or_digits (suc n) zero y k le lt = omega arith
or_digits zero (suc x) y k le lt = absurd (omega arith)
or_digits (suc n) (suc x) y zero le lt = absurd (omega arith)
or_digits (suc n) (suc x) y (suc k) le lt =
    let double : y * 2 ^ suc k ≡ y * 2 ^ k * 2 =
      ap (λ t. y * t) (omega arith) ∙ sym (mul_assoc y (2 ^ k) 2) in
    let half : y * 2 ^ suc k / 2 ≡ y * 2 ^ k = omega arith in
    let rest = or_digits n (suc x / 2) y k (omega arith) (omega arith) in
    rw (half, rest) (omega arith)

-- An `or` of a number below a power of two and a multiple of that power is their sum.
pub bit_or-shift : (x y k : ℕ) → x < 2 ^ k → bit_or x (y * 2 ^ k) ≡ x + y * 2 ^ k
bit_or-shift x y k lt = bit_or-bitwise x (y * 2 ^ k) ∙ or_digits x x y k (omega arith) lt

or_zero : (n x : ℕ) → x ≤ n → digits (λ b. b) max n x 0 ≡ x
or_zero zero zero le = refl
or_zero (suc n) zero le = refl
or_zero zero (suc x) le = absurd (omega arith)
or_zero (suc n) (suc x) le = let rest = or_zero n (suc x / 2) (omega arith) in rw rest (omega arith)

-- `x | 1` sets the lowest bit and no other.
pub bit_or-one : (x : ℕ) → bit_or x 1 ≡ x / 2 * 2 + 1
bit_or-one zero = refl
bit_or-one (suc x) =
    let rest = or_zero x (suc x / 2) (omega arith) in
    bit_or-bitwise (suc x) 1 ∙ rw rest (omega arith)
