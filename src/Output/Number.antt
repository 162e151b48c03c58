-- ===== src/Output/Number.antt =====
-- src/io/output.c: what `_print_int` writes, its length, and `_get_dec` on it.
use lboot.Base.{
  ℕ, zero, suc, ◌+◌, ◌-◌, ◌*◌, ◌^◌, ◌≤◌, ◌<◌, max, ◌≡◌, refl, sym, ap, ◌∙◌, arith, Bool, true,
  false, inl, inr, Bool-cases, if◌then◌else◌, leb, ◌==◌, List, [], ◌∷◌, ◌++◌, append_assoc, get_or,
  length, length-append, length-replicate, replicate, reverse, reverse_aux, u64,
}
use lboot.Base.Bits.{passes, at_index}
use mathlib.Core.List.{reverse_aux-eq}
use lboot.Output.{
  ans_loop, digit_table, ans_of, at_least_zero, is_neg, sign_of, flag_set, print_int, is_digit,
  get_dec_from, get_dec, lower_digits, printflag_unsigned, printflag_padzero,
}
use lboot.Output.Digits.{read-reverse_aux-ans_loop, length-ans_loop}

digit : (d : ℕ) → d < 10 → get_or lower_digits d 0 ≡ 48 + d
unfolding passes
digit d below = ground (arith, at_index (λ i. get_or lower_digits i 0 == 48 + i) 10 d below refl)

eats :
    (n d : ℕ) (tail : List ℕ)
    → d < 10
    → get_dec_from n (get_or lower_digits d 0 ∷ tail) ≡ get_dec_from (n * 10 + d) tail
unfolding get_dec_from is_digit
eats n d tail below =
    let low : leb 48 (48 + d) ≡ true = ground arith in
    let high : leb (48 + d) 57 ≡ true = ground arith in
    let value : 48 + d - 48 ≡ d = omega arith in rw (digit d below, low, high, value) refl

module _ {ℓ} {A : Type ℓ} (base flags bound : ℕ) (read : ℕ → List ℕ → A) (two : 2 ≤ base)
    (small : base < 2 ^ 32)
    (eats : (n d : ℕ) (tail : List ℕ)
      → d < base
      → n * base + d ≤ bound
      → read n (get_or (digit_table flags) d 0 ∷ tail) ≡ read (n * base + d) tail)
    (skips : (tail : List ℕ) → read 0 (48 ∷ tail) ≡ read 0 tail) where
  skips_zeros : (k : ℕ) (tail : List ℕ) → read 0 (replicate k 48 ++ tail) ≡ read 0 tail
  skips_zeros zero tail = refl
  skips_zeros (suc k) tail = skips (replicate k 48 ++ tail) ∙ skips_zeros k tail

  skips_zero :
      (ans tail : List ℕ)
      → read 0 (reverse_aux (at_least_zero ans) tail) ≡ read 0 (reverse_aux ans tail)
  unfolding at_least_zero
  skips_zero [] tail = skips tail
  skips_zero (c ∷ cs) tail = refl

  -- A reader that takes a digit at a time and skips leading zeros takes a number that is printed
  -- without a sign and padded with zeros to that number.
  pub read-print_int :
      (num pad : ℕ) (rest : List ℕ)
      → num < 2 ^ 64
      → num ≤ bound
      → is_neg flags num ≡ false
      → sign_of flags num ≡ []
      → flag_set flags printflag_padzero ≡ true
      → read 0 (print_int num base pad flags ++ rest) ≡ read num rest
  unfolding print_int ans_of
  read-print_int num pad rest word le plus bare zeros =
      let ans = ans_loop 64 (digit_table flags) base num in
      let text = at_least_zero ans in
      let padding : List ℕ = replicate (pad - length text) 48 in
      let same : print_int num base pad flags ≡ padding ++ reverse text =
        rw (plus, bare, zeros) refl in
      ap (λ t. read 0 (t ++ rest)) same
      ∙ ap (read 0) (
          append_assoc padding (reverse text) rest
          ∙ ap (λ t. padding ++ t) (sym (reverse_aux-eq text rest)))
      ∙ skips_zeros (pad - length text) (reverse_aux text rest)
      ∙ skips_zero ans rest
      ∙ read-reverse_aux-ans_loop base (digit_table flags) bound read two small eats 64 num rest
          (omega arith) word le

-- The text does not go on with a decimal digit.
unfoldable pub stops : List ℕ → Bool
stops [] = true
stops (c ∷ cs) = if is_digit c then false else true

get_dec_from-stops : (n : ℕ) (rest : List ℕ) → stops rest ≡ true → get_dec_from n rest ≡ (n, rest)
unfolding get_dec_from stops
get_dec_from-stops n [] h = refl
get_dec_from-stops n (c ∷ cs) h = elim (Bool-cases (is_digit c)) [
  | inl e ↦ absurd (ground arith)
  | inr e ↦ rw e refl
]

-- A number that an `int` holds, written in base 10 with any padding of zeros before text that does
-- not go on with a digit, is what `_get_dec` reads, and it stops at that text.
pub get_dec-print_int :
    (num pad : ℕ) (rest : List ℕ)
    → num < 2 ^ 31
    → pad < 2 ^ 8
    → stops rest ≡ true
    → get_dec (print_int num 10 pad (printflag_unsigned + printflag_padzero) ++ rest) ≡ (num, rest)
unfolding get_dec get_dec_from is_digit sign_of is_neg flag_set digit_table
get_dec-print_int num pad rest small byte h =
    read-print_int 10 (printflag_unsigned + printflag_padzero) (2 ^ 31) get_dec_from (omega arith)
      (omega arith) (λ n d tail below fits. eats n d tail below) (λ tail. refl) num pad rest
      (omega arith) (omega arith) refl refl refl
    ∙ get_dec_from-stops num rest h

length-reverse_aux : (xs ys : List ℕ) → length (reverse_aux xs ys) ≡ length xs + length ys
length-reverse_aux [] ys = omega arith
length-reverse_aux (x ∷ xs) ys = length-reverse_aux xs (x ∷ ys) ∙ omega arith

length-at_least_zero :
    (ans : List ℕ) (k : ℕ) → length ans ≤ suc k → length (at_least_zero ans) ≤ suc k
unfolding at_least_zero
length-at_least_zero [] k le = omega arith
length-at_least_zero (c ∷ cs) k le = le

-- The digits of a 64-bit number in a base from 8 to 16 are at most 22, so they fit in `ans[25]` with
-- a NUL behind them.
pub length-ans_of :
    (flags base num : ℕ) → 8 ≤ base → base ≤ 16 → num < 2 ^ 64 → length (ans_of flags base num) ≤ 22
unfolding ans_of
length-ans_of flags base num eight sixteen word =
    length-at_least_zero (ans_loop 64 (digit_table flags) base num) 21
      (length-ans_loop base (digit_table flags) eight (omega arith) 64 22 num (omega arith) word)

length-sign_of : (flags num : ℕ) → length (sign_of flags num) ≤ 1
unfolding sign_of
length-sign_of flags num = ground arith

length-padded :
    (sign ans : List ℕ) (pad blank : ℕ)
    → length sign ≤ 1
    → length ans ≤ 22
    → length (sign ++ replicate (pad - length ans) blank ++ reverse ans) ≤ 1 + max pad 22
length-padded sign ans pad blank short few =
    let filled = length-replicate (pad - length ans) blank in
    let written : length (reverse ans) ≡ length ans = length-reverse_aux ans [] ∙ omega arith in
    let front = length-append sign (replicate (pad - length ans) blank) in
    let whole = length-append (sign ++ replicate (pad - length ans) blank) (reverse ans) in
    omega arith

-- `_print_int` writes at most a sign and the larger of the padding and 22 digits, for a 64-bit
-- number in a base from 8 to 16.
pub length-print_int :
    (num base pad flags : ℕ)
    → 8 ≤ base
    → base ≤ 16
    → num < 2 ^ 64
    → length (print_int num base pad flags) ≤ 1 + max pad 22
unfolding print_int
length-print_int num base pad flags eight sixteen word =
    let magnitude : ℕ = if is_neg flags num then u64 (2 ^ 64 - num) else num in
    let small : magnitude < 2 ^ 64 = elim (Bool-cases (is_neg flags num)) [
      | inl e ↦ rw e (omega arith)
      | inr e ↦ rw e word
    ] in
    length-padded (sign_of flags num) (ans_of flags base magnitude) pad
      (if flag_set flags printflag_padzero then 48 else 32) (length-sign_of flags num)
      (length-ans_of flags base magnitude eight sixteen small)
