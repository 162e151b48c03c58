-- ===== src/Stdlib/Number.antt =====
-- src/stdlib/stdlib.c and src/stdlib/ctype.c: `strtoul` on what `_print_int` of src/io/output.c
-- writes.
use lboot.Base.{
  ℕ, ◌+◌, ◌-◌, ◌*◌, ◌^◌, ◌≤◌, ◌<◌, ◌≡◌, refl, ap, ◌∙◌, arith, Bool, true, false, if_split,
  if◌then◌else◌, ◌&&◌, ltb, ◌==◌, List, [], ◌∷◌, ◌++◌, get_or, Option, some, none, u32,
}
use lboot.Base.Bits.{passes, at_index}
use lboot.Output.{
  print_int, digit_table, flag_set, sign_of, is_neg, lower_digits, upper_digits, printflag_unsigned,
  printflag_padzero, printflag_uppercase,
}
use lboot.Output.Number.{read-print_int}
use lboot.Stdlib.{isalnum, char_to_num, take_digit, strtoul_from, strtoul}

-- The byte is read as the digit.
unfoldable reads_as : ℕ → ℕ → Bool
reads_as c d = isalnum c && elim (char_to_num c) [ none ↦ false | some v ↦ v == d ]

both :
    (alnum : Bool) (value : Option ℕ) (d : ℕ)
    → alnum && elim value [ none ↦ false | some v ↦ v == d ] ≡ true
    → (alnum ≡ true) × (value ≡ some d)
both false value d h = cc
both true none d h = cc
both true (some v) d h = (refl, ap some (ground arith))

is_read : (c d : ℕ) → reads_as c d ≡ true → (isalnum c ≡ true) × (char_to_num c ≡ some d)
unfolding reads_as
is_read c d h = both (isalnum c) (char_to_num c) d h

eats :
    (base res c d : ℕ) (tail : List ℕ)
    → reads_as c d ≡ true
    → d < base
    → res * base + d ≤ 2 ^ 32 - 1
    → strtoul_from base res (c ∷ tail) ≡ strtoul_from base (res * base + d) tail
unfolding strtoul_from take_digit
eats base res c d tail h below fits =
    let (alnum, value) = is_read c d h in
    let fits' : ltb base d ≡ false = ground arith in
    let word : u32 (res * base + d) ≡ res * base + d = omega arith in
    rw (alnum, value, fits', word) refl

-- The text does not go on with a digit or an upper-case letter.
unfoldable pub ends : List ℕ → Bool
ends [] = true
ends (c ∷ cs) = if isalnum c then false else true

strtoul_from-ends :
    (base res : ℕ) (rest : List ℕ) → ends rest ≡ true → strtoul_from base res rest ≡ (res, rest)
unfolding strtoul_from ends
strtoul_from-ends base res [] h = refl
strtoul_from-ends base res (c ∷ cs) h =
    if_split (λ b. b ≡ true → strtoul_from base res (c ∷ cs) ≡ (res, c ∷ cs)) (isalnum c)
      (λ e h'. cc) (λ e h'. rw e refl) h

-- A number of 32 bits, written in base 10 with any padding of zeros before text that does not go on
-- with a digit or an upper-case letter, is what `strtoul` reads, and it stops at that text.
pub strtoul-print_int :
    (num pad : ℕ) (rest : List ℕ)
    → num < 2 ^ 32
    → ends rest ≡ true
    → strtoul 10 (print_int num 10 pad (printflag_unsigned + printflag_padzero) ++ rest)
      ≡ (num, rest)
unfolding strtoul strtoul_from take_digit reads_as passes isalnum char_to_num flag_set is_neg
    sign_of digit_table
strtoul-print_int num pad rest word h =
    read-print_int 10 (printflag_unsigned + printflag_padzero) (2 ^ 32 - 1) (strtoul_from 10)
      (omega arith) (omega arith)
      (λ n d tail below fits.
        eats 10 n (get_or lower_digits d 0) d tail
          (at_index (λ i. reads_as (get_or lower_digits i 0) i) 10 d below refl) below fits)
      (λ tail. refl) num pad rest (omega arith) (omega arith) refl refl refl
    ∙ strtoul_from-ends 10 num rest h

-- A number of 32 bits, written in base 16 in upper case with any padding of zeros before text that
-- does not go on with a digit or an upper-case letter, is what `strtoul` reads, and it stops at that
-- text.
pub strtoul-print_int_hex :
    (num pad : ℕ) (rest : List ℕ)
    → num < 2 ^ 32
    → ends rest ≡ true
    → strtoul 16 (
        print_int num 16 pad (printflag_unsigned + printflag_padzero + printflag_uppercase) ++ rest)
      ≡ (num, rest)
unfolding strtoul strtoul_from take_digit reads_as passes isalnum char_to_num flag_set is_neg
    sign_of digit_table
strtoul-print_int_hex num pad rest word h =
    read-print_int 16 (printflag_unsigned + printflag_padzero + printflag_uppercase) (2 ^ 32 - 1)
      (strtoul_from 16) (omega arith) (omega arith)
      (λ n d tail below fits.
        eats 16 n (get_or upper_digits d 0) d tail
          (at_index (λ i. reads_as (get_or upper_digits i 0) i) 16 d below refl) below fits)
      (λ tail. refl) num pad rest (omega arith) (omega arith) refl refl refl
    ∙ strtoul_from-ends 16 num rest h
