-- ===== src/Stdlib/Tests.antt =====
-- Runs of the C library's functions, and the theorems at them.
use lboot.Base.{ℕ, ◌+◌, ◌≡◌, ◌↔◌, refl, arith, List, [], ◌∷◌, ◌++◌, take}
use lboot.Output.{print_int, printflag_unsigned, printflag_padzero, printflag_uppercase}
use lboot.Stdlib.{
  pos, negsuc, minus, char_minus, first_char, strcmp, strncmp, strstr, isalnum, char_to_num,
  take_digit, strtoul_from, strtoul,
}
use lboot.Stdlib.Memory.{put_byte, copy_up, memcpy, memmove, compare_up, memcmp, moved}
use lboot.Stdlib.Copies.{memmove-moved}
use lboot.Stdlib.Compare.{IsString, strcmp_iff, strncmp_iff}
use lboot.Stdlib.Search.{FirstPlace, strstr-FirstPlace}
use lboot.Stdlib.Number.{ends, strtoul-print_int, strtoul-print_int_hex}

-- Of no bytes, `strncmp` compares whole strings: `--num` of 0 wraps round.
strncmp_zero : strncmp (97 ∷ []) (98 ∷ []) 0 ≡ negsuc 0
unfolding strncmp char_minus minus first_char
strncmp_zero = refl

-- A lower-case letter is no `isalnum`, so "ff" in base 16 is 0.
strtoul_lower : strtoul 16 (102 ∷ 102 ∷ []) ≡ (0, 102 ∷ 102 ∷ [])
unfolding strtoul strtoul_from isalnum
strtoul_lower = refl

-- The digit that equals the base is taken: "A" in base 10 is 10.
strtoul_base : strtoul 10 (65 ∷ []) ≡ (10, [])
unfolding strtoul strtoul_from isalnum char_to_num take_digit
strtoul_base = refl

abbrev row : ℕ → ℕ
row a = a + 1

-- The first of two bytes is the smaller one, and the result is positive.
memcmp_sign : memcmp row 4 5 1 ≡ pos 1
unfolding memcmp compare_up minus
memcmp_sign = refl

-- A `memcpy` onto its own source, one byte up, repeats the first byte.
memcpy_overlap : memcpy row 11 10 3 13 ≡ 11
unfolding memcpy copy_up put_byte
memcpy_overlap = refl

memmove-moved_example : memmove row 12 10 4 14 ≡ moved row 12 10 4 14
memmove-moved_example = memmove-moved row 12 10 4 14

abbrev lower_a : List ℕ
lower_a = 97 ∷ []

abbrev upper_a : List ℕ
upper_a = 65 ∷ []

abbrev lower_ab : List ℕ
lower_ab = 97 ∷ 98 ∷ []

strcmp_iff_example : (strcmp lower_a upper_a ≡ pos 0) ↔ (lower_a ≡ upper_a)
unfolding IsString
strcmp_iff_example =
    strcmp_iff lower_a upper_a ((omega arith, omega arith), refl) ((omega arith, omega arith), refl)

strncmp_iff_example : (strncmp lower_ab lower_a 1 ≡ pos 0) ↔ (take 1 lower_ab ≡ take 1 lower_a)
unfolding IsString
strncmp_iff_example =
    strncmp_iff lower_ab lower_a 1 ((omega arith, omega arith), ((omega arith, omega arith), refl))
      ((omega arith, omega arith), refl) (omega arith) (omega arith)

strstr-FirstPlace_example :
    FirstPlace (97 ∷ 97 ∷ 98 ∷ []) (97 ∷ 98 ∷ []) 0 4 (strstr (97 ∷ 97 ∷ 98 ∷ []) (97 ∷ 98 ∷ []))
strstr-FirstPlace_example = strstr-FirstPlace (97 ∷ 97 ∷ 98 ∷ []) (97 ∷ 98 ∷ [])

strtoul-print_int_example :
    strtoul 10 (print_int 4096 10 8 (printflag_unsigned + printflag_padzero) ++ (32 ∷ []))
    ≡ (4096, 32 ∷ [])
unfolding ends isalnum
strtoul-print_int_example = strtoul-print_int 4096 8 (32 ∷ []) (omega arith) refl

strtoul-print_int_hex_example :
    strtoul 16 (
      print_int 0xBEEF 16 8 (printflag_unsigned + printflag_padzero + printflag_uppercase)
      ++ (32 ∷ []))
    ≡ (0xBEEF, 32 ∷ [])
unfolding ends isalnum
strtoul-print_int_hex_example = strtoul-print_int_hex 0xBEEF 8 (32 ∷ []) (omega arith) refl
