-- ===== src/Output/Tests.antt =====
-- Runs of `printf`'s parts, and the theorems at them.
use lboot.Base.{
  subst, sym, ◌<◌, ℕ, ◌+◌, ◌-◌, ◌/◌, ◌%◌, ◌^◌, ◌≤◌, ◌≡◌, refl, arith, inl, List, [], ◌∷◌, ◌++◌,
  length,
}
use lboot.Output.{
  clz, divide, udiv64, ans_loop, at_least_zero, ans_of, digit_table, is_neg, sign_of, flag_set,
  print_int, is_digit, get_dec_from, get_dec, printflag_unsigned, printflag_padzero,
}
use lboot.Output.Division.{udiv64-divides}
use lboot.Output.Number.{stops, get_dec-print_int, length-ans_of}
use lboot.Output.Format.{
  longer, va_word, extend, get_arg, case_of, finish, put_int, put_string, in_spec, out_of_spec,
  starts_width, set_width, step, print_loop, print_start, print,
}
use lboot.Output.Format.Runs.{Runs, print_loop-Runs, length-print}
use lboot.Output.Format.Pieces.{
  Piece, text, a_string, padded_hex, format_all, render_all, print-render_all, AllPlain, IsPlain,
  has_percent,
}

-- 2 ^ 40 + 5 by 10: the long division, as `clz` and the shifts run it.
udiv64_long : udiv64 (2 ^ 40 + 5) 10 ≡ (109951162778, 1)
unfolding udiv64 divide clz
udiv64_long = refl

-- A divisor above 32 bits is cut to its low half: 5 / (2 ^ 32 + 2) is 0, and the code says 2.
udiv64_cut : udiv64 5 (2 ^ 32 + 2) ≡ (2, 1)
unfolding udiv64
udiv64_cut = refl

-- `_print_int(2 ^ 64 - 42, 10, 5, 0)` is "   -42" less one space, for the sign is not counted.
print_int_signed : print_int (2 ^ 64 - 42) 10 5 0 ≡ 45 ∷ 32 ∷ 32 ∷ 32 ∷ 52 ∷ 50 ∷ []
unfolding print_int is_neg sign_of flag_set ans_of ans_loop at_least_zero digit_table udiv64
print_int_signed = refl

abbrev strings : ℕ → List ℕ
strings a = 104 ∷ 105 ∷ []

-- "%.1s" on "hi" stores one byte and counts two.
print_precision : print strings (37 ∷ 46 ∷ 49 ∷ 115 ∷ []) (0x1000 ∷ []) ≡ (104 ∷ [], 2)
unfolding print print_loop step out_of_spec in_spec case_of starts_width set_width put_string finish
    va_word get_dec get_dec_from is_digit
print_precision = refl

-- "%lx" widens the sign of a 32-bit `long`.
print_long : (print strings (37 ∷ 108 ∷ 120 ∷ []) (0x80000000 ∷ [])).1 ≡ 16
unfolding print print_loop step out_of_spec in_spec case_of starts_width set_width put_int finish
    longer va_word get_arg extend print_int is_neg sign_of flag_set ans_of ans_loop at_least_zero
    digit_table udiv64 divide clz
print_long = refl

-- "id %04x: %s", without the arguments' values
abbrev report : List Piece
report = text (105 ∷ 100 ∷ 32 ∷ []) ∷ padded_hex 4 ∷ text (58 ∷ 32 ∷ []) ∷ a_string ∷ []

udiv64-divides_example : udiv64 (2 ^ 40 + 5) 10 ≡ ((2 ^ 40 + 5) / 10, (2 ^ 40 + 5) % 10)
udiv64-divides_example =
    udiv64-divides (2 ^ 40 + 5) 10 (omega arith) (omega arith) (omega arith) (inl (omega arith))

get_dec-print_int_example :
    get_dec (print_int 1999 10 6 (printflag_unsigned + printflag_padzero) ++ (44 ∷ []))
    ≡ (1999, 44 ∷ [])
unfolding stops is_digit
get_dec-print_int_example = get_dec-print_int 1999 6 (44 ∷ []) (omega arith) (omega arith) refl

length-ans_of_example : length (ans_of 0 8 (2 ^ 64 - 1)) ≤ 22
length-ans_of_example = length-ans_of 0 8 (2 ^ 64 - 1) (omega arith) (omega arith) (omega arith)

print_loop-Runs_example :
    Runs strings
      (print_start (7 ∷ []))
      (37 ∷ 100 ∷ [])
      (print_loop strings 2 (print_start (7 ∷ [])) (37 ∷ 100 ∷ []))
print_loop-Runs_example =
    print_loop-Runs strings 2 (print_start (7 ∷ [])) (37 ∷ 100 ∷ []) (omega arith)

length-print_example :
    length (print strings (37 ∷ 46 ∷ 49 ∷ 115 ∷ []) (0x1000 ∷ [])).0
    ≤ (print strings (37 ∷ 46 ∷ 49 ∷ 115 ∷ []) (0x1000 ∷ [])).1
length-print_example =
    length-print strings (37 ∷ 46 ∷ 49 ∷ 115 ∷ []) (0x1000 ∷ [])
      (subst (λ r. r.1 < 2 ^ 31) (sym print_precision) (omega arith))

print-render_all_example : print strings (format_all report) (0x2F ∷ 0x1000 ∷ []) ≡ (
  render_all strings report (0x2F ∷ 0x1000 ∷ []),
  length (render_all strings report (0x2F ∷ 0x1000 ∷ [])),
)
unfolding AllPlain IsPlain has_percent
print-render_all_example =
    print-render_all strings report (0x2F ∷ 0x1000 ∷ []) (λ a. omega arith)
      (refl, ((omega arith, omega arith), (refl, (refl, refl))))
