-- ===== src/Output.antt =====
-- src/io/output.c and inc/io/output.h: the numbers that `printf` writes. A string is the list of
-- its bytes without the final NUL; a function that stores through `out` returns what it stored.
pub mod Division
pub mod Digits
pub mod Number
pub mod Format
pub mod Sink
mod Tests
use lboot.Base.{
  ℕ, zero, suc, ◌+◌, ◌-◌, ◌*◌, ◌/◌, ◌%◌, ◌^◌, List, [], ◌∷◌, ◌++◌, Bool, ◌&&◌, not, ltb, leb, ◌==◌,
  if◌then◌else◌, get_or, length, replicate, reverse, bit_or, bit_and, u8, u32, u64, ◌<<<◌, ◌>>>◌,
}

-- `__builtin_clzll` for a number below 2 ^ w
unfoldable pub clz : ℕ → ℕ → ℕ
clz zero x = 0
clz (suc w) x = if leb (2 ^ w) x then 0 else suc (clz w x)

-- The loop of `udiv64`: the number of rounds left (`shift + 1`), `q`, `a` and `b`.
unfoldable pub divide : ℕ → ℕ → ℕ → ℕ → ℕ × ℕ
divide zero q a b = (q, a)
divide (suc n) q a b =
    let fits = leb b a in
    let doubled = u64 (q <<< 1) in
    divide n (if fits then bit_or doubled 1 else doubled) (if fits then a - b else a) (b >>> 1)

-- The quotient and `*rem`. The third argument of the source is never NULL.
unfoldable pub udiv64 : ℕ → ℕ → ℕ × ℕ
udiv64 a b =
    if ltb a (2 ^ 32)
    then (u32 a / u32 b, u32 a % u32 b)
    else if ltb a b
    then (0, a)
    else (let shift = clz 64 (bit_or b 1) - clz 64 (bit_or a 1) in
        divide (suc shift) 0 a (u64 (b <<< shift)))

abbrev pub printflag_unsigned : ℕ
printflag_unsigned = 1

abbrev pub printflag_padzero : ℕ
printflag_padzero = 2

abbrev pub printflag_possign : ℕ
printflag_possign = 4

abbrev pub printflag_posspace : ℕ
printflag_posspace = 8

abbrev pub printflag_uppercase : ℕ
printflag_uppercase = 16

abbrev pub printflag_leftalign : ℕ
printflag_leftalign = 32

unfoldable pub flag_set : ℕ → ℕ → Bool
flag_set flags flag = not (bit_and flags flag == 0)

-- the bytes of `"0123456789ABCDEF"` and of `"0123456789abcdef"`
abbrev pub upper_digits : List ℕ
upper_digits = 48 ∷ 49 ∷ 50 ∷ 51 ∷ 52 ∷ 53 ∷ 54 ∷ 55 ∷ 56 ∷ 57 ∷ 65 ∷ 66 ∷ 67 ∷ 68 ∷ 69 ∷ 70 ∷ []

abbrev pub lower_digits : List ℕ
lower_digits = 48 ∷ 49 ∷ 50 ∷ 51 ∷ 52 ∷ 53 ∷ 54 ∷ 55 ∷ 56 ∷ 57 ∷ 97 ∷ 98 ∷ 99 ∷ 100 ∷ 101 ∷ 102 ∷ []

unfoldable pub digit_table : ℕ → List ℕ
digit_table flags = if flag_set flags printflag_uppercase then upper_digits else lower_digits

-- The loop of `_print_int` that fills `ans`, on fuel: the bytes from `ans[0]` on.
unfoldable pub ans_loop : ℕ → List ℕ → ℕ → ℕ → List ℕ
ans_loop zero nums base num = []
ans_loop (suc fuel) nums base num =
    let (quotient, rem) = udiv64 num base in
    let rest = ans_loop fuel nums base quotient in if num == 0 then [] else get_or nums rem 0 ∷ rest

-- `if(i == 0) i++` keeps the `'0'` that `ans[0]` starts with.
unfoldable pub at_least_zero : List ℕ → List ℕ
at_least_zero [] = 48 ∷ []
at_least_zero (c ∷ cs) = c ∷ cs

-- `ans` with a 64-bit number in it, the lowest digit first
unfoldable pub ans_of : ℕ → ℕ → ℕ → List ℕ
ans_of flags base num = at_least_zero (ans_loop 64 (digit_table flags) base num)

unfoldable pub is_neg : ℕ → ℕ → Bool
is_neg flags num = not (flag_set flags printflag_unsigned) && leb (2 ^ 63) num

unfoldable pub sign_of : ℕ → ℕ → List ℕ
sign_of flags num =
    if is_neg flags num
    then 45 ∷ []
    else if flag_set flags printflag_possign
    then 43 ∷ []
    else if flag_set flags printflag_posspace
    then 32 ∷ []
    else []

-- `_print_int` for `num` below 2 ^ 64 and `pad` below 2 ^ 8: what it stores in `out`, whose length
-- it returns.
unfoldable pub print_int : ℕ → ℕ → ℕ → ℕ → List ℕ
print_int num base pad flags =
    let magnitude = if is_neg flags num then u64 (2 ^ 64 - num) else num in
    let ans = ans_of flags base magnitude in
    let blank = if flag_set flags printflag_padzero then 48 else 32 in
    sign_of flags num ++ replicate (pad - length ans) blank ++ reverse ans

unfoldable pub is_digit : ℕ → Bool
is_digit c = leb 48 c && leb c 57

-- The loop of `_get_dec` from `n`: the value, an `int`, and the text from `*out` on.
unfoldable pub get_dec_from : ℕ → List ℕ → ℕ × List ℕ
get_dec_from n [] = (n, [])
get_dec_from n (c ∷ cs) =
    let rest = get_dec_from (n * 10 + (c - 48)) cs in if is_digit c then rest else (n, c ∷ cs)

unfoldable pub get_dec : List ℕ → ℕ × List ℕ
get_dec str = get_dec_from 0 str
