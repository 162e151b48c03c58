-- ===== src/Output/Format.antt =====
-- src/io/output.c: `_print`, a machine that reads its format a byte at a time. The caller's
-- arguments are the 32-bit words of its stack from the first one on, and memory gives the string at
-- an address.
pub mod Runs
pub mod Pieces
use lboot.Base.{
  ℕ, zero, suc, ◌+◌, ◌-◌, ◌*◌, ◌%◌, ◌^◌, List, [], ◌∷◌, ◌++◌, Bool, true, false, ◌&&◌, ◌||◌, leb,
  ltb, ◌==◌, if◌then◌else◌, length, take, bit_or, u8, u16, u32,
}
use lboot.Output.{
  print_int, get_dec, printflag_unsigned, printflag_padzero, printflag_possign, printflag_posspace,
  printflag_uppercase, printflag_leftalign,
}

-- `size`: -2, -1, 0, 1 and 2, which are all the values it takes.
pub data Size : Type 0 where
  char_size short_size int_size long_size long_long_size : Size

-- The locals of `_print`; `out` is what it has stored. `nchars` is the sum that the code forms in an
-- `int`, the same as long as it stays below 2 ^ 31.
pub record Printer : Type 0 where
  pub is_in_spec : Bool
  pub size : Size
  pub width : ℕ
  pub precision : ℕ
  pub flags : ℕ
  pub out : List ℕ
  pub nchars : ℕ
  pub varg : List ℕ

-- if(size < 2) size++
unfoldable pub longer : Size → Size
longer char_size = short_size
longer short_size = int_size
longer int_size = long_size
longer long_size = long_long_size
longer long_long_size = long_long_size

-- if(size > -2) size--
unfoldable pub shorter : Size → Size
shorter char_size = char_size
shorter short_size = char_size
shorter int_size = short_size
shorter long_size = int_size
shorter long_long_size = long_size

-- The next word, and the rest. C does not define what a missing argument is.
unfoldable pub va_word : List ℕ → ℕ × List ℕ
va_word [] = (0, [])
va_word (w ∷ ws) = (u32 w, ws)

-- `va_arg` of a type of two words: their number, the low word first
unfoldable pub va_long_long : List ℕ → ℕ × List ℕ
va_long_long ws =
    let (low, ws₁) = va_word ws in let (high, ws₂) = va_word ws₁ in (low + high * 2 ^ 32, ws₂)

-- A number of `w` bits, two's complement, widened to 64.
unfoldable pub extend : ℕ → ℕ → ℕ
extend w n = let low = n % 2 ^ w in if ltb low (2 ^ (w - 1)) then low else low + (2 ^ 64 - 2 ^ w)

-- `_get_arg`. A `long` has 32 bits and is signed, so the cast to `arg_type_t` widens its sign.
unfoldable pub get_arg : Size → List ℕ → ℕ × List ℕ
get_arg char_size ws = let (w, rest) = va_word ws in (u8 w, rest)
get_arg short_size ws = let (w, rest) = va_word ws in (u16 w, rest)
get_arg int_size ws = let (w, rest) = va_word ws in (u32 w, rest)
get_arg long_size ws = let (w, rest) = va_word ws in (extend 32 w, rest)
get_arg long_long_size ws = va_long_long ws

-- `_sign_extend`
unfoldable pub sign_extend : ℕ → Size → ℕ
sign_extend val char_size = extend 8 val
sign_extend val short_size = extend 16 val
sign_extend val int_size = extend 32 val
sign_extend val long_size = extend 32 val
sign_extend val long_long_size = val

-- The cases of the switch on a byte inside a specification, but those of the digits 1 to 9.
pub data Case : Type 0 where
  percent size_up size_long size_down size_int point : Case
  flag : ℕ → Case
  signed unsigned_dec hex upper_hex octal float string char pointer skip_int other : Case

unfoldable pub case_of : ℕ → Case
case_of c =
    if c == 37
    then percent
    else if c == 108
    then size_up
    else if c == 76
    then size_long
    else if c == 104
    then size_down
    else if (c == 122) || (c == 106) || (c == 116)
    then size_int
    else if c == 43
    then flag printflag_possign
    else if c == 32
    then flag printflag_posspace
    else if c == 45
    then flag printflag_leftalign
    else if c == 48
    then flag printflag_padzero
    else if c == 46
    then point
    else if c == 117
    then unsigned_dec
    else if (c == 100) || (c == 105)
    then signed
    else if (c == 102) || (c == 70) || (c == 101) || (c == 69) || (c == 103) || (c == 71)
    then float
    else if c == 88
    then upper_hex
    else if c == 120
    then hex
    else if c == 111
    then octal
    else if c == 115
    then string
    else if c == 99
    then char
    else if c == 112
    then pointer
    else if (c == 97) || (c == 65)
    then float
    else if c == 110
    then skip_int
    else other

-- `out` and `nchars` with a text stored, and ZERO_ALL_VID
unfoldable pub finish : Printer → List ℕ → ℕ → List ℕ → Printer
finish p text count varg' = record {
  is_in_spec = false;
  size = int_size;
  width = 0;
  precision = 0;
  flags = 0;
  out = p.out ++ text;
  nchars = p.nchars + count;
  varg = varg';
}

-- A number of 64 bits stored by `_print_int`.
unfoldable pub put_int : Printer → ℕ → ℕ → ℕ → ℕ → List ℕ → Printer
put_int p arg base pad flags' varg' =
    let text = print_int arg base (u8 pad) flags' in finish p text (length text) varg'

-- `%s`: a NULL is printed as `(null)`, and a precision of 0 is none.
unfoldable pub put_string : (ℕ → List ℕ) → Printer → Printer
put_string memory p =
    let limit = if p.precision == 0 then 2 ^ 32 - 1 else p.precision in
    let (pointer', ws) = va_word p.varg in
    let str = if pointer' == 0 then 40 ∷ 110 ∷ 117 ∷ 108 ∷ 108 ∷ 41 ∷ [] else memory pointer' in
    finish p (take limit str) (length str) ws

-- One byte inside a specification, the text after it, and where the loop goes on.
unfoldable pub in_spec : (ℕ → List ℕ) → Printer → Case → List ℕ → Printer × List ℕ
in_spec memory p percent cs =
    (record p { is_in_spec = false; out = p.out ++ (37 ∷ []); nchars = p.nchars + 1 }, cs)
in_spec memory p size_up cs = (record p { size = longer p.size }, cs)
in_spec memory p size_long cs = (record p { size = long_size }, cs)
in_spec memory p size_down cs = (record p { size = shorter p.size }, cs)
in_spec memory p size_int cs = (record p { size = int_size }, cs)
in_spec memory p (flag bit) cs = (record p { flags = bit_or p.flags bit }, cs)
in_spec memory p point cs = let (n, rest) = get_dec cs in (record p { precision = u8 n }, rest)
in_spec memory p signed cs =
    let (arg, ws) = get_arg p.size p.varg in
    (put_int p (sign_extend arg p.size) 10 p.width p.flags ws, cs)
in_spec memory p unsigned_dec cs =
    let (arg, ws) = get_arg p.size p.varg in
    (put_int p arg 10 p.width (bit_or p.flags printflag_unsigned) ws, cs)
in_spec memory p hex cs =
    let (arg, ws) = get_arg p.size p.varg in
    (put_int p arg 16 p.width (bit_or p.flags printflag_unsigned) ws, cs)
in_spec memory p upper_hex cs =
    let (arg, ws) = get_arg p.size p.varg in
    let flags' = bit_or (bit_or p.flags printflag_unsigned) printflag_uppercase in
    (put_int p arg 16 p.width flags' ws, cs)
in_spec memory p octal cs =
    let (arg, ws) = get_arg p.size p.varg in
    (put_int p arg 8 p.width (bit_or p.flags printflag_unsigned) ws, cs)
in_spec memory p float cs = let (arg, ws) = va_long_long p.varg in (finish p [] 0 ws, cs)
in_spec memory p string cs = (put_string memory p, cs)
in_spec memory p char cs = let (arg, ws) = va_word p.varg in (finish p (u8 arg ∷ []) 1 ws, cs)
in_spec memory p pointer cs =
    let (arg, ws) = get_arg p.size p.varg in
    let width' = if p.width == 0 then 8 else p.width in
    (put_int p arg 16 width' (bit_or p.flags printflag_unsigned) ws, cs)
in_spec memory p skip_int cs = let (arg, ws) = va_word p.varg in (finish p [] 0 ws, cs)
in_spec memory p other cs = (p, cs)

-- One byte outside of a specification.
unfoldable pub out_of_spec : Printer → ℕ → Printer
out_of_spec p c =
    if c == 37
    then record p { is_in_spec = true }
    else record p { out = p.out ++ (c ∷ []); nchars = p.nchars + 1 }

-- the cases '1' to '9'
unfoldable pub starts_width : ℕ → Bool
starts_width c = leb 49 c && leb c 57

unfoldable pub set_width : Printer → List ℕ → Printer × List ℕ
set_width p str = let (n, rest) = get_dec str in (record p { width = u8 n }, rest)

-- One round of the loop on the byte `c`: the locals after it and the format that is left.
unfoldable pub step : (ℕ → List ℕ) → Printer → ℕ → List ℕ → Printer × List ℕ
step memory p c cs =
    if p.is_in_spec
    then if starts_width c then set_width p (c ∷ cs) else in_spec memory p (case_of c) cs
    else (out_of_spec p c, cs)

-- The loop of `_print`, on fuel.
unfoldable pub print_loop : (ℕ → List ℕ) → ℕ → Printer → List ℕ → Printer
print_loop memory zero p fmt = p
print_loop memory (suc fuel) p [] = p
print_loop memory (suc fuel) p (c ∷ cs) =
    let next = step memory p c cs in print_loop memory fuel next.0 next.1

abbrev pub print_start : List ℕ → Printer
print_start args = record {
  is_in_spec = false;
  size = int_size;
  width = 0;
  precision = 0;
  flags = 0;
  out = [];
  nchars = 0;
  varg = args;
}

-- `_print`: what it stores before the final NUL, and the count that it returns.
unfoldable pub print : (ℕ → List ℕ) → List ℕ → List ℕ → List ℕ × ℕ
print memory fmt args =
    let p = print_loop memory (length fmt) (print_start args) fmt in (p.out, p.nchars)
