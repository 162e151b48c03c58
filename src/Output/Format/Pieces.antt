-- ===== src/Output/Format/Pieces.antt =====
-- src/io/output.c: `_print` on a format put together from pieces.
use lboot.Base.{
  ℕ, zero, suc, ◌+◌, ◌-◌, ◌≤◌, ◌<◌, ◌^◌, ◌≡◌, refl, sym, ap, ap₂, ◌∙◌, arith, subst, Bool, true,
  false, if_split, if◌then◌else◌, leb, ◌==◌, List, [], ◌∷◌, ◌++◌, append_assoc, append-nil, length,
  length-append, take, u8, u32, inl, inr, Bool-cases,
}
use lboot.Output.{print_int, get_dec, get_dec_from, is_digit, printflag_unsigned}
use lboot.Output.Format.{
  Printer, int_size, case_of, in_spec, out_of_spec, starts_width, set_width, step, print_loop,
  print, finish, put_int, put_string, va_word, get_arg, extend, sign_extend,
}
use lboot.Output.Format.Runs.{Runs, at_nul, round, length-step}

-- Text, or a conversion of one argument. The hexadecimal one has a width from 1 to 9 and the flag 0.
pub data Piece : Type 0 where
  text : List ℕ → Piece
  percent_sign signed_number unsigned_number a_string a_char : Piece
  padded_hex : ℕ → Piece

unfoldable pub format_of : Piece → List ℕ
format_of (text cs) = cs
format_of percent_sign = 37 ∷ 37 ∷ []
format_of signed_number = 37 ∷ 100 ∷ []
format_of unsigned_number = 37 ∷ 117 ∷ []
format_of a_string = 37 ∷ 115 ∷ []
format_of a_char = 37 ∷ 99 ∷ []
format_of (padded_hex width) = 37 ∷ 48 ∷ (48 + width) ∷ 120 ∷ []

unfoldable pub format_all : List Piece → List ℕ
format_all [] = []
format_all (p ∷ ps) = format_of p ++ format_all ps

-- What a piece prints from the arguments, and the arguments after it.
unfoldable pub render : (ℕ → List ℕ) → Piece → List ℕ → List ℕ × List ℕ
render memory (text cs) args = (cs, args)
render memory percent_sign args = (37 ∷ [], args)
render memory signed_number args =
    let (w, rest) = va_word args in (print_int (extend 32 (u32 w)) 10 0 0, rest)
render memory unsigned_number args =
    let (w, rest) = va_word args in (print_int (u32 w) 10 0 printflag_unsigned, rest)
render memory a_string args =
    let (w, rest) = va_word args in
    (if w == 0 then 40 ∷ 110 ∷ 117 ∷ 108 ∷ 108 ∷ 41 ∷ [] else memory w, rest)
render memory a_char args = let (w, rest) = va_word args in (u8 w ∷ [], rest)
render memory (padded_hex width) args =
    let (w, rest) = va_word args in (print_int (u32 w) 16 width 3, rest)

unfoldable pub render_all : (ℕ → List ℕ) → List Piece → List ℕ → List ℕ
render_all memory [] args = []
render_all memory (p ∷ ps) args =
    let (out, rest) = render memory p args in out ++ render_all memory ps rest

unfoldable pub has_percent : List ℕ → Bool
has_percent [] = false
has_percent (c ∷ cs) = if c == 37 then true else has_percent cs

-- Text has no `%`, and a width is a digit that is not 0.
unfoldable pub IsPlain : Piece → Type 0
IsPlain (text cs) = has_percent cs ≡ false
IsPlain (padded_hex width) = (0 < width) × (width < 10)
IsPlain _ = true ≡ true

abbrev idle : List ℕ → ℕ → List ℕ → Printer
idle out count args = record {
  is_in_spec = false;
  size = int_size;
  width = 0;
  precision = 0;
  flags = 0;
  out = out;
  nchars = count;
  varg = args;
}

-- The loop from the fuel of the format, by its rounds.
pub print_loop-eq :
    (memory : ℕ → List ℕ) {p q : Printer} {fmt : List ℕ}
    → Runs memory p fmt q
    → (fuel : ℕ) → length fmt ≤ fuel
    → print_loop memory fuel p fmt ≡ q
unfolding print_loop
print_loop-eq memory at_nul zero enough = refl
print_loop-eq memory at_nul (suc fuel) enough = refl
print_loop-eq memory (round run) zero enough = absurd (omega arith)
print_loop-eq memory (round {p} {q} {c} {cs} run) (suc fuel) enough =
    print_loop-eq memory run fuel (omega (arith, length-step memory p c cs))

text-Runs :
    (memory : ℕ → List ℕ) (cs rest out : List ℕ) (n : ℕ) (ws : List ℕ) (q : Printer)
    → has_percent cs ≡ false
    → Runs memory (idle (out ++ cs) (n + length cs) ws) rest q
    → Runs memory (idle out n ws) (cs ++ rest) q
unfolding has_percent step out_of_spec
text-Runs memory [] rest out n ws q h run =
    subst (λ p. Runs memory p rest q) (ap₂ (λ o k. idle o k ws) (append-nil out) (omega arith)) run
text-Runs memory (c ∷ cs) rest out n ws q h run = elim (Bool-cases (c == 37)) [
  | inl e ↦ absurd (ground arith)
  | inr e ↦ round (
      rw e (
        text-Runs memory cs rest (out ++ (c ∷ [])) (n + 1) ws q (ground arith) (
          subst (λ p. Runs memory p rest q)
            (ap₂ (λ o k. idle o k ws) (sym (append_assoc out (c ∷ []) cs)) (omega arith)) run)))
]

take_all : (n : ℕ) (xs : List ℕ) → length xs ≤ n → take n xs ≡ xs
take_all zero [] le = refl
take_all zero (x ∷ xs) le = absurd (omega arith)
take_all (suc n) [] le = refl
take_all (suc n) (x ∷ xs) le = ap (λ t. x ∷ t) (take_all n xs (omega arith))

abbrev in_width : List ℕ → ℕ → List ℕ → ℕ → Printer
in_width out count args width' = record {
  is_in_spec = true;
  size = int_size;
  width = width';
  precision = 0;
  flags = 2;
  out = out;
  nchars = count;
  varg = args;
}

-- A digit from 1 to 9 that another byte than a digit follows is a width.
width-step :
    (memory : ℕ → List ℕ) (out : List ℕ) (count : ℕ) (args : List ℕ) (width c : ℕ) (rest : List ℕ)
    → 0 < width
    → width < 10
    → is_digit c ≡ false
    → step memory (in_width out count args 0) (48 + width) (c ∷ rest)
      ≡ (in_width out count args width, c ∷ rest)
unfolding step set_width starts_width get_dec get_dec_from is_digit
width-step memory out count args width c rest pos small h =
    let above : leb 49 (48 + width) ≡ true = ground arith in
    let above' : leb 48 (48 + width) ≡ true = ground arith in
    let below : leb (48 + width) 57 ≡ true = ground arith in
    let value : 48 + width - 48 ≡ width = omega arith in
    let byte : u8 (0 + width) ≡ width = omega arith in
    rw (above, above', below, h, value, byte) refl

-- A piece takes the loop from one idle state to the next.
piece-Runs :
    (memory : ℕ → List ℕ)
    → ((a : ℕ) → length (memory a) < 2 ^ 32)
    → (piece : Piece) → IsPlain piece
    → (rest out : List ℕ) (n : ℕ) (ws : List ℕ) (q : Printer)
    → Runs memory
        (idle
          (out ++ (render memory piece ws).0)
          (n + length (render memory piece ws).0)
          (render memory piece ws).1)
        rest
        q
    → Runs memory (idle out n ws) (format_of piece ++ rest) q
unfolding format_of render IsPlain step out_of_spec in_spec case_of starts_width set_width put_int
    put_string finish get_arg sign_extend get_dec get_dec_from is_digit
piece-Runs memory short (text cs) plain rest out n ws q run =
    text-Runs memory cs rest out n ws q plain run
piece-Runs memory short percent_sign plain rest out n ws q run = round (round run)
piece-Runs memory short signed_number plain rest out n ws q run = round (round run)
piece-Runs memory short unsigned_number plain rest out n ws q run = round (round run)
piece-Runs memory short a_string plain rest out n ws q run =
    let str : List ℕ =
      if (va_word ws).0 == 0 then 40 ∷ 110 ∷ 117 ∷ 108 ∷ 108 ∷ 41 ∷ [] else memory (va_word ws).0 in
    let few : length str ≤ 2 ^ 32 - 1 =
      if_split (λ (l : List ℕ). length l ≤ 2 ^ 32 - 1) ((va_word ws).0 == 0) (λ e. omega arith)
        (λ e. omega (arith, short (va_word ws).0)) in
    let whole : take (2 ^ 32 - 1) str ≡ str = take_all (2 ^ 32 - 1) str few in
    round (
      round (
        subst (λ l. Runs memory (idle (out ++ l) (n + length str) (va_word ws).1) rest q)
          (sym whole) run))
piece-Runs memory short a_char plain rest out n ws q run = round (round run)
piece-Runs memory short (padded_hex width) plain rest out n ws q run =
    let byte : u8 width ≡ width = omega arith in
    let arg = u32 (va_word ws).0 in
    round (
      round (
        round (
          subst (λ (r : Printer × List ℕ). Runs memory r.0 r.1 q)
            (sym (width-step memory out n ws width 120 rest plain.0 plain.1 refl))
            (round (
              subst
                (λ t.
                  Runs memory
                    (idle (out ++ print_int arg 16 t 3) (n + length (print_int arg 16 t 3))
                      (va_word ws).1)
                    rest q)
                (sym byte) run)))))

unfoldable pub AllPlain : List Piece → Type 0
AllPlain [] = true ≡ true
AllPlain (p ∷ ps) = IsPlain p × AllPlain ps

pieces-Runs :
    (memory : ℕ → List ℕ)
    → ((a : ℕ) → length (memory a) < 2 ^ 32)
    → (ps : List Piece) → AllPlain ps
    → (out : List ℕ) (n : ℕ) (ws : List ℕ)
    → (end_args : List ℕ) × Runs memory
        (idle out n ws)
        (format_all ps)
        (idle (out ++ render_all memory ps ws) (n + length (render_all memory ps ws)) end_args)
unfolding format_all render_all AllPlain
pieces-Runs memory short [] plain out n ws = (
  ws,
  subst (λ p. Runs memory (idle out n ws) [] p)
      (ap₂ (λ o k. idle o k ws) (sym (append-nil out)) (omega arith)) at_nul,
)
pieces-Runs memory short (p ∷ ps) plain out n ws =
    let text' = (render memory p ws).0 in
    let rest = render_all memory ps (render memory p ws).1 in
    let (args, run) =
      pieces-Runs memory short ps plain.1 (out ++ text') (n + length text')
        (render memory p ws).1 in
    let counts = length-append text' rest in
    (
      args,
      piece-Runs memory short p plain.0 (format_all ps) out n ws _ (
          subst
            (λ q.
              Runs memory (idle (out ++ text') (n + length text') (render memory p ws).1)
                (format_all ps) q)
            (ap₂ (λ o k. idle o k args) (append_assoc out text' rest) (omega arith)) run),
    )

-- A format put together from plain text, `%%`, `%d`, `%u`, `%s`, `%c` and `%0nx` prints the texts of
-- its pieces in order, each from the arguments that the pieces before it left, and returns the
-- number of bytes printed, where strings are shorter than 2 ^ 32 bytes.
pub print-render_all :
    (memory : ℕ → List ℕ) (ps : List Piece) (args : List ℕ)
    → ((a : ℕ) → length (memory a) < 2 ^ 32)
    → AllPlain ps
    → print memory (format_all ps) args
      ≡ (render_all memory ps args, length (render_all memory ps args))
unfolding print
print-render_all memory ps args short plain =
    let (rest, run) = pieces-Runs memory short ps plain [] 0 args in
    ap (λ (p : Printer). (p.out, p.nchars))
      (print_loop-eq memory run (length (format_all ps)) (omega arith))
    ∙ ap (λ t. (render_all memory ps args, t)) (omega arith)
