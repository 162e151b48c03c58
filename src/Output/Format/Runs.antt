-- ===== src/Output/Format/Runs.antt =====
-- src/io/output.c: the rounds of the loop of `_print`, and its count.
use lboot.Base.{
  ◌<◌, ◌^◌, ℕ, zero, suc, ◌+◌, ◌-◌, ◌*◌, ◌≤◌, ◌≡◌, sym, arith, inl, inr, subst, true, Bool-cases,
  if_split, if◌then◌else◌, ◌==◌, List, [], ◌∷◌, length, length-append, length-take, take, u8,
}
use lboot.Output.{print_int, get_dec, get_dec_from, is_digit}
use lboot.Output.Format.{
  Printer, Case, percent, size_up, size_long, size_down, size_int, point, flag, signed,
  unsigned_dec, hex, upper_hex, octal, float, string, char, pointer, skip_int, other, case_of,
  in_spec, out_of_spec, starts_width, set_width, step, print_loop, print_start, print, finish,
  put_int, put_string, va_word,
}

-- `_get_dec` stops no later than its text's end.
length-get_dec_from : (n : ℕ) (cs : List ℕ) → length (get_dec_from n cs).1 ≤ length cs
unfolding get_dec_from
length-get_dec_from n [] = omega arith
length-get_dec_from n (c ∷ cs) = elim (Bool-cases (is_digit c)) [
  | inl e ↦ rw e (omega (arith, length-get_dec_from (n * 10 + (c - 48)) cs))
  | inr e ↦ rw e (omega arith)
]

length-set_width :
    (p : Printer) (c : ℕ) (cs : List ℕ)
    → starts_width c ≡ true
    → length (set_width p (c ∷ cs)).1 ≤ length cs
unfolding set_width get_dec get_dec_from is_digit starts_width
length-set_width p c cs h =
    let digit : is_digit c ≡ true = ground arith in
    subst
      (λ b. length (if b then get_dec_from (0 * 10 + (c - 48)) cs else (0, c ∷ cs)).1 ≤ length cs)
      (sym digit) (length-get_dec_from (0 * 10 + (c - 48)) cs)

length-in_spec :
    (memory : ℕ → List ℕ) (p : Printer) (k : Case) (cs : List ℕ)
    → length (in_spec memory p k cs).1 ≤ length cs
unfolding in_spec get_dec
length-in_spec memory p percent cs = omega arith
length-in_spec memory p size_up cs = omega arith
length-in_spec memory p size_long cs = omega arith
length-in_spec memory p size_down cs = omega arith
length-in_spec memory p size_int cs = omega arith
length-in_spec memory p point cs = length-get_dec_from 0 cs
length-in_spec memory p (flag bit) cs = omega arith
length-in_spec memory p signed cs = omega arith
length-in_spec memory p unsigned_dec cs = omega arith
length-in_spec memory p hex cs = omega arith
length-in_spec memory p upper_hex cs = omega arith
length-in_spec memory p octal cs = omega arith
length-in_spec memory p float cs = omega arith
length-in_spec memory p string cs = omega arith
length-in_spec memory p char cs = omega arith
length-in_spec memory p pointer cs = omega arith
length-in_spec memory p skip_int cs = omega arith
length-in_spec memory p other cs = omega arith

pub length-step :
    (memory : ℕ → List ℕ) (p : Printer) (c : ℕ) (cs : List ℕ)
    → length (step memory p c cs).1 ≤ length cs
unfolding step
length-step memory p c cs =
    if_split (λ (r : Printer × List ℕ). length r.1 ≤ length cs) p.is_in_spec
      (λ e.
        if_split (λ (r : Printer × List ℕ). length r.1 ≤ length cs) (starts_width c)
          (length-set_width p c cs) (λ f. length-in_spec memory p (case_of c) cs))
      (λ e. omega arith)

-- The rounds from one state of the locals to another, over a format to its NUL.
pub data Runs (memory : ℕ → List ℕ) : Printer → List ℕ → Printer → Type 0 where
  at_nul : {p : Printer} → Runs memory p [] p
  round :
      {p q : Printer} {c : ℕ} {cs : List ℕ}
      → Runs memory (step memory p c cs).0 (step memory p c cs).1 q
      → Runs memory p (c ∷ cs) q

-- With as much fuel as the format has bytes, or more, the loop of `_print` ends at the NUL of the
-- format, whatever the format, the arguments and the state are.
pub print_loop-Runs :
    (memory : ℕ → List ℕ) (fuel : ℕ) (p : Printer) (fmt : List ℕ)
    → length fmt ≤ fuel
    → Runs memory p fmt (print_loop memory fuel p fmt)
unfolding print_loop
print_loop-Runs memory zero p [] enough = at_nul
print_loop-Runs memory zero p (c ∷ cs) enough = absurd (omega arith)
print_loop-Runs memory (suc fuel) p [] enough = at_nul
print_loop-Runs memory (suc fuel) p (c ∷ cs) enough = round (
    print_loop-Runs memory fuel (step memory p c cs).0 (step memory p c cs).1
      (omega (arith, length-step memory p c cs)))

-- The count covers what is stored.
abbrev pub Covers : Printer → Type 0
Covers p = length p.out ≤ p.nchars

finish-Covers :
    (p : Printer) (text : List ℕ) (count : ℕ) (ws : List ℕ)
    → Covers p
    → length text ≤ count
    → Covers (finish p text count ws)
unfolding finish
finish-Covers p text count ws h le = omega (arith, length-append p.out text)

put_int-Covers :
    (p : Printer) (arg base pad flags : ℕ) (ws : List ℕ)
    → Covers p
    → Covers (put_int p arg base pad flags ws)
unfolding put_int
put_int-Covers p arg base pad flags ws h =
    finish-Covers p (print_int arg base (u8 pad) flags) (length (print_int arg base (u8 pad) flags))
      ws h (omega arith)

shorter_take : (n : ℕ) (str : List ℕ) → length (take n str) ≤ length str
shorter_take n str = omega (arith, length-take n str)

put_string-Covers : (memory : ℕ → List ℕ) (p : Printer) → Covers p → Covers (put_string memory p)
unfolding put_string
put_string-Covers memory p h = finish-Covers p _ _ (va_word p.varg).1 h (shorter_take _ _)

in_spec-Covers :
    (memory : ℕ → List ℕ) (p : Printer) (k : Case) (cs : List ℕ)
    → Covers p
    → Covers (in_spec memory p k cs).0
unfolding in_spec
in_spec-Covers memory p percent cs h = omega (arith, length-append p.out (37 ∷ []))
in_spec-Covers memory p size_up cs h = h
in_spec-Covers memory p size_long cs h = h
in_spec-Covers memory p size_down cs h = h
in_spec-Covers memory p size_int cs h = h
in_spec-Covers memory p point cs h = h
in_spec-Covers memory p (flag bit) cs h = h
in_spec-Covers memory p signed cs h = put_int-Covers p _ _ _ _ _ h
in_spec-Covers memory p unsigned_dec cs h = put_int-Covers p _ _ _ _ _ h
in_spec-Covers memory p hex cs h = put_int-Covers p _ _ _ _ _ h
in_spec-Covers memory p upper_hex cs h = put_int-Covers p _ _ _ _ _ h
in_spec-Covers memory p octal cs h = put_int-Covers p _ _ _ _ _ h
in_spec-Covers memory p float cs h = finish-Covers p [] 0 _ h (omega arith)
in_spec-Covers memory p string cs h = put_string-Covers memory p h
in_spec-Covers memory p char cs h = finish-Covers p (_ ∷ []) 1 _ h (omega arith)
in_spec-Covers memory p pointer cs h = put_int-Covers p _ _ _ _ _ h
in_spec-Covers memory p skip_int cs h = finish-Covers p [] 0 _ h (omega arith)
in_spec-Covers memory p other cs h = h

step-Covers :
    (memory : ℕ → List ℕ) (p : Printer) (c : ℕ) (cs : List ℕ)
    → Covers p
    → Covers (step memory p c cs).0
unfolding step set_width out_of_spec
step-Covers memory p c cs h =
    let After : Printer × List ℕ → Type 0 = λ r. Covers r.0 in
    if_split After p.is_in_spec
      (λ e.
        if_split After (starts_width c) (λ f. h) (λ f. in_spec-Covers memory p (case_of c) cs h))
      (λ e. if_split Covers (c == 37) (λ f. h) (λ f. omega (arith, length-append p.out (c ∷ []))))

Runs-Covers :
    (memory : ℕ → List ℕ) {p q : Printer} {fmt : List ℕ} → Runs memory p fmt q → Covers p → Covers q
Runs-Covers memory at_nul h = h
Runs-Covers memory (round run) h = Runs-Covers memory run (step-Covers memory _ _ _ h)

-- Where the count that `_print` returns stays an `int`, so that no addition to it wraps round, it is
-- no less than the bytes stored before the NUL, for every format and every list of arguments.
pub length-print :
    (memory : ℕ → List ℕ) (fmt args : List ℕ)
    → (print memory fmt args).1 < 2 ^ 31
    → length (print memory fmt args).0 ≤ (print memory fmt args).1
unfolding print
length-print memory fmt args small =
    Runs-Covers memory (print_loop-Runs memory (length fmt) (print_start args) fmt (omega arith))
      (omega arith)
