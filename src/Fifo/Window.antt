-- ===== src/Fifo/Window.antt =====
-- The bytes that a ring holds, read off its buffer from the oldest on.
use lboot.Base.{
  ℕ, zero, suc, ◌+◌, ◌-◌, ◌≤◌, ◌<◌, ◌≡◌, ◌≢◌, refl, ap, ap₂, ◌∙◌, arith, List, [], ◌∷◌, ◌++◌, leb,
  ltb, if◌then◌else◌, get_or, set, length,
}
use lboot.Base.{get_or-set_self, get_or-set_ne}
use lboot.Fifo.{Fifo, fifo_getused}

-- The index after `i`, as the byte routines step.
abbrev pub next : ℕ → ℕ → ℕ
next size i = if leb size (i + 1) then 0 else i + 1

-- The index `n` places after `h`, for `n` below the size.
abbrev pub place : ℕ → ℕ → ℕ → ℕ
place size h n = if ltb (h + n) size then h + n else h + n - size

module _ (buf : List ℕ) (size : ℕ) where
  abbrev pub window : ℕ → ℕ → List ℕ
  window h zero = []
  window h (suc n) = get_or buf h 0 ∷ window (next size h) n

  pub length-window : (h n : ℕ) → length (window h n) ≡ n
  length-window h zero = refl
  length-window h (suc n) = ap suc (length-window (next size h) n)

abbrev pub contents : Fifo → List ℕ
contents f = window f.buf f.size f.head (fifo_getused f)

pub length-contents : (f : Fifo) → length (contents f) ≡ fifo_getused f
length-contents f = length-window f.buf f.size f.head (fifo_getused f)

place-zero : (size h : ℕ) → h < size → place size h 0 ≡ h
place-zero size h p = ground arith

place-ne : (size h n : ℕ) → h < size → suc n < size → place size h (suc n) ≢ h
place-ne size h n p q = ground arith

place-next :
    (size h n : ℕ) → h < size → suc n < size → place size h (suc n) ≡ place size (next size h) n
place-next size h n p q = ground arith

-- A byte written just behind a window extends it.
pub window-set :
    (buf : List ℕ) (size x n h i : ℕ)
    → size ≤ length buf
    → h < size
    → n < size
    → i ≡ place size h n
    → window (set buf i x) size h (suc n) ≡ window buf size h n ++ (x ∷ [])
window-set buf size x zero h i p q r e =
    rw (e ∙ place-zero size h q) (ap (λ b. b ∷ []) (get_or-set_self buf h x 0 (omega arith)))
window-set buf size x (suc n) h i p q r e =
    ap₂ ◌∷◌ (get_or-set_ne buf x 0 (rw e (place-ne size h n q r))) (
      window-set buf size x n (next size h) i p (ground arith) (omega arith)
        (e ∙ place-next size h n q r))
