-- ===== src/Stdlib/Compare.antt =====
-- src/stdlib/string.c: `strcmp` and its kin against the equality of strings.
use lboot.Base.{
  ℕ, zero, suc, ◌+◌, ◌^◌, ◌<◌, ◌≡◌, ◌↔◌, refl, sym, ap, ap₂, ◌∙◌, arith, subst, true, if_split,
  if◌then◌else◌, leb, ◌==◌, not, ◌&&◌, List, [], ◌∷◌, take, map, sub_u32,
}
use lboot.Stdlib.{
  pos, minus, char_minus, first_char, rest_of, strcmp, strncmp, tolower, strcasecmp, strncasecmp,
}

-- Bytes, none of them the NUL.
unfoldable pub IsString : List ℕ → Type 0
IsString [] = true ≡ true
IsString (c ∷ cs) = ((0 < c) × (c < 256)) × IsString cs

minus_self : (a : ℕ) → minus a a ≡ pos 0
unfolding minus
minus_self zero = refl
minus_self (suc a) = minus_self a

minus-zero : (a b : ℕ) → minus a b ≡ pos 0 → a ≡ b
unfolding minus
minus-zero a zero h = cc
minus-zero zero (suc b) h = cc
minus-zero (suc a) (suc b) h = ap suc (minus-zero a b h)

char_minus_self : (a : ℕ) → char_minus a a ≡ pos 0
unfolding char_minus
char_minus_self a = minus_self (a + (if leb 128 a then 256 else 0))

char_minus-zero : (a b : ℕ) → a < 256 → b < 256 → char_minus a b ≡ pos 0 → a ≡ b
unfolding char_minus
char_minus-zero a b small small' h =
    let same =
      minus-zero (a + (if leb 128 b then 256 else 0)) (b + (if leb 128 a then 256 else 0)) h in
    ground arith

strcmp-same : (s : List ℕ) → strcmp s s ≡ pos 0
unfolding strcmp first_char rest_of
strcmp-same [] = char_minus_self 0
strcmp-same (c ∷ cs) =
    if_split (λ z. z ≡ pos 0) (c == c) (λ e. strcmp-same cs) (λ e. absurd (ground arith))

strcmp-differ : (s t : List ℕ) → IsString s → IsString t → strcmp s t ≡ pos 0 → s ≡ t
unfolding strcmp first_char rest_of IsString
strcmp-differ [] [] hs ht h = refl
strcmp-differ [] (d ∷ ds) hs ht h =
    absurd (omega (arith, char_minus-zero 0 d (omega arith) ht.0.1 h))
strcmp-differ (c ∷ cs) [] hs ht h =
    if_split (λ z. z ≡ pos 0 → c ∷ cs ≡ []) (c == 0) (λ e h'. absurd (ground arith))
      (λ e h'. absurd (omega (arith, char_minus-zero c 0 hs.0.1 (omega arith) h'))) h
strcmp-differ (c ∷ cs) (d ∷ ds) hs ht h =
    if_split (λ z. z ≡ pos 0 → c ∷ cs ≡ d ∷ ds) (c == d)
      (λ e h'. ap₂ (λ x xs. x ∷ xs) (ground arith) (strcmp-differ cs ds hs.1 ht.1 h'))
      (λ e h'. absurd (ground (arith, char_minus-zero c d hs.0.1 ht.0.1 h'))) h

-- `strcmp` returns 0 for two strings exactly if they are the same.
pub strcmp_iff : (s t : List ℕ) → IsString s → IsString t → (strcmp s t ≡ pos 0) ↔ (s ≡ t)
strcmp_iff s t hs ht =
    (strcmp-differ s t hs ht, λ e. subst (λ z. strcmp s z ≡ pos 0) e (strcmp-same s))

-- A round of `strncmp` on a byte of the first string.
strncmp-cons :
    (c : ℕ) (cs t : List ℕ) (n : ℕ)
    → suc n < 2 ^ 32
    → strncmp (c ∷ cs) t (suc n) ≡ (
        if (c == first_char t) && not (n == 0)
        then strncmp cs (rest_of t) n
        else char_minus c (first_char t))
unfolding strncmp
strncmp-cons c cs t n word =
    let down : sub_u32 (suc n) 1 ≡ n = omega arith in
    ap
      (λ m.
        if (c == first_char t) && not (m == 0)
        then strncmp cs (rest_of t) m
        else char_minus c (first_char t))
      down

strncmp-same :
    (s t : List ℕ) (n : ℕ)
    → IsString s
    → IsString t
    → 0 < n
    → n < 2 ^ 32
    → take n s ≡ take n t
    → strncmp s t n ≡ pos 0
unfolding strncmp first_char rest_of IsString
strncmp-same s t zero hs ht pos' word h = absurd (omega arith)
strncmp-same [] [] (suc n) hs ht pos' word h = char_minus_self 0
strncmp-same [] (d ∷ ds) (suc n) hs ht pos' word h = cc
strncmp-same (c ∷ cs) [] (suc n) hs ht pos' word h = cc
strncmp-same (c ∷ cs) (d ∷ ds) (suc n) hs ht pos' word h =
    let head : c ≡ d = ap first_char h in
    strncmp-cons c cs (d ∷ ds) n word
    ∙ if_split (λ z. z ≡ pos 0) ((c == d) && not (n == 0))
        (λ e. strncmp-same cs ds n hs.1 ht.1 (ground arith) (omega arith) (ap rest_of h))
        (λ e. subst (λ x. char_minus c x ≡ pos 0) head (char_minus_self c))

strncmp-differ :
    (s t : List ℕ) (n : ℕ)
    → IsString s
    → IsString t
    → 0 < n
    → n < 2 ^ 32
    → strncmp s t n ≡ pos 0
    → take n s ≡ take n t
unfolding strncmp first_char rest_of IsString
strncmp-differ s t zero hs ht pos' word h = absurd (omega arith)
strncmp-differ [] [] (suc n) hs ht pos' word h = refl
strncmp-differ [] (d ∷ ds) (suc n) hs ht pos' word h =
    absurd (omega (arith, char_minus-zero 0 d (omega arith) ht.0.1 h))
strncmp-differ (c ∷ cs) [] (suc n) hs ht pos' word h =
    if_split (λ z. z ≡ pos 0 → c ∷ take n cs ≡ []) ((c == 0) && not (n == 0))
      (λ e h'. absurd (ground arith))
      (λ e h'. absurd (omega (arith, char_minus-zero c 0 hs.0.1 (omega arith) h')))
      (sym (strncmp-cons c cs [] n word) ∙ h)
strncmp-differ (c ∷ cs) (d ∷ ds) (suc n) hs ht pos' word h =
    if_split (λ z. z ≡ pos 0 → c ∷ take n cs ≡ d ∷ take n ds) ((c == d) && not (n == 0))
      (λ e h'.
        ap₂ (λ x xs. x ∷ xs) (ground arith)
          (strncmp-differ cs ds n hs.1 ht.1 (ground arith) (omega arith) h'))
      (λ e h'.
        (let head = char_minus-zero c d hs.0.1 ht.0.1 h' in
          let done : n ≡ 0 = ground arith in
          ap₂ (λ x xs. x ∷ xs) head (ap (λ k. take k cs) done ∙ ap (λ k. take k ds) (sym done))))
      (sym (strncmp-cons c cs (d ∷ ds) n word) ∙ h)

-- `strncmp` of at least one byte returns 0 for two strings exactly if they are the same up to that
-- many bytes.
pub strncmp_iff :
    (s t : List ℕ) (n : ℕ)
    → IsString s
    → IsString t
    → 0 < n
    → n < 2 ^ 32
    → (strncmp s t n ≡ pos 0) ↔ (take n s ≡ take n t)
strncmp_iff s t n hs ht pos' word =
    (strncmp-differ s t n hs ht pos' word, strncmp-same s t n hs ht pos' word)

first_char-map : (t : List ℕ) → first_char (map tolower t) ≡ tolower (first_char t)
unfolding first_char tolower
first_char-map [] = refl
first_char-map (c ∷ cs) = refl

rest_of-map : (t : List ℕ) → rest_of (map tolower t) ≡ map tolower (rest_of t)
unfolding rest_of
rest_of-map [] = refl
rest_of-map (c ∷ cs) = refl

-- `strcasecmp` returns what `strcmp` returns for the strings in lower case.
pub strcasecmp-eq : (s t : List ℕ) → strcasecmp s t ≡ strcmp (map tolower s) (map tolower t)
unfolding strcasecmp strcmp
strcasecmp-eq [] t = ap (char_minus 0) (sym (first_char-map t))
strcasecmp-eq (c ∷ cs) t =
    ap
      (λ z.
        if tolower c == tolower (first_char t)
        then z
        else char_minus (tolower c) (tolower (first_char t)))
      (strcasecmp-eq cs (rest_of t) ∙ ap (strcmp (map tolower cs)) (sym (rest_of-map t)))
    ∙ ap
        (λ d.
          if tolower c == d
          then strcmp (map tolower cs) (rest_of (map tolower t))
          else char_minus (tolower c) d)
        (sym (first_char-map t))

-- `strncasecmp` returns what `strncmp` returns for the strings in lower case.
pub strncasecmp-eq :
    (s t : List ℕ) (n : ℕ) → strncasecmp s t n ≡ strncmp (map tolower s) (map tolower t) n
unfolding strncasecmp strncmp
strncasecmp-eq [] t n = ap (char_minus 0) (sym (first_char-map t))
strncasecmp-eq (c ∷ cs) t n =
    ap
      (λ z.
        if (tolower c == tolower (first_char t)) && not (sub_u32 n 1 == 0)
        then z
        else char_minus (tolower c) (tolower (first_char t)))
      (strncasecmp-eq cs (rest_of t) (sub_u32 n 1)
        ∙ ap (λ u. strncmp (map tolower cs) u (sub_u32 n 1)) (sym (rest_of-map t)))
    ∙ ap
        (λ d.
          if (tolower c == d) && not (sub_u32 n 1 == 0)
          then strncmp (map tolower cs) (rest_of (map tolower t)) (sub_u32 n 1)
          else char_minus (tolower c) d)
        (sym (first_char-map t))
