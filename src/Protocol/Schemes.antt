-- ===== src/Protocol/Schemes.antt =====
-- src/storage/protocol/protocol.c: which URIs `protocol_init` accepts.
use lboot.Base.{
  ℕ, zero, suc, ◌+◌, ◌-◌, ◌^◌, ◌<◌, ◌≡◌, ◌≢◌, ◌↔◌, refl, sym, ap, ◌∙◌, arith, List, [], ◌∷◌, ◌++◌,
  map, Bool, true, false, ◌&&◌, ◌==◌, ==_iff, if_split, some, length, take, length-append,
  length-map,
}
use lboot.Stdlib.{ℤ, pos, negsuc, strlen, strncasecmp, tolower, strchr}
use lboot.Stdlib.Compare.{IsString, strncmp_iff, strncasecmp-eq}
use lboot.Stdlib.Search.{strlen-eq-length}
use lboot.Protocol.{is_zero, check_scheme}

-- No byte of the string is ':'.
unfoldable pub NoColon : List ℕ → Type 0
NoColon [] = true ≡ true
NoColon (c ∷ cs) = (c ≢ 58) × NoColon cs

pub strchr-NoColon :
    (scheme rest : List ℕ) → NoColon scheme → strchr (scheme ++ (58 ∷ rest)) 58 ≡ some (58 ∷ rest)
unfolding strchr NoColon
strchr-NoColon [] rest h = refl
strchr-NoColon (c ∷ cs) rest h =
    if_split (λ z. z ≡ some (58 ∷ rest)) (c == 58) (λ e. absurd (h.0 (ground arith)))
      (λ e. strchr-NoColon cs rest h.1)

map-tolower-IsString : (s : List ℕ) → IsString s → IsString (map tolower s)
unfolding IsString tolower
map-tolower-IsString [] h = h
map-tolower-IsString (c ∷ cs) h = ((ground arith, ground arith), map-tolower-IsString cs h.1)

pub is_zero_iff : (z : ℤ) → (is_zero z ≡ true) ↔ (z ≡ pos 0)
is_zero_iff (pos zero) = (λ h. refl, λ h. refl)
is_zero_iff (pos (suc n)) = (λ h. cc, λ h. cc)
is_zero_iff (negsuc n) = (λ h. cc, λ h. cc)

take-lower : (s rest : List ℕ) → take (length s) (map tolower (s ++ rest)) ≡ map tolower s
take-lower [] rest = refl
take-lower (c ∷ cs) rest = ap (λ t. tolower c ∷ t) (take-lower cs rest)

take-lower-whole : (s : List ℕ) → take (length s) (map tolower s) ≡ map tolower s
take-lower-whole [] = refl
take-lower-whole (c ∷ cs) = ap (λ t. tolower c ∷ t) (take-lower-whole cs)

-- The comparison of a scheme with the front of a URI, of the same length.
strncasecmp-front :
    (s scheme rest : List ℕ)
    → IsString s
    → IsString (scheme ++ rest)
    → 0 < length s
    → length s < 2 ^ 32
    → length scheme ≡ length s
    → (strncasecmp s (scheme ++ rest) (length s) ≡ pos 0) ↔ (map tolower scheme ≡ map tolower s)
strncasecmp-front s scheme rest hs hu some_byte word same =
    let n = length s in
    let whole : take n (map tolower s) ≡ map tolower s = take-lower-whole s in
    let front : take n (map tolower (scheme ++ rest)) ≡ map tolower scheme =
      ap (λ k. take k (map tolower (scheme ++ rest))) (sym same) ∙ take-lower scheme rest in
    let lower = strncasecmp-eq s (scheme ++ rest) n in
    let agree =
      strncmp_iff (map tolower s) (map tolower (scheme ++ rest)) n (map-tolower-IsString s hs)
        (map-tolower-IsString (scheme ++ rest) hu) some_byte word in
    (
      λ h. sym front ∙ sym (agree.0 (sym lower ∙ h)) ∙ whole,
      λ h. lower ∙ agree.1 (whole ∙ sym h ∙ sym front),
    )

&&_iff : (a b : Bool) → ((a && b) ≡ true) ↔ ((a ≡ true) × (b ≡ true))
&&_iff true b = (λ h. (refl, h), λ h. h.1)
&&_iff false b = (λ h. cc, λ h. h.0)

-- A scheme is taken for the letters before the first ':', in either case.
pub check_scheme_iff :
    (s scheme rest : List ℕ)
    → IsString s
    → IsString (scheme ++ (58 ∷ rest))
    → 0 < length s
    → length s < 2 ^ 32
    → (check_scheme s (scheme ++ (58 ∷ rest)) (58 ∷ rest) ≡ true)
      ↔ (map tolower scheme ≡ map tolower s)
unfolding check_scheme
check_scheme_iff s scheme rest hs hu some_byte word =
    let uri = scheme ++ (58 ∷ rest) in
    let len : strlen s ≡ length s = strlen-eq-length s in
    let gap : length uri ≡ length scheme + suc (length rest) = length-append scheme (58 ∷ rest) in
    let at_len : strncasecmp s uri (strlen s) ≡ strncasecmp s uri (length s) =
      ap (strncasecmp s uri) len in
    let both =
      &&_iff ((length uri - suc (length rest)) == strlen s)
        (is_zero (strncasecmp s uri (strlen s))) in
    let zero_iff = is_zero_iff (strncasecmp s uri (strlen s)) in
    (
      λ h.
          (let parts = both.0 h in
            let apart : length uri - suc (length rest) ≡ strlen s =
              (==_iff (length uri - suc (length rest)) (strlen s)).0 parts.0 in
            let same : length scheme ≡ length s = omega arith in
            (strncasecmp-front s scheme (58 ∷ rest) hs hu some_byte word same).0
              (sym at_len ∙ zero_iff.0 parts.1)),
      λ h.
          (let same : length scheme ≡ length s =
              sym (length-map scheme tolower) ∙ ap length h ∙ length-map s tolower in
            let apart : length uri - suc (length rest) ≡ strlen s = omega arith in
            both.1 (
              (==_iff (length uri - suc (length rest)) (strlen s)).1 apart,
              zero_iff.1
                  (at_len ∙ (strncasecmp-front s scheme (58 ∷ rest) hs hu some_byte word same).1 h),
            )),
    )
