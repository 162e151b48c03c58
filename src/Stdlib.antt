-- ===== src/Stdlib.antt =====
-- src/stdlib/string.c, src/stdlib/stdlib.c and src/stdlib/ctype.c. A string is the list of its
-- bytes before the NUL, none of them 0; a `char` is signed.
pub mod Memory
pub mod Copies
pub mod Compare
pub mod Search
pub mod Strings
pub mod Number
mod Tests
use lboot.Base.{
  ℕ, zero, suc, ◌+◌, ◌-◌, ◌*◌, ◌^◌, List, [], ◌∷◌, Bool, true, false, not, ◌&&◌, ◌||◌, leb, ltb,
  ◌==◌, if◌then◌else◌, Option, some, none, length, drop, u8, u32, sub_u32,
}

pub data ℤ : Type 0 where
  pos negsuc : ℕ → ℤ

-- a - b
unfoldable pub minus : ℕ → ℕ → ℤ
minus a zero = pos a
minus zero (suc b) = negsuc b
minus (suc a) (suc b) = minus a b

-- The difference of two bytes read as `char`, which is signed.
unfoldable pub char_minus : ℕ → ℕ → ℤ
char_minus a b = minus (a + (if leb 128 b then 256 else 0)) (b + (if leb 128 a then 256 else 0))

-- `*str`, and the string after it
unfoldable pub first_char : List ℕ → ℕ
first_char [] = 0
first_char (c ∷ cs) = c

unfoldable pub rest_of : List ℕ → List ℕ
rest_of [] = []
rest_of (c ∷ cs) = cs

unfoldable pub strlen : List ℕ → ℕ
strlen [] = 0
strlen (c ∷ cs) = suc (strlen cs)

unfoldable pub strcmp : List ℕ → List ℕ → ℤ
strcmp [] str2 = char_minus 0 (first_char str2)
strcmp (c ∷ cs) str2 =
    let next = strcmp cs (rest_of str2) in
    if c == first_char str2 then next else char_minus c (first_char str2)

-- `num` is a `size_t`: `--num` of 0 is 2 ^ 32 - 1.
unfoldable pub strncmp : List ℕ → List ℕ → ℕ → ℤ
strncmp [] str2 num = char_minus 0 (first_char str2)
strncmp (c ∷ cs) str2 num =
    let num' = sub_u32 num 1 in
    let next = strncmp cs (rest_of str2) num' in
    if (c == first_char str2) && not (num' == 0) then next else char_minus c (first_char str2)

unfoldable pub tolower : ℕ → ℕ
tolower c = if leb 65 c && leb c 90 then c + 32 else c

unfoldable pub strcasecmp : List ℕ → List ℕ → ℤ
strcasecmp [] str2 = char_minus 0 (tolower (first_char str2))
strcasecmp (c ∷ cs) str2 =
    let next = strcasecmp cs (rest_of str2) in
    if tolower c == tolower (first_char str2)
    then next
    else char_minus (tolower c) (tolower (first_char str2))

unfoldable pub strncasecmp : List ℕ → List ℕ → ℕ → ℤ
strncasecmp [] str2 num = char_minus 0 (tolower (first_char str2))
strncasecmp (c ∷ cs) str2 num =
    let num' = sub_u32 num 1 in
    let next = strncasecmp cs (rest_of str2) num' in
    if (tolower c == tolower (first_char str2)) && not (num' == 0)
    then next
    else char_minus (tolower c) (tolower (first_char str2))

-- The string from the byte that is found on, or NULL.
unfoldable pub strchr : List ℕ → ℕ → Option (List ℕ)
strchr [] c = none
strchr (s ∷ ss) c = let next = strchr ss c in if s == u8 c then some (s ∷ ss) else next

-- The loop of `strstr` on `j`: the needle that is left, at the haystack that is left.
unfoldable pub matches : List ℕ → List ℕ → Bool
matches [] hay = true
matches (n ∷ ns) [] = false
matches (n ∷ ns) (h ∷ hs) = if h == n then matches ns hs else false

-- The loop on `i` from `i`: the rounds left, and the haystack from `haystack[i]` on.
unfoldable pub strstr_loop : ℕ → ℕ → List ℕ → List ℕ → Option ℕ
strstr_loop zero i hay needle = none
strstr_loop (suc rounds) i hay needle =
    let next = strstr_loop rounds (suc i) (rest_of hay) needle in
    if matches needle hay then some i else next

-- The index that is found, or NULL.
unfoldable pub strstr : List ℕ → List ℕ → Option ℕ
strstr haystack needle =
    if ltb (strlen haystack) (strlen needle)
    then none
    else strstr_loop (suc (strlen haystack - strlen needle)) 0 haystack needle

-- The buffer from `dest[i]` on, and the source from `src[i]` on; a write past the buffer is dropped.
unfoldable pub strcpy : List ℕ → List ℕ → List ℕ
strcpy [] src = []
strcpy (d ∷ ds) [] = 0 ∷ ds
strcpy (d ∷ ds) (c ∷ cs) = c ∷ strcpy ds cs

unfoldable pub strncpy : List ℕ → List ℕ → ℕ → List ℕ
strncpy dest src zero = dest
strncpy [] src (suc n) = []
strncpy (d ∷ ds) [] (suc n) = 0 ∷ strncpy ds [] n
strncpy (d ∷ ds) (c ∷ cs) (suc n) = c ∷ strncpy ds cs n

-- The allocator gives an address and the bytes that stand there.
unfoldable pub strdup : (ℕ → ℕ → ℕ × List ℕ) → List ℕ → ℕ × List ℕ
strdup alloc str = let (dup, bytes) = alloc (strlen str + 1) 0 in (dup, strcpy bytes str)

-- ctype.c: `(c <- 'z')` is `c < -122`, for which a byte is read as a `char`.
unfoldable pub isalnum : ℕ → Bool
isalnum c =
    (leb 48 c && leb c 57)
    || (leb 65 c && leb c 90)
    || ((leb 97 c && ltb c 128) && (leb 128 c && ltb c 134))

-- `_char_to_num`; none is -1
unfoldable pub char_to_num : ℕ → Option ℕ
char_to_num c =
    if leb 48 c && leb c 57
    then some (c - 48)
    else if leb 65 c && leb c 90
    then some (10 + (c - 65))
    else if leb 97 c && leb c 122
    then some (10 + (c - 97))
    else none

-- `if(ch > base) break`, and the round that it may leave out
unfoldable pub take_digit : Option ℕ → ℕ → ℕ → Option ℕ
take_digit none base res = some (u32 (res * base + (2 ^ 32 - 1)))
take_digit (some ch) base res = if ltb base ch then none else some (u32 (res * base + ch))

-- The loop of `strtoul` from `res`: the number, and the string from `*endptr` on.
unfoldable pub strtoul_from : ℕ → ℕ → List ℕ → ℕ × List ℕ
strtoul_from base res [] = (res, [])
strtoul_from base res (c ∷ cs) =
    if isalnum c
    then elim (take_digit (char_to_num c) base res) [
      | none ↦ (res, c ∷ cs)
      | some res' ↦ strtoul_from base res' cs
    ]
    else (res, c ∷ cs)

unfoldable pub strtoul : ℕ → List ℕ → ℕ × List ℕ
strtoul base str = strtoul_from base 0 str
