-- ===== src/Stdlib/Strings.antt =====
-- src/stdlib/string.c: the buffers that `strcpy`, `strncpy` and `strdup` leave.
use lboot.Base.{
  ℕ, zero, suc, ◌+◌, ◌-◌, ◌≤◌, ◌<◌, ◌≡◌, refl, ap, ap₂, ◌∙◌, arith, List, [], ◌∷◌, ◌++◌, append-nil,
  length, take, drop, replicate,
}
use lboot.Stdlib.{strlen, strcpy, strncpy, strdup}
use lboot.Stdlib.Search.{strlen-eq-length}

take_nil : (n : ℕ) → take {A = ℕ} n [] ≡ []
take_nil zero = refl
take_nil (suc n) = refl

drop_all : (n : ℕ) (xs : List ℕ) → length xs ≤ n → drop n xs ≡ []
drop_all zero [] le = refl
drop_all zero (x ∷ xs) le = absurd (omega arith)
drop_all (suc n) [] le = refl
drop_all (suc n) (x ∷ xs) le = drop_all n xs (omega arith)

strcpy_lem :
    (dest src : List ℕ)
    → length src < length dest
    → strcpy dest src ≡ (src ++ (0 ∷ [])) ++ drop (suc (length src)) dest
unfolding strcpy
strcpy_lem [] src lt = absurd (omega arith)
strcpy_lem (d ∷ ds) [] lt = refl
strcpy_lem (d ∷ ds) (c ∷ cs) lt = ap (λ t. c ∷ t) (strcpy_lem ds cs (omega arith))

-- `strncpy` leaves at most `n` bytes of the source, NULs up to `n` bytes, and the rest of a buffer
-- that holds at least `n` bytes as it was.
pub strncpy_lem :
    (dest src : List ℕ) (n : ℕ)
    → n ≤ length dest
    → strncpy dest src n ≡ take n src ++ replicate (n - length src) 0 ++ drop n dest
unfolding strncpy
strncpy_lem dest src zero le =
    let none_left : 0 ≡ 0 - length src = omega arith in ap (λ k. replicate k 0 ++ dest) none_left
strncpy_lem [] src (suc n) le = absurd (omega arith)
strncpy_lem (d ∷ ds) [] (suc n) le =
    let fewer : n - 0 ≡ n = omega arith in
    let more : suc n ≡ suc n - 0 = omega arith in
    ap (λ t. 0 ∷ t)
      (strncpy_lem ds [] n (omega arith)
        ∙ ap₂ (λ t k. t ++ replicate k 0 ++ drop n ds) (take_nil n) fewer)
    ∙ ap (λ k. replicate k 0 ++ drop n ds) more
strncpy_lem (d ∷ ds) (c ∷ cs) (suc n) le =
    let left : n - length cs ≡ suc n - suc (length cs) = omega arith in
    ap (λ t. c ∷ t)
      (strncpy_lem ds cs n (omega arith) ∙ ap (λ k. take n cs ++ replicate k 0 ++ drop n ds) left)

-- `strdup` gives a buffer of the string and its NUL, where the allocator gives as many bytes as it
-- is asked for.
pub strdup_lem :
    (alloc : ℕ → ℕ → ℕ × List ℕ) (str : List ℕ)
    → ((sz flags : ℕ) → length (alloc sz flags).1 ≡ sz)
    → (strdup alloc str).1 ≡ str ++ (0 ∷ [])
unfolding strdup
strdup_lem alloc str sized =
    let bytes : List ℕ = (alloc (strlen str + 1) 0).1 in
    let room : length bytes ≡ suc (length str) =
      sized (strlen str + 1) 0 ∙ ap (λ k. k + 1) (strlen-eq-length str) ∙ omega arith in
    let spent : drop (suc (length str)) bytes ≡ [] =
      drop_all (suc (length str)) bytes (omega arith) in
    strcpy_lem bytes str (omega arith)
    ∙ ap (λ t. (str ++ (0 ∷ [])) ++ t) spent
    ∙ append-nil (str ++ (0 ∷ []))
