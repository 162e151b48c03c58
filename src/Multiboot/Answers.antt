-- ===== src/Multiboot/Answers.antt =====
-- src/exec/multiboot.c: `multiboot2_parse` on a header with one list of requests.
use lboot.Base.{ℕ, ◌+◌, ◌*◌, ◌^◌, ◌<◌, ◌≡◌, List, [], ◌∷◌, ◌++◌, length, replicate, some, returns}
use lboot.Multiboot.{BootTag, le32_bytes, pad_to_8}
use lboot.Multiboot.Parse.{BootMachine, answer_request}

-- The requests and the tags that answer them in order.
pub data Answers (m : BootMachine) : List ℕ → List BootTag → Type 0 where
  no_request : Answers m [] []
  one_more :
      {r : ℕ} {rs : List ℕ} {own ts : List BootTag}
      → r < 2 ^ 32
      → answer_request m r ≡ returns (some own)
      → Answers m rs ts
      → Answers m (r ∷ rs) (own ++ ts)

unfoldable pub words_of : List ℕ → List ℕ
words_of [] = []
words_of (r ∷ rs) = le32_bytes r ++ words_of rs

-- A header tag of requests up to the tag that ends the header.
unfoldable pub request_tags : List ℕ → List ℕ
request_tags rs =
    let size = 8 + 4 * length rs in
    1 ∷ 0 ∷ 0 ∷ 0 ∷ le32_bytes size
    ++ words_of rs
    ++ replicate (pad_to_8 size) 0
    ++ (0 ∷ 0 ∷ 0 ∷ 0 ∷ 8 ∷ 0 ∷ 0 ∷ 0 ∷ [])

abbrev end_tag : List ℕ
end_tag = 0 ∷ 0 ∷ 0 ∷ 0 ∷ 8 ∷ 0 ∷ 0 ∷ 0 ∷ []

abbrev padding : List ℕ → List ℕ
padding rs = replicate (pad_to_8 (8 + 4 * length rs)) 0
