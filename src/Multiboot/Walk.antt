-- ===== src/Multiboot/Walk.antt =====
-- src/exec/multiboot.c: the information that `multiboot2_parse` leaves, as a kernel walks it.
use lboot.Base.{
  ℕ, zero, suc, ◌+◌, ◌-◌, ◌^◌, ◌≤◌, ◌<◌, ◌≡◌, ◌≢◌, refl, sym, ap, ap₂, ◌∙◌, arith, if_split, List,
  [], ◌∷◌, ◌++◌, append_assoc, map, length, length-append, length-replicate, take, drop, take_exact,
  drop_past, replicate, if◌then◌else◌, ◌==◌, ==_iff,
}
use lboot.Exec.Elf.{le32_at}
use lboot.Multiboot.{
  BootTag, cmdline_tag, bootloader_tag, module_tag, meminfo_tag, mmap_tag, acpi_old_tag,
  acpi_new_tag, le32_bytes, tag_type, tag_data, pad_to_8, tag_bytes, all_tag_bytes, boot_info,
}

-- A kernel's walk over the tags up to the tag of type 0, the END tag: the tags left to read at most,
-- and the bytes. It gives the type and the data of each tag.
unfoldable pub kernel_walk : ℕ → List ℕ → List (ℕ × List ℕ)
kernel_walk zero bytes = []
kernel_walk (suc n) bytes =
    let size = le32_at bytes 4 in
    let rest = kernel_walk n (drop (size + pad_to_8 size) bytes) in
    if le32_at bytes 0 == 0 then [] else (le32_at bytes 0, take (size - 8) (drop 8 bytes)) ∷ rest

unfoldable pub seen : BootTag → ℕ × List ℕ
seen t = (tag_type t, tag_data t)

le32_first :
    (m n : ℕ) (rest : List ℕ) → m < 2 ^ 32 → le32_at ((le32_bytes m ++ le32_bytes n) ++ rest) 0 ≡ m
unfolding le32_bytes
le32_first m n rest small = omega arith

le32_second :
    (m n : ℕ) (rest : List ℕ) → n < 2 ^ 32 → le32_at ((le32_bytes m ++ le32_bytes n) ++ rest) 4 ≡ n
unfolding le32_bytes
le32_second m n rest small = omega arith

tag_type-small : (t : BootTag) → tag_type t < 2 ^ 32
unfolding tag_type
tag_type-small (cmdline_tag str) = omega arith
tag_type-small (bootloader_tag str) = omega arith
tag_type-small (module_tag first last name) = omega arith
tag_type-small (meminfo_tag lower upper) = omega arith
tag_type-small (mmap_tag es) = omega arith
tag_type-small (acpi_old_tag bytes) = omega arith
tag_type-small (acpi_new_tag bytes) = omega arith

-- The bytes of a tag behind its type and size.
tag_rest : BootTag → List ℕ
tag_rest t = tag_data t ++ replicate (pad_to_8 (8 + length (tag_data t))) 0

tag_bytes-eq :
    (t : BootTag) (rest : List ℕ)
    → tag_bytes t ++ rest
      ≡ (le32_bytes (tag_type t) ++ le32_bytes (8 + length (tag_data t))) ++ (tag_rest t ++ rest)
unfolding tag_bytes tag_rest le32_bytes
tag_bytes-eq t rest = refl

length-tag_bytes :
    (t : BootTag)
    → length (tag_bytes t) ≡ 8 + length (tag_data t) + pad_to_8 (8 + length (tag_data t))
unfolding tag_bytes le32_bytes
length-tag_bytes t =
    let whole = length-append (tag_data t) (replicate (pad_to_8 (8 + length (tag_data t))) 0) in
    let pad = length-replicate {A = ℕ} (pad_to_8 (8 + length (tag_data t))) 0 in omega arith

drop_head : (m n : ℕ) (rest : List ℕ) → drop 8 ((le32_bytes m ++ le32_bytes n) ++ rest) ≡ rest
unfolding le32_bytes
drop_head m n rest = refl

length_head :
    (m n : ℕ) (rest : List ℕ) → length ((le32_bytes m ++ le32_bytes n) ++ rest) ≡ 8 + length rest
unfolding le32_bytes
length_head m n rest = omega arith

seen_type : (t : BootTag) {type : ℕ} {bytes : List ℕ} → (type, bytes) ≡ seen t → type ≡ tag_type t
unfolding seen
seen_type t h = ap (λ p. p.0) h

-- The type and the data that a walk reads at the bytes of a tag.
read_tag :
    (t : BootTag) (rest : List ℕ)
    → 8 + length (tag_data t) < 2 ^ 32
    → let bytes = tag_bytes t ++ rest in
      (le32_at bytes 0, take (le32_at bytes 4 - 8) (drop 8 bytes)) ≡ seen t
unfolding seen tag_rest
read_tag t rest small =
    let size : ℕ = 8 + length (tag_data t) in
    let behind = tag_rest t ++ rest in
    let back : 8 + length (tag_data t) - 8 ≡ length (tag_data t) = omega arith in
    ap (λ b. (le32_at b 0, take (le32_at b 4 - 8) (drop 8 b))) (tag_bytes-eq t rest)
    ∙ ap₂
        (λ a s. (a, take (s - 8) (drop 8 ((le32_bytes (tag_type t) ++ le32_bytes size) ++ behind))))
        (le32_first (tag_type t) size behind (tag_type-small t))
        (le32_second (tag_type t) size behind small)
    ∙ ap₂ (λ k b. (tag_type t, take k b)) back (drop_head (tag_type t) size behind)
    ∙ ap (λ b. (tag_type t, take (length (tag_data t)) b))
        (append_assoc (tag_data t) (replicate (pad_to_8 size) 0) rest)
    ∙ ap (λ b. (tag_type t, b))
        (take_exact (tag_data t) (replicate (pad_to_8 size) 0 ++ rest) (length (tag_data t)) refl)

read_step :
    (t : BootTag) (rest : List ℕ)
    → 8 + length (tag_data t) < 2 ^ 32
    → let size = le32_at (tag_bytes t ++ rest) 4 in size + pad_to_8 size ≡ length (tag_bytes t)
read_step t rest small =
    let size : ℕ = 8 + length (tag_data t) in
    ap (λ b. le32_at b 4 + pad_to_8 (le32_at b 4)) (tag_bytes-eq t rest)
    ∙ ap (λ s. s + pad_to_8 s) (le32_second (tag_type t) size (tag_rest t ++ rest) small)
    ∙ sym (length-tag_bytes t)

tag_type-nonzero : (t : BootTag) → tag_type t ≢ 0
unfolding tag_type
tag_type-nonzero (cmdline_tag str) = omega arith
tag_type-nonzero (bootloader_tag str) = omega arith
tag_type-nonzero (module_tag first last name) = omega arith
tag_type-nonzero (meminfo_tag lower upper) = omega arith
tag_type-nonzero (mmap_tag es) = omega arith
tag_type-nonzero (acpi_old_tag bytes) = omega arith
tag_type-nonzero (acpi_new_tag bytes) = omega arith

-- A walk over the bytes of a list of tags that together have fewer than 2 ^ 32 bytes gives the type
-- and the data of each tag in order, where type 0 follows them.
pub kernel_walk-all_tag_bytes :
    (ts : List BootTag) (n : ℕ) (rest : List ℕ)
    → length ts ≤ n
    → length (all_tag_bytes ts) < 2 ^ 32
    → le32_at rest 0 ≡ 0
    → kernel_walk n (all_tag_bytes ts ++ rest) ≡ map seen ts
unfolding kernel_walk all_tag_bytes
kernel_walk-all_tag_bytes [] zero rest few small end = refl
kernel_walk-all_tag_bytes [] (suc n) rest few small end =
    if_split (λ z. z ≡ []) (le32_at rest 0 == 0) (λ e. refl) (λ e. absurd (ground arith))
kernel_walk-all_tag_bytes (t ∷ ts) zero rest few small end = absurd (omega arith)
kernel_walk-all_tag_bytes (t ∷ ts) (suc n) rest few small end =
    let bytes : List ℕ = (tag_bytes t ++ all_tag_bytes ts) ++ rest in
    let after : List ℕ = all_tag_bytes ts ++ rest in
    let parted : bytes ≡ tag_bytes t ++ after =
      append_assoc (tag_bytes t) (all_tag_bytes ts) rest in
    let whole = length-append (tag_bytes t) (all_tag_bytes ts) in
    let own = length-tag_bytes t in
    let fits : 8 + length (tag_data t) < 2 ^ 32 = omega arith in
    let here : (le32_at bytes 0, take (le32_at bytes 4 - 8) (drop 8 bytes)) ≡ seen t =
      ap (λ b. (le32_at b 0, take (le32_at b 4 - 8) (drop 8 b))) parted ∙ read_tag t after fits in
    let step : le32_at bytes 4 + pad_to_8 (le32_at bytes 4) ≡ length (tag_bytes t) =
      ap (λ b. le32_at b 4 + pad_to_8 (le32_at b 4)) parted ∙ read_step t after fits in
    let none_left : length (tag_bytes t) - length (tag_bytes t) ≡ 0 = omega arith in
    let dropped : drop (le32_at bytes 4 + pad_to_8 (le32_at bytes 4)) bytes ≡ after =
      ap₂ drop step parted
      ∙ drop_past (tag_bytes t) after (length (tag_bytes t)) (omega arith)
      ∙ ap (λ k. drop k after) none_left in
    if_split (λ z. z ≡ seen t ∷ map seen ts) (le32_at bytes 0 == 0)
      (λ e. absurd (tag_type-nonzero t (sym (seen_type t here) ∙ (==_iff (le32_at bytes 0) 0).0 e)))
      (λ e.
        ap₂ (λ a b. a ∷ b) here
          (ap (kernel_walk n) dropped
            ∙ kernel_walk-all_tag_bytes ts n rest (omega arith) (omega arith) end))

no_type : (k : ℕ) → le32_at (replicate k 0) 0 ≡ 0
no_type zero = refl
no_type (suc zero) = refl
no_type (suc (suc zero)) = refl
no_type (suc (suc (suc zero))) = refl
no_type (suc (suc (suc (suc k)))) = refl

-- The information that `multiboot2_parse` leaves states the size of its tags with the first eight
-- bytes, and a walk from there gives the tags in order up to a tag of type 0, which the cleared rest
-- of the buffer has room for.
pub kernel_walk-boot_info :
    (ts : List BootTag) (n : ℕ)
    → length ts ≤ n
    → 16 + length (all_tag_bytes ts) ≤ 1024
    → (length (boot_info ts) ≡ 1024)
      × (le32_at (boot_info ts) 0 ≡ 8 + length (all_tag_bytes ts))
      × (kernel_walk n (drop 8 (boot_info ts)) ≡ map seen ts)
unfolding boot_info
kernel_walk-boot_info ts n few short =
    let size : ℕ = 8 + length (all_tag_bytes ts) in
    let cleared : List ℕ = replicate (1024 - size) 0 in
    let sizes = le32_bytes size ++ le32_bytes 0 in
    let parted : (sizes ++ all_tag_bytes ts) ++ cleared ≡ sizes ++ (all_tag_bytes ts ++ cleared) =
      append_assoc sizes (all_tag_bytes ts) cleared in
    let tags = length-append (all_tag_bytes ts) cleared in
    let pad = length-replicate {A = ℕ} (1024 - size) 0 in
    let head = length_head size 0 (all_tag_bytes ts ++ cleared) in
    (
      ap length parted ∙ head ∙ omega arith,
      ap (λ b. le32_at b 0) parted ∙ le32_first size 0 (all_tag_bytes ts ++ cleared) (omega arith),
      ap (λ b. kernel_walk n (drop 8 b)) parted
          ∙ ap (kernel_walk n) (drop_head size 0 (all_tag_bytes ts ++ cleared))
          ∙ kernel_walk-all_tag_bytes ts n cleared few (omega arith) (no_type (1024 - size)),
    )
