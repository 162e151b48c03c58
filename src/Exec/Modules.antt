-- ===== src/Exec/Modules.antt =====
-- src/exec/exec.c: `_exec_load_modules`, `_exec_detect_multiboot` and the order of `exec_exec`.
use lboot.Base.{
  ℕ, zero, suc, ◌+◌, ◌-◌, ◌%◌, List, [], ◌∷◌, Option, none, some, ◌==◌, if◌then◌else◌, length, u32,
}
use lboot.Exec.Elf.{store}

pub record Module : Type 0 where
  pub path : List ℕ
  pub addr : ℕ
  pub size : ℕ

-- The `ALIGN` macro, its branches as they stand.
unfoldable pub align : ℕ → ℕ → ℕ
align p a = if p % a == 0 then u32 (p + (a - p % a)) else p

-- A module with its address and size, before those after it.
unfoldable pub keep :
    Module → ℕ → ℕ → Option (List Module × (ℕ → ℕ)) → Option (List Module × (ℕ → ℕ))
keep m addr size none = none
keep m addr size (some rest) = some (record m { addr = addr; size = size } ∷ rest.0, rest.1)

-- A module that cannot be read ends the loading.
abbrev pub opened {ℓ} : {A : Type ℓ} → Option (List ℕ) → (List ℕ → Option A) → Option A
opened none f = none
opened (some bytes) f = f bytes

-- `file_open` is the call of that name and the read of the whole file: its bytes, or `none` if either fails.
unfoldable pub load_modules :
    (List ℕ → Option (List ℕ)) → ℕ → List Module → (ℕ → ℕ) → Option (List Module × (ℕ → ℕ))
load_modules file_open addr [] memory = some ([], memory)
load_modules file_open addr (m ∷ ms) memory =
    let at = align addr 8 in
    opened (file_open m.path) (λ bytes.
      keep m at (length bytes)
        (load_modules file_open (u32 (at + length bytes)) ms (store memory at bytes)))

-- What `_exec_detect_multiboot` returns.
pub data Multiboot : Type 0 where
  no_header version1 : Multiboot
  version2 : ℕ → Multiboot

-- The search looks at every other one of 2048 words from `data_begin` on.
unfoldable pub detect_loop : ℕ → (ℕ → ℕ) → ℕ → Multiboot
detect_loop zero word i = no_header
detect_loop (suc n) word i =
    let rest = detect_loop n word (i + 2) in
    if word i == 0x1BADB002 then version1 else if word i == 0xE85250D6 then version2 i else rest

unfoldable pub detect_multiboot : (ℕ → ℕ) → Multiboot
detect_multiboot word = detect_loop 1024 word 0
