-- ===== src/Multiboot.antt =====
-- src/exec/multiboot.c with inc/exec/multiboot_types.h: the answers to a kernel's requests. The BIOS
-- is what its calls give, and memory a function from addresses; a tag is kept as the struct that is
-- written, and `tag_bytes` has the bytes of it in the zeroed buffer.
pub mod Parse
pub mod Walk
pub mod Answers
mod Tests
use lboot.Base.{
  ℕ, zero, suc, ◌+◌, ◌-◌, ◌*◌, ◌/◌, ◌%◌, ◌^◌, List, [], ◌∷◌, ◌++◌, Bool, true, false, ◌&&◌, ◌||◌,
  not, ltb, leb, ◌==◌, if◌then◌else◌, Option, some, none, length, drop, replicate, bit_and, u8, u32,
  sub_u32, Outcome, returns, panics, no_fuel, ◌>>=◌,
}
use lboot.Exec.Elf.{le16_at, le32_at}

-- `multiboot2_head_t`, with the bytes from `tags` on
pub record MultibootHead : Type 0 where
  pub magic : ℕ
  pub architecture : ℕ
  pub header_length : ℕ
  pub checksum : ℕ
  pub tags : List ℕ

-- What is used of `config_data_t`; no command line is a NULL.
pub record ConfigModule : Type 0 where
  pub module_name : List ℕ
  pub module_addr : ℕ
  pub module_size : ℕ

pub record ConfigData : Type 0 where
  pub kernel_cmdline : Option (List ℕ)
  pub modules : List ConfigModule

-- `bios_mmap_entry_t`, and `multiboot2_mmap_entry_t`
pub record MmapEntry : Type 0 where
  pub base_addr : ℕ
  pub size : ℕ
  pub type : ℕ

-- INT 0x12 and INT 0x15 with AH 0x88, none with the carry flag; and INT 0x15 with AX 0xE820, which
-- takes EBX and gives the entry and the next EBX.
pub record Bios : Type 0 where
  pub memory_size : Option ℕ
  pub extended_size : Option ℕ
  pub system_map : ℕ → Option (MmapEntry × ℕ)

-- The structs of the tags.
pub data BootTag : Type 0 where
  cmdline_tag bootloader_tag : List ℕ → BootTag
  module_tag : ℕ → ℕ → List ℕ → BootTag
  meminfo_tag : ℕ → ℕ → BootTag
  mmap_tag : List MmapEntry → BootTag
  acpi_old_tag acpi_new_tag : List ℕ → BootTag

unfoldable pub le32_bytes : ℕ → List ℕ
le32_bytes n = u8 n ∷ u8 (n / 2 ^ 8) ∷ u8 (n / 2 ^ 16) ∷ u8 (n / 2 ^ 24) ∷ []

unfoldable pub entry_bytes : List MmapEntry → List ℕ
entry_bytes [] = []
entry_bytes (e ∷ es) =
    le32_bytes e.base_addr
    ++ le32_bytes (e.base_addr / 2 ^ 32)
    ++ le32_bytes e.size
    ++ le32_bytes (e.size / 2 ^ 32)
    ++ le32_bytes e.type
    ++ le32_bytes 0
    ++ entry_bytes es

unfoldable pub tag_type : BootTag → ℕ
tag_type (cmdline_tag str) = 1
tag_type (bootloader_tag str) = 2
tag_type (module_tag first last name) = 3
tag_type (meminfo_tag lower upper) = 4
tag_type (mmap_tag es) = 6
tag_type (acpi_old_tag bytes) = 14
tag_type (acpi_new_tag bytes) = 15

-- The bytes behind the type and the size.
unfoldable pub tag_data : BootTag → List ℕ
tag_data (cmdline_tag str) = str ++ (0 ∷ [])
tag_data (bootloader_tag str) = str ++ (0 ∷ [])
tag_data (module_tag first last name) = le32_bytes first ++ le32_bytes last ++ name ++ (0 ∷ [])
tag_data (meminfo_tag lower upper) = le32_bytes lower ++ le32_bytes upper
tag_data (mmap_tag es) = le32_bytes 24 ++ le32_bytes 0 ++ entry_bytes es
tag_data (acpi_old_tag bytes) = bytes
tag_data (acpi_new_tag bytes) = bytes

-- what NEXT_TAG adds to a size
unfoldable pub pad_to_8 : ℕ → ℕ
pad_to_8 size = if size % 8 == 0 then 0 else 8 - size % 8

-- A tag at an address that 8 divides, up to the next one.
unfoldable pub tag_bytes : BootTag → List ℕ
tag_bytes t =
    let size = 8 + length (tag_data t) in
    le32_bytes (tag_type t) ++ le32_bytes size ++ tag_data t ++ replicate (pad_to_8 size) 0

unfoldable pub all_tag_bytes : List BootTag → List ℕ
all_tag_bytes [] = []
all_tag_bytes (t ∷ ts) = tag_bytes t ++ all_tag_bytes ts

-- `multiboot2_t` with its tags in the cleared buffer of MULTIBOOT2_PREALLOC bytes. Tags that do not
-- fit are written past the buffer's end.
unfoldable pub boot_info : List BootTag → List ℕ
boot_info ts =
    le32_bytes (8 + length (all_tag_bytes ts))
    ++ le32_bytes 0
    ++ all_tag_bytes ts
    ++ replicate (1024 - (8 + length (all_tag_bytes ts))) 0

-- "LBoot"
abbrev pub bootloader_name : List ℕ
bootloader_name = 76 ∷ 66 ∷ 111 ∷ 111 ∷ 116 ∷ []

unfoldable pub poptag_modules : List ConfigModule → List BootTag
poptag_modules [] = []
poptag_modules (m ∷ ms) =
    module_tag m.module_addr (u32 (m.module_addr + m.module_size)) m.module_name ∷ poptag_modules ms

unfoldable pub poptag_meminfo : Bios → Option BootTag
poptag_meminfo bios =
    let lower : ℕ = elim bios.memory_size [ none ↦ 640 | some kib ↦ kib ] in
    elim bios.extended_size [ none ↦ none | some kib ↦ some (meminfo_tag lower kib) ]

-- the switch on the type of an entry
unfoldable pub mmap_type : ℕ → ℕ
mmap_type type = if type == 1 then 1 else if type == 3 then 3 else if type == 4 then 4 else 0

-- The loop of `_mboot2_poptag_mmap` from EBX, on fuel for the calls.
unfoldable pub mmap_loop : Bios → ℕ → ℕ → Outcome (List MmapEntry)
mmap_loop bios zero ebx = no_fuel
mmap_loop bios (suc fuel) ebx = elim (bios.system_map ebx) [
  | none ↦ returns []
  | some (e, next) ↦
      (let entry : MmapEntry = record e { type = mmap_type e.type } in
        elim next [
          | zero ↦ returns (entry ∷ [])
          | suc n ↦ mmap_loop bios fuel (suc n) >>= λ es. returns (entry ∷ es)
        ])
]

-- `memcmp` with the seven bytes of the signature is 0.
unfoldable pub bytes_match : (ℕ → ℕ) → ℕ → List ℕ → Bool
bytes_match memory addr [] = true
bytes_match memory addr (c ∷ cs) =
    let rest = bytes_match memory (addr + 1) cs in if memory addr == c then rest else false

-- "RSD PTR"
abbrev pub rsdp_signature : List ℕ
rsdp_signature = 82 ∷ 83 ∷ 68 ∷ 32 ∷ 80 ∷ 84 ∷ 82 ∷ []

-- A region from `tst` on, by the number of its steps of 16 bytes.
unfoldable pub search_region : (ℕ → ℕ) → ℕ → ℕ → Option ℕ
search_region memory zero tst = none
search_region memory (suc steps) tst =
    let rest = search_region memory steps (tst + 16) in
    if bytes_match memory tst rsdp_signature then some tst else rest

-- The second region is searched where the first has nothing.
unfoldable pub or_else : Option ℕ → Option ℕ → Option ℕ
or_else none second = second
or_else (some a) second = some a

unfoldable pub find_acpi_rsdp : (ℕ → ℕ) → Option ℕ
find_acpi_rsdp memory =
    or_else (search_region memory 0x2000 0x80000) (search_region memory 0x2000 0xE0000)

unfoldable pub bytes_from : (ℕ → ℕ) → ℕ → ℕ → List ℕ
bytes_from memory zero addr = []
bytes_from memory (suc n) addr = memory addr ∷ bytes_from memory n (addr + 1)

unfoldable pub byte_sum : List ℕ → ℕ
byte_sum [] = 0
byte_sum (b ∷ bs) = u8 (b + byte_sum bs)

-- RSDPv1_SIZE is 20 and RSDPv2_SIZE is 36; the revision is the byte 15.
unfoldable pub acpiold_at : (ℕ → ℕ) → ℕ → Option BootTag
acpiold_at memory rsdp =
    if byte_sum (bytes_from memory 20 rsdp) == 0
    then some (acpi_old_tag (bytes_from memory 20 rsdp))
    else none

unfoldable pub acpinew_at : (ℕ → ℕ) → ℕ → Option BootTag
acpinew_at memory rsdp =
    if memory (rsdp + 15) == 2
    then if (byte_sum (bytes_from memory 20 rsdp) == 0)
        && (byte_sum (bytes_from memory 36 rsdp) == 0)
      then some (acpi_new_tag (bytes_from memory 36 rsdp))
      else none
    else none

-- A tag of the tables, left out where there is none.
unfoldable pub poptag_acpi : ((ℕ → ℕ) → ℕ → Option BootTag) → (ℕ → ℕ) → List BootTag
poptag_acpi at memory = elim (find_acpi_rsdp memory) [
  | none ↦ []
  | some rsdp ↦ elim (at memory rsdp) [ none ↦ [] | some t ↦ t ∷ [] ]
]
