-- ===== src/Exec/Elf.antt =====
-- src/exec/fmt/elf.c: the test, preparation and loading of ELF files, over the bytes of the file's
-- headers as the C code lays its structs over them. The read of the file is a parameter: from an
-- offset and a size to the bytes, or `none` where it returns another count.
use lboot.Base.{
  ℕ, zero, suc, ◌+◌, ◌-◌, ◌*◌, ◌^◌, List, [], ◌∷◌, Bool, ◌&&◌, ◌||◌, not, Option, none, some, ◌==◌,
  ltb, leb, if◌then◌else◌, length, replicate, get_or, u32, Status, ok, failed,
}

abbrev pub FileRead : Type 0
FileRead = ℕ → ℕ → Option (List ℕ)

abbrev pub le16_at : List ℕ → ℕ → ℕ
le16_at bytes k = get_or bytes k 0 + get_or bytes (k + 1) 0 * 2 ^ 8

abbrev pub le32_at : List ℕ → ℕ → ℕ
le32_at bytes k = le16_at bytes k + le16_at bytes (k + 2) * 2 ^ 16

-- The fields of `elf_header_t` that are used.
pub record ElfHeader : Type 0 where
  pub class : ℕ
  pub encoding : ℕ
  pub type : ℕ
  pub machine : ℕ
  pub entry : ℕ
  pub phoff : ℕ
  pub phentsize : ℕ
  pub phnum : ℕ

unfoldable pub elf_header : List ℕ → ElfHeader
elf_header bytes = record {
  class = get_or bytes 4 0;
  encoding = get_or bytes 5 0;
  type = le16_at bytes 16;
  machine = le16_at bytes 18;
  entry = le32_at bytes 24;
  phoff = le32_at bytes 28;
  phentsize = le16_at bytes 42;
  phnum = le16_at bytes 44;
}

pub record Phdr : Type 0 where
  pub type : ℕ
  pub offset : ℕ
  pub vaddr : ℕ
  pub paddr : ℕ
  pub filesz : ℕ
  pub memsz : ℕ

-- `edata->phdr[i]`: the entries are 32 bytes apart, whatever `phentsize` says.
unfoldable pub phdr_at : List ℕ → ℕ → Phdr
phdr_at bytes i =
    let at = i * 32 in
    record {
      type = le32_at bytes at;
      offset = le32_at bytes (at + 4);
      vaddr = le32_at bytes (at + 8);
      paddr = le32_at bytes (at + 12);
      filesz = le32_at bytes (at + 16);
      memsz = le32_at bytes (at + 20);
    }

-- The `n` program headers from `i` on.
unfoldable pub phdrs : List ℕ → ℕ → ℕ → List Phdr
phdrs bytes i zero = []
phdrs bytes i (suc n) = phdr_at bytes i ∷ phdrs bytes (suc i) n

pub record Exec : Type 0 where
  pub data_begin : ℕ
  pub data_end : ℕ
  pub entrypoint : ℕ
  pub segments : List Phdr
  pub memory : ℕ → ℕ

unfoldable pub elf_test : List ℕ → Bool
elf_test first_chunk = le32_at first_chunk 0 == 0x464c457f

unfoldable pub elf_init : Exec → Exec
elf_init exec = record exec { data_begin = 0xFFFFFFFF }

abbrev pub is_load : Phdr → Bool
is_load phdr = phdr.type == 1

-- `_elf_phdr_check`: no segment to load is below 1 MiB.
unfoldable pub phdr_check : List Phdr → Status
phdr_check [] = ok
phdr_check (p ∷ ps) =
    let rest = phdr_check ps in if is_load p && ltb p.vaddr 0x100000 then failed else rest

-- `_elf_prepare`; the headers are `sizeof(elf_header_t)`, 64 bytes.
unfoldable pub elf_prepare : FileRead → Exec → Option Exec
elf_prepare file_read exec = elim (file_read 0 64) [
  | none ↦ none
  | some bytes ↦
      let ehdr = elf_header bytes in
      if not (ehdr.class == 1) || (not (ehdr.encoding == 1) || not (ehdr.machine == 3))
      then none
      else if not (ehdr.type == 2)
      then none
      else if ltb ehdr.entry 0x100000
      then none
      else elim (file_read ehdr.phoff (ehdr.phentsize * ehdr.phnum)) [
        | none ↦ none
        | some table ↦
            let segments = phdrs table 0 ehdr.phnum in
            elim (phdr_check segments) [
              | ok ↦ some (record exec { entrypoint = ehdr.entry; segments = segments })
              | failed ↦ none
            ]
      ]
]

-- The bytes of a list put in memory from an address on.
unfoldable pub store : (ℕ → ℕ) → ℕ → List ℕ → ℕ → ℕ
store memory addr bytes a =
    if leb addr a && ltb a (addr + length bytes) then get_or bytes (a - addr) 0 else memory a

-- The bounds of what is loaded, moved to take in a segment.
unfoldable pub take_in : Phdr → Exec → Exec
take_in p exec = record exec {
  data_begin = if ltb p.paddr exec.data_begin then p.paddr else exec.data_begin;
  data_end =
      if ltb exec.data_end (u32 (p.paddr + p.memsz))
      then u32 (p.paddr + p.memsz)
      else exec.data_end;
}

-- The `memset` of what the file does not fill.
unfoldable pub clear_rest : Phdr → Exec → Exec
unfolding store
clear_rest p exec =
    if ltb p.filesz p.memsz
    then record exec {
      memory = store exec.memory (p.paddr + p.filesz) (replicate (p.memsz - p.filesz) 0);
    }
    else exec

-- The read of a segment from the file, for what it gives.
unfoldable pub fill : Option (List ℕ) → Phdr → Exec → Option Exec
fill none p exec = none
fill (some bytes) p exec = some (record exec { memory = store exec.memory p.paddr bytes })

-- A step of a function that returns early on a failure.
abbrev pub and_then : Option Exec → (Exec → Option Exec) → Option Exec
and_then none f = none
and_then (some exec) f = f exec

-- The part of `_elf_load_phdr` that loads one segment.
unfoldable pub load_one : FileRead → Phdr → Exec → Option Exec
unfolding fill
load_one file_read p exec =
    let bytes = if not (p.filesz == 0) then file_read p.offset p.filesz else some [] in
    and_then (fill bytes p (take_in p exec)) (λ filled. some (clear_rest p filled))

-- The loop of `_elf_load_phdr`.
unfoldable pub load_phdr : FileRead → List Phdr → Exec → Option Exec
load_phdr file_read [] exec = some exec
load_phdr file_read (p ∷ ps) exec =
    let loaded = if is_load p then load_one file_read p exec else some exec in
    and_then loaded (load_phdr file_read ps)

unfoldable pub elf_load : FileRead → Exec → Option Exec
elf_load file_read exec = load_phdr file_read exec.segments exec
