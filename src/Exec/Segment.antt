-- ===== src/Exec/Segment.antt =====
-- What `_elf_load_phdr` does for one segment, and what it is to have all in memory.
use lboot.Base.{
  ℕ, zero, suc, ◌+◌, ◌-◌, ◌^◌, ◌≤◌, ◌<◌, ◌≡◌, ◌≢◌, ◌⊎◌, ◌∙◌, ap, refl, List, [], ◌∷◌, Option, some,
  ◌==◌, ltb, leb, not, if◌then◌else◌, ◌&&◌, true, false, length, replicate, get_or, arith, inl, inr,
  length-replicate, Bool-cases,
}
use lboot.Exec.Elf.{FileRead, Phdr, Exec, store, take_in, clear_rest, fill, load_one}

-- A statement about every segment that is to be loaded.
pub data ForLoads (P : Phdr → Type 0) : List Phdr → Type 0 where
  no_more : ForLoads P []
  passed : (p : Phdr) (ps : List Phdr) → p.type ≢ 1 → ForLoads P ps → ForLoads P (p ∷ ps)
  loaded : (p : Phdr) (ps : List Phdr) → p.type ≡ 1 → P p → ForLoads P ps → ForLoads P (p ∷ ps)

abbrev pub Outside : ℕ → Phdr → Type 0
Outside a p = (a < p.paddr) ⊎ (p.paddr + p.memsz ≤ a)

abbrev pub Apart : Phdr → Phdr → Type 0
Apart p q = (p.paddr + p.memsz ≤ q.paddr) ⊎ (q.paddr + q.memsz ≤ p.paddr)

-- A segment whose file part is in the file and in its memory part, which ends below 4 GiB.
pub record Readable (file_read : FileRead) (p : Phdr) : Type 0 where
  pub bytes : List ℕ
  pub read : file_read p.offset p.filesz ≡ some bytes
  pub count : length bytes ≡ p.filesz
  pub fits : p.filesz ≤ p.memsz
  pub bounded : p.paddr + p.memsz < 2 ^ 32

-- Segments that do not overlap.
pub data Loadable (file_read : FileRead) : List Phdr → Type 0 where
  no_segment : Loadable file_read []
  other :
      (p : Phdr) (ps : List Phdr) → p.type ≢ 1 → Loadable file_read ps → Loadable file_read (p ∷ ps)
  segment :
      (p : Phdr) (ps : List Phdr)
      → p.type ≡ 1
      → Readable file_read p
      → ForLoads (Apart p) ps
      → Loadable file_read ps
      → Loadable file_read (p ∷ ps)

-- A segment in memory: the bytes of the file, and zeros after them.
pub record InMemory (file_read : FileRead) (memory : ℕ → ℕ) (p : Phdr) : Type 0 where
  pub bytes : List ℕ
  pub read : file_read p.offset p.filesz ≡ some bytes
  pub held : (k : ℕ) → k < p.filesz → memory (p.paddr + k) ≡ get_or bytes k 0
  pub cleared : (k : ℕ) → p.filesz ≤ k → k < p.memsz → memory (p.paddr + k) ≡ 0

pub record Within (exec : Exec) (p : Phdr) : Type 0 where
  pub from : exec.data_begin ≤ p.paddr
  pub to : p.paddr + p.memsz ≤ exec.data_end

-- The result of loading the segments `ps` from the state `exec`.
pub record Image (file_read : FileRead) (ps : List Phdr) (exec : Exec) (out : Option Exec)
    : Type 0 where
  pub after : Exec
  pub run : out ≡ some after
  pub in_memory : ForLoads (InMemory file_read after.memory) ps
  pub frame : (a : ℕ) → ForLoads (Outside a) ps → after.memory a ≡ exec.memory a
  pub within : ForLoads (Within after) ps
  pub begin_le : after.data_begin ≤ exec.data_begin
  pub end_le : exec.data_end ≤ after.data_end
  pub same_entry : after.entrypoint ≡ exec.entrypoint

-- What loading one segment does.
pub record One (file_read : FileRead) (p : Phdr) (exec : Exec) (out : Option Exec) : Type 0 where
  pub after : Exec
  pub run : out ≡ some after
  pub in_memory : InMemory file_read after.memory p
  pub frame : (a : ℕ) → Outside a p → after.memory a ≡ exec.memory a
  pub within : Within after p
  pub begin_le : after.data_begin ≤ exec.data_begin
  pub end_le : exec.data_end ≤ after.data_end
  pub same_entry : after.entrypoint ≡ exec.entrypoint

pub store_in :
    (memory : ℕ → ℕ) (addr : ℕ) (bytes : List ℕ) (a k : ℕ)
    → a ≡ addr + k
    → k < length bytes
    → store memory addr bytes a ≡ get_or bytes k 0
unfolding store
store_in memory addr bytes a k e lt =
    let inside : (leb addr a && ltb a (addr + length bytes)) ≡ true = ground arith in
    rw inside (ap (λ t. get_or bytes t 0) (omega arith))

pub store_out :
    (memory : ℕ → ℕ) (addr : ℕ) (bytes : List ℕ) (a : ℕ)
    → (a < addr) ⊎ (addr + length bytes ≤ a)
    → store memory addr bytes a ≡ memory a
unfolding store
store_out memory addr bytes a out =
    let outside : (leb addr a && ltb a (addr + length bytes)) ≡ false = ground (arith, out) in
    rw outside refl

zeros : ℕ → List ℕ
zeros n = replicate n 0

get_or-zeros : (n k : ℕ) → k < n → get_or (zeros n) k 0 ≡ zero
unfolding zeros
get_or-zeros zero k h = absurd (omega arith)
get_or-zeros (suc n) zero h = refl
get_or-zeros (suc n) (suc k) h = get_or-zeros n k (omega arith)

no_bytes : (bytes : List ℕ) → length bytes ≡ 0 → [] ≡ bytes
no_bytes [] h = refl
no_bytes (b ∷ bs) h = absurd (omega arith)

-- An empty file part is not read.
read_bytes :
    (file_read : FileRead) (p : Phdr) (r : Readable file_read p)
    → (if not (p.filesz == 0) then file_read p.offset p.filesz else some []) ≡ some r.bytes
read_bytes file_read p r = elim (Bool-cases (p.filesz == 0)) [
  | inl e ↦ rw e (ap some (no_bytes r.bytes (ground (arith, r.count))))
  | inr e ↦ rw e r.read
]

module _ (file_read : FileRead) (p : Phdr) (r : Readable file_read p) (exec : Exec) where
  abbrev filled : Exec
  filled = record (take_in p exec) { memory = store exec.memory p.paddr r.bytes }

  -- The memory after the segment is loaded, given address by address.
  module _ (memory : ℕ → ℕ)
      (in_file : (k : ℕ) → k < p.filesz → memory (p.paddr + k) ≡ get_or r.bytes k 0)
      (in_rest : (k : ℕ) → p.filesz ≤ k → k < p.memsz → memory (p.paddr + k) ≡ 0)
      (out : (a : ℕ) → Outside a p → memory a ≡ exec.memory a) where
    filled-One :
        (result : Option Exec)
        → result ≡ some (record filled { memory = memory })
        → One file_read p exec result
    unfolding take_in
    filled-One result run = record {
      after = record filled { memory = memory };
      run = run;
      in_memory = record { bytes = r.bytes; read = r.read; held = in_file; cleared = in_rest };
      frame = out;
      within = record { from = ground arith; to = ground (arith, r.bounded) };
      begin_le = ground arith;
      end_le = ground arith;
      same_entry = refl;
    }

  pub load_one-One : One file_read p exec (load_one file_read p exec)
  unfolding load_one fill clear_rest zeros take_in
  load_one-One =
      let bytes = read_bytes file_read p r in
      let file_part = store exec.memory p.paddr r.bytes in
      elim (Bool-cases (ltb p.filesz p.memsz)) [
        | inl e ↦
            let size : length (zeros (p.memsz - p.filesz)) ≡ p.memsz - p.filesz =
              length-replicate (p.memsz - p.filesz) zero in
            let rest = store file_part (p.paddr + p.filesz) (zeros (p.memsz - p.filesz)) in
            filled-One rest
              (λ k lt.
                store_out file_part (p.paddr + p.filesz) (zeros (p.memsz - p.filesz)) (p.paddr + k)
                  (inl (omega arith))
                ∙ store_in exec.memory p.paddr r.bytes (p.paddr + k) k refl
                    (omega (arith, r.count)))
              (λ k ge lt.
                store_in file_part (p.paddr + p.filesz) (zeros (p.memsz - p.filesz)) (p.paddr + k)
                  (k - p.filesz) (omega arith) (omega (arith, size))
                ∙ get_or-zeros (p.memsz - p.filesz) (k - p.filesz) (omega arith))
              (λ a o.
                store_out file_part (p.paddr + p.filesz) (zeros (p.memsz - p.filesz)) a
                  (ground (arith, o, size, r.fits))
                ∙ store_out exec.memory p.paddr r.bytes a (ground (arith, o, r.count, r.fits)))
              (load_one file_read p exec) (rw (bytes, e) refl)
        | inr e ↦
            filled-One file_part
              (λ k lt.
                store_in exec.memory p.paddr r.bytes (p.paddr + k) k refl (omega (arith, r.count)))
              (λ k ge lt. absurd (ground arith))
              (λ a o. store_out exec.memory p.paddr r.bytes a (ground (arith, o, r.count, r.fits)))
              (load_one file_read p exec) (rw (bytes, e) refl)
      ]
