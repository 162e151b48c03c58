-- ===== src/Exec/Tests.antt =====
-- Two segments of a small file.
use lboot.Base.{ℕ, ◌+◌, refl, arith, List, [], ◌∷◌, some, take, drop, inl}
use lboot.Exec.Elf.{FileRead, Phdr, Exec, load_phdr}
use lboot.Exec.Modules.{Module, load_modules}
use lboot.Exec.Placement.{Files, Opens, no_files, AllPlaced, load_modules-AllPlaced}
use lboot.Exec.Segment.{Image, Loadable, no_segment, segment, no_more, loaded}
use lboot.Exec.Segments.{load_phdr-Image}

abbrev file : List ℕ
file = 1 ∷ 2 ∷ 3 ∷ 4 ∷ 5 ∷ []

abbrev image_read : FileRead
image_read off sz = some (take sz (drop off file))

abbrev code : Phdr
code = record { type = 1; offset = 0; vaddr = 0x100000; paddr = 0x100000; filesz = 2; memsz = 2 }

abbrev vars : Phdr
vars = record { type = 1; offset = 2; vaddr = 0x100010; paddr = 0x100010; filesz = 3; memsz = 5 }

abbrev segments : List Phdr
segments = code ∷ vars ∷ []

abbrev empty : Exec
empty = record {
  data_begin = 0xFFFFFFFF;
  data_end = 0;
  entrypoint = 0x100000;
  segments = segments;
  memory = λ a. 9;
}

segments-Loadable : Loadable image_read segments
segments-Loadable =
    segment code (vars ∷ []) refl
      (record {
        bytes = 1 ∷ 2 ∷ [];
        read = refl;
        count = refl;
        fits = omega arith;
        bounded = omega arith;
      })
      (loaded vars [] refl (inl (omega arith)) no_more)
      (segment vars [] refl
        (record {
          bytes = 3 ∷ 4 ∷ 5 ∷ [];
          read = refl;
          count = refl;
          fits = omega arith;
          bounded = omega arith;
        })
        no_more no_segment)

load_phdr-Image_example : Image image_read segments empty (load_phdr image_read segments empty)
load_phdr-Image_example = load_phdr-Image image_read segments empty segments-Loadable

abbrev one_file : Files
one_file path = some (7 ∷ 8 ∷ 9 ∷ [])

abbrev two_modules : List Module
two_modules =
    record { path = 65 ∷ []; addr = 0; size = 0 }
    ∷ record { path = 66 ∷ []; addr = 0; size = 0 }
    ∷ []

load_modules-AllPlaced_example :
    AllPlaced one_file 0x100015 two_modules
      (λ a. 0)
      (load_modules one_file 0x100015 two_modules (λ a. 0))
load_modules-AllPlaced_example =
    load_modules-AllPlaced one_file 0x100015 two_modules (λ a. 0) 22
      (file_of (65 ∷ []) (file_of (66 ∷ []) no_files)) (omega arith)
  where
    file_of :
        {ms : List Module} {room : ℕ} (path : List ℕ)
        → Opens one_file ms room
        → Opens one_file (record { path = path; addr = 0; size = 0 } ∷ ms) (8 + 3 + room)
    file_of path rest = Opens.file _ _ (7 ∷ 8 ∷ 9 ∷ []) _ refl rest
