-- ===== src/Fat/Tests.antt =====
-- A filesystem of two-byte clusters, and the theorems at it.
use native.Mathlib.Nat.{mod-lt}
use lboot.Base.{
  ℕ, zero, suc, ◌%◌, ◌<◌, ◌≡◌, ◌↔◌, refl, arith, List, [], ◌∷◌, ◌++◌, inl, inr, get_or, replicate,
  take, drop, true, none, some,
}
use mathlib.Core.Option
use lboot.Fat.Cache.{FatData}
use lboot.Fat.Table.{next_data_cluster, get_fat_entry}
use lboot.Fat.File.{File, file_read}
use lboot.Fat.Find.{BootSector, fs_fat_init, same_name, skip_spaces, only_spaces, fat_strcmp}
use lboot.Fat.Disk.{bytes_at, holding, fat12, Coherent, Geometry}
use lboot.Fat.Entries.{Fetched, get_fat_entry_fetches}
use lboot.Fat.Chain.{next_of, Chain, chain_end, chain_step, contents}
use lboot.Fat.Names.{no_chars, one_char, padded}
use lboot.Fat.Matches.{fat_strcmp_iff}
use lboot.Fat.Contents.{Copied, file_read-eq-contents}

-- The FAT at 2 leads from cluster 2, at 10, to cluster 3, at 12, which is the last.
abbrev image : List ℕ
image = 0 ∷ 0 ∷ 0 ∷ 0 ∷ 0 ∷ 3 ∷ 0xF0 ∷ 0xFF ∷ 0 ∷ 0 ∷ 65 ∷ 66 ∷ 67 ∷ 68 ∷ []

abbrev disk : ℕ → ℕ
disk a = get_or image a 0 % 256

disk_small : (a : ℕ) → disk a < 256
disk_small a = mod-lt (get_or image a 0) (omega arith)

abbrev mounted : FatData
mounted = record {
  sector_size = 2;
  cluster_size = 2;
  fat_offset = 2;
  fat_size = 6;
  data_offset = 10;
  first_cluster = 8;
  clust = replicate 4 0;
  rank = replicate 4 0;
  buf = replicate 4 [];
}

mounted-Geometry : Geometry mounted
mounted-Geometry = record {
  per_cluster = 1;
  sectors = 1;
  some_sectors = omega arith;
  big_sector = omega arith;
  whole = refl;
  at_sector = refl;
}

abbrev no_cluster : List ℕ
no_cluster = replicate 4 0

none_cached : (i : ℕ) → get_or no_cluster i 0 ≡ 0
none_cached zero = refl
none_cached (suc zero) = refl
none_cached (suc (suc zero)) = refl
none_cached (suc (suc (suc zero))) = refl
none_cached (suc (suc (suc (suc i)))) = refl

mounted-Coherent : Coherent disk mounted
mounted-Coherent = record {
  clusts = refl;
  ranks = refl;
  bufs = refl;
  agree = λ i lt fat. absurd (omega (arith, fat, none_cached i));
}

mounted-Chain : Chain disk mounted 10 (10 ∷ 12 ∷ [])
unfolding next_of fat12 next_data_cluster
mounted-Chain =
    chain_step 10 (12 ∷ []) (omega arith) (omega arith) (chain_end 12 (omega arith) (omega arith))

abbrev small_file : File
small_file = record { first_cluster = 10; size = 4; attr = 1 }

get_fat_entry_fetches_example :
    Fetched disk mounted (fat12 disk 2 3) (get_fat_entry (holding disk) mounted 3)
get_fat_entry_fetches_example =
    get_fat_entry_fetches disk disk_small mounted 3 mounted-Geometry mounted-Coherent (omega arith)

file_read-eq-contents_example :
    Copied disk mounted 3
      (take 3 (drop 0 (contents disk mounted (10 ∷ 12 ∷ []))) ++ drop 3 (9 ∷ 9 ∷ 9 ∷ 9 ∷ []))
      (file_read (holding disk) mounted small_file (9 ∷ 9 ∷ 9 ∷ 9 ∷ []) 3 0)
unfolding contents bytes_at
file_read-eq-contents_example =
    file_read-eq-contents disk disk_small mounted mounted-Geometry small_file (10 ∷ 12 ∷ [])
      (9 ∷ 9 ∷ 9 ∷ 9 ∷ []) 3 0 mounted-Coherent mounted-Chain (omega arith) (omega arith)
      (inr (omega arith)) (inl refl)

-- A name without an extension is found under a name with one.
fat_strcmp_short : fat_strcmp (65 ∷ 66 ∷ replicate 9 32) (65 ∷ 46 ∷ 66 ∷ []) ≡ true
unfolding fat_strcmp same_name skip_spaces only_spaces
fat_strcmp_short = refl

-- "AB", "CD" and "C"
abbrev two_letters : List ℕ
two_letters = 65 ∷ 66 ∷ []

abbrev held_ext : List ℕ
held_ext = 67 ∷ 68 ∷ []

abbrev name_ext : List ℕ
name_ext = 67 ∷ []

fat_strcmp_iff_example :
    (fat_strcmp (padded two_letters held_ext ++ (0 ∷ [])) (name_ext ++ (46 ∷ name_ext)) ≡ true)
    ↔ ((two_letters ≡ name_ext) × (held_ext ≡ name_ext))
fat_strcmp_iff_example =
    fat_strcmp_iff two_letters 67 (68 ∷ []) name_ext 67 [] (0 ∷ [])
      (one_char 65 (66 ∷ []) (omega arith) (omega arith)
        (one_char 66 [] (omega arith) (omega arith) no_chars))
      (one_char 67 (68 ∷ []) (omega arith) (omega arith)
        (one_char 68 [] (omega arith) (omega arith) no_chars))
      (one_char 67 [] (omega arith) (omega arith) no_chars)
      (one_char 67 [] (omega arith) (omega arith) no_chars) (inr (omega arith)) (omega arith)
      (omega arith) (omega arith)

abbrev boot : BootSector
boot = record {
  bytes_per_sector = 512;
  sectors_per_cluster = 1;
  reserved_sectors = 1;
  fat_copies = 2;
  root_dir_entries = 224;
  sectors_per_fat = 9;
}

-- A failed read of the boot sector ends the set-up; else the root directory is behind the FATs.
fs_fat_init_ends : fs_fat_init mounted none ≡ none
unfolding fs_fat_init
fs_fat_init_ends = refl

fs_fat_init_root : Option.map (λ f. f.data_offset) (fs_fat_init mounted (some boot)) ≡ some 16896
unfolding fs_fat_init
fs_fat_init_root = refl
