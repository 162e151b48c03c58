-- ===== src/SectorMap/Tests.antt =====
-- A file of four clusters in two runs, and the theorems at it.
use lboot.Base.{◌/◌, ℕ, ◌≡◌, refl, arith, if◌then◌else◌, ◌==◌, List, [], ◌∷◌, map, some}
use lboot.SectorMap.{
  BootSector, FatHandle, fat_open, Pread, entry_bits, get_fat_entry, get_next_cluster,
  store_cluster, fat_get_file_clusters, n_clusters, SectorMapEntry, sector_of, breaks, n_chunks,
  map_loop, sector_map, round1, links,
}
use lboot.SectorMap.Clusters.{chain, fat_get_file_clusters-eq-chain}
use lboot.SectorMap.Expand.{expand, range}
use lboot.SectorMap.Runs.{EachPlaced, round1-expand}

abbrev boot : BootSector
boot = record {
  bytes_per_sector = 512;
  sectors_per_cluster = 1;
  reserved_sectors = 1;
  fat_copies = 2;
  root_dir_entries = 224;
  sectors_per_fat = 9;
}

-- The data begin at 0x4200; clusters 2, 3 and 5 have the next 3, 5 and 0xFFF.
abbrev floppy : FatHandle
floppy = record {
  cluster_size = 512;
  fat_offset = 512;
  fat_size = 4608;
  data_offset = 0x4200;
  bootsector = boot;
  root_first_cluster = 9728;
  root_size = 7168;
}

floppy_open : fat_open boot ≡ floppy
unfolding fat_open
floppy_open = refl

abbrev disk : Pread
disk offset n =
    if offset == 515
    then some (3 ∷ 0x50 ∷ [])
    else if offset == 516
    then some (0x50 ∷ 0 ∷ [])
    else some (0xFF ∷ 0xFF ∷ [])

abbrev file : List ℕ
file = 0x4200 ∷ 0x4400 ∷ 0x4800 ∷ []

file_chain : chain disk floppy (n_clusters 1100 512) 0x4200 ≡ some file
unfolding chain n_clusters store_cluster get_next_cluster get_fat_entry entry_bits
file_chain = refl

file_map : expand (sector_map floppy file) ≡ 33 ∷ 34 ∷ 36 ∷ []
unfolding expand range sector_map map_loop breaks n_chunks sector_of
file_map = refl

-- Round 2 on a map of two chunks.
file_links : links floppy 506 (0x4200 ∷ 0x5000 ∷ []) ≡ (506, 33) ∷ (0x43FC, 40) ∷ []
unfolding links sector_of
file_links = refl

fat_get_file_clusters-eq-chain_example :
    fat_get_file_clusters disk floppy 0x4200 1100 ≡ chain disk floppy (n_clusters 1100 512) 0x4200
fat_get_file_clusters-eq-chain_example =
    fat_get_file_clusters-eq-chain disk floppy 0x4200 1100 (omega arith)

round1-expand_example :
    (m : List SectorMapEntry) × (round1 disk floppy 0x4200 1100 ≡ some m)
    × (expand m ≡ map (λ c. c / 512) file)
unfolding EachPlaced
round1-expand_example =
    round1-expand floppy refl refl disk 0x4200 1100 file file_chain (omega arith) (omega arith)
      ((omega arith, omega arith), ((omega arith, omega arith), ((omega arith, omega arith), refl)))
