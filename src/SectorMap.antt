-- ===== src/SectorMap.antt =====
-- tools/sector_mapper: src/fat.c, src/main.c, inc/fat.h and inc/sector_map.h, the host tool that
-- writes the map of the sectors of the second stage. The image is what `pread` gives for an offset
-- and a length, none where it fails; offsets have 64 bits and stay below.
pub mod Clusters
pub mod Expand
pub mod Runs
mod Tests
use lboot.Base.{
  ℕ, zero, suc, ◌+◌, ◌-◌, ◌*◌, ◌/◌, ◌%◌, ◌^◌, List, [], ◌∷◌, Bool, true, false, ◌&&◌, not, ltb, leb,
  ◌==◌, if◌then◌else◌, Option, some, none, get_or, set, length, replicate, u16, u32,
}

-- The fields of `fat_bootsector_t` that are read.
pub record BootSector : Type 0 where
  pub bytes_per_sector : ℕ
  pub sectors_per_cluster : ℕ
  pub reserved_sectors : ℕ
  pub fat_copies : ℕ
  pub root_dir_entries : ℕ
  pub sectors_per_fat : ℕ

-- `fat_handle_t`
pub record FatHandle : Type 0 where
  pub cluster_size : ℕ
  pub fat_offset : ℕ
  pub fat_size : ℕ
  pub data_offset : ℕ
  pub bootsector : BootSector
  pub root_first_cluster : ℕ
  pub root_size : ℕ

-- `fat_open` once the boot sector is read; a directory entry has 32 bytes.
unfoldable pub fat_open : BootSector → FatHandle
fat_open b =
    let offset = b.reserved_sectors * b.bytes_per_sector in
    let size = b.sectors_per_fat * b.bytes_per_sector in
    let root = offset + size * b.fat_copies in
    let root_bytes = b.root_dir_entries * 32 in
    record {
      cluster_size = b.sectors_per_cluster * b.bytes_per_sector;
      fat_offset = offset;
      fat_size = size;
      data_offset = root + root_bytes;
      bootsector = b;
      root_first_cluster = root;
      root_size = root_bytes;
    }

abbrev pub Pread : Type 0
Pread = ℕ → ℕ → Option (List ℕ)

-- the 12 bits of an entry in the two bytes that hold it
unfoldable pub entry_bits : ℕ → ℕ → ℕ
entry_bits cluster_num word = (if cluster_num % 2 == 1 then word / 2 ^ 4 else word) % 2 ^ 12

-- `_get_fat_entry`: none of the two bytes is the error 0xFFFFFFFF.
unfoldable pub get_fat_entry : Pread → FatHandle → ℕ → ℕ
get_fat_entry pread hand cluster_num = elim (pread (hand.fat_offset + cluster_num * 3 / 2) 2) [
  | none ↦ 0xFFFFFFFF
  | some bytes ↦ entry_bits cluster_num (get_or bytes 0 0 + get_or bytes 1 0 * 2 ^ 8)
]

-- `_get_next_cluster`; 0 is no cluster.
unfoldable pub get_next_cluster : Pread → FatHandle → ℕ → ℕ
get_next_cluster pread hand cluster =
    if ltb cluster hand.data_offset
    then if ltb cluster hand.root_first_cluster
      then 0
      else if ltb (cluster + hand.cluster_size) hand.data_offset
      then cluster + hand.cluster_size
      else 0
    else (let entry =
          get_fat_entry pread hand ((cluster - hand.data_offset) / hand.cluster_size + 2) in
        if leb 2 entry && ltb entry 0xFF0
        then hand.data_offset + (entry - 2) * hand.cluster_size
        else 0)

-- One cluster stored before the rest, if the rest does not fail.
unfoldable pub store_cluster : ℕ → Option (List ℕ) → Option (List ℕ)
store_cluster c none = none
store_cluster c (some cs) = some (c ∷ cs)

-- The loop of `fat_get_file_clusters` at `pos` and `clust`, on fuel: what it stores, or its failure.
unfoldable pub clusters_loop : Pread → FatHandle → ℕ → ℕ → ℕ → ℕ → Option (List ℕ)
clusters_loop pread hand size zero pos clust = none
clusters_loop pread hand size (suc fuel) pos clust =
    let rest =
      clusters_loop pread hand size fuel (pos + hand.cluster_size)
        (get_next_cluster pread hand clust) in
    if ltb pos size then if clust == 0 then none else store_cluster (u32 clust) rest else some []

-- A file of `size` bytes takes at most `size` rounds and one more.
unfoldable pub fat_get_file_clusters : Pread → FatHandle → ℕ → ℕ → Option (List ℕ)
fat_get_file_clusters pread hand first_cluster size =
    clusters_loop pread hand size (suc size) 0 first_cluster

-- `n_clusters` of `_round1` and `_round2`
unfoldable pub n_clusters : ℕ → ℕ → ℕ
n_clusters size cluster_size =
    if size % cluster_size == 0 then size / cluster_size else size / cluster_size + 1

-- `sector_map_entry_t`
pub record SectorMapEntry : Type 0 where
  pub sector : ℕ
  pub count : ℕ

abbrev pub no_entry : SectorMapEntry
no_entry = record { sector = 0; count = 0 }

abbrev pub sector_map_entries : ℕ
sector_map_entries = 127

-- the sector at which a cluster stands
unfoldable pub sector_of : FatHandle → ℕ → ℕ
sector_of hand cluster = u16 (cluster / hand.cluster_size * hand.bootsector.sectors_per_cluster)

-- The first loop of `_round1` over the clusters: the runs that begin after `prev`.
unfoldable pub breaks : FatHandle → ℕ → List ℕ → ℕ
breaks hand prev [] = 0
breaks hand prev (c ∷ cs) =
    let rest = breaks hand c cs in if c == prev + hand.cluster_size then rest else suc rest

unfoldable pub n_chunks : ℕ → ℕ
n_chunks entries =
    if entries % sector_map_entries == 0
    then entries / sector_map_entries
    else entries / sector_map_entries + 1

-- The second loop, at `c_chunk` and `c_map`; the entries of all chunks stand in one list.
unfoldable pub map_loop : FatHandle → ℕ → List ℕ → ℕ → ℕ → List SectorMapEntry → List SectorMapEntry
map_loop hand prev [] c_chunk c_map chunks = chunks
map_loop hand prev (c ∷ cs) c_chunk c_map chunks =
    let follows = c == prev + hand.cluster_size in
    let full = leb sector_map_entries (c_map + 1) in
    let next_map = if full then 0 else c_map + 1 in
    let next_chunk = if full then c_chunk + 1 else c_chunk in
    let here = c_chunk * sector_map_entries + c_map in
    let there = next_chunk * sector_map_entries + next_map in
    let run = get_or chunks here no_entry in
    let counted = set chunks here (record run { count = u16 (run.count + 1) }) in
    let started = set chunks there (record { sector = sector_of hand c; count = 1 }) in
    map_loop hand c cs (if follows then c_chunk else next_chunk)
      (if follows then c_map else next_map) (if follows then counted else started)

-- The chunks that `_round1` writes, for the clusters of the second stage. With no cluster the first
-- entry still stands for one, read past the end of the array.
unfoldable pub sector_map : FatHandle → List ℕ → List SectorMapEntry
sector_map hand [] =
    set (replicate sector_map_entries no_entry) 0 (record { sector = sector_of hand 0; count = 1 })
sector_map hand (c ∷ cs) =
    let table = replicate (n_chunks (1 + breaks hand c cs) * sector_map_entries) no_entry in
    map_loop hand c cs 0 0 (set table 0 (record { sector = sector_of hand c; count = 1 }))

-- `_round1` from the opened image and the found file on; none is each of its failures.
unfoldable pub round1 : Pread → FatHandle → ℕ → ℕ → Option (List SectorMapEntry)
round1 pread hand first_cluster size =
    if hand.cluster_size == 512
    then elim (fat_get_file_clusters pread hand first_cluster size) [
      | none ↦ none
      | some clusters ↦ some (sector_map hand clusters)
    ]
    else none

-- The loop of `_round2` from `pre_addr`: the 16-bit words that are written, with their offsets. The
-- pointer in a chunk is at 508, and that in the boot sector at 506.
unfoldable pub links : FatHandle → ℕ → List ℕ → List (ℕ × ℕ)
links hand pre_addr [] = []
links hand pre_addr (c ∷ cs) = (pre_addr, sector_of hand c) ∷ links hand (c + 508) cs

unfoldable pub round2 : Pread → FatHandle → ℕ → ℕ → Option (List (ℕ × ℕ))
round2 pread hand first_cluster size =
    if hand.cluster_size == 512
    then elim (fat_get_file_clusters pread hand first_cluster size) [
      | none ↦ none
      | some clusters ↦ some (links hand 506 clusters)
    ]
    else none
