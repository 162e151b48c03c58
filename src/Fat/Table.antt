-- ===== src/Fat/Table.antt =====
-- src/storage/fs/fat.c: `_fat_get_fat_entry` and `_fat_get_next_cluster`.
use lboot.Base.{
  ℕ, ◌+◌, ◌-◌, ◌*◌, ◌/◌, ◌%◌, ◌^◌, ◌&&◌, ◌==◌, ltb, leb, if◌then◌else◌, u16, u32, bit_or, ◌<<<◌,
  ◌>>>◌,
}
use lboot.Fat.Cache.{Device, FatData, read_fat_data}

-- An entry takes a byte and a half. The two bytes are read apart where a cluster ends between them.
unfoldable pub get_fat_entry : Device → FatData → ℕ → ℕ × FatData
get_fat_entry device fdata clust_num =
    let fat_entry_offset = fdata.fat_offset + u32 (clust_num * 3) / 2 in
    let (fat_entry, fdata') =
      if fat_entry_offset % fdata.cluster_size == fdata.cluster_size - 1
      then (let (low, fdata1) = read_fat_data device fdata fat_entry_offset 1 in
          let (high, fdata2) = read_fat_data device fdata1 (fat_entry_offset + 1) 1 in
          (bit_or low (u32 (high <<< 8)), fdata2))
      else read_fat_data device fdata fat_entry_offset 2 in
    ((if clust_num % 2 == 1 then u16 fat_entry >>> 4 else u16 fat_entry) % 2 ^ 12, fdata')

-- The offset of the cluster after the one at `curr_clust`, or 0 at the end of the chain.
unfoldable pub next_data_cluster : FatData → ℕ → ℕ
next_data_cluster fdata fat_entry =
    if leb 2 fat_entry && leb fat_entry 4080
    then fdata.data_offset + (fat_entry - 2) * fdata.cluster_size
    else 0

unfoldable pub get_next_cluster : Device → FatData → ℕ → ℕ × FatData
get_next_cluster device fdata curr_clust =
    let clust_num = u32 ((curr_clust - fdata.data_offset) / fdata.cluster_size + 2) in
    let (fat_entry, fdata') = get_fat_entry device fdata clust_num in
    if ltb curr_clust fdata.data_offset
    then (if ltb curr_clust fdata.first_cluster
        then (0, fdata)
        else if ltb (curr_clust + fdata.cluster_size) fdata.data_offset
        then (curr_clust + fdata.cluster_size, fdata)
        else (0, fdata))
    else (next_data_cluster fdata fat_entry, fdata')
