-- ===== src/Fat/File.antt =====
-- src/storage/fs/fat.c: `_fat_file_read`. The scratch cluster that it allocates is always got here.
use lboot.Base.{
  ℕ, zero, suc, ◌+◌, ◌-◌, ◌/◌, ◌%◌, List, ◌++◌, Bool, ◌&&◌, not, Option, none, some, ◌==◌, ltb, leb,
  if◌then◌else◌, length, take, drop, u32, Outcome, returns, panics, no_fuel, ◌>>=◌,
}
use lboot.Fat.Cache.{Device, FatData}
use lboot.Fat.Table.{get_next_cluster}

-- A `file_hand_t` of this filesystem, with its `fat_file_data_t`.
pub record File : Type 0 where
  pub first_cluster : ℕ
  pub size : ℕ
  pub attr : ℕ

abbrev pub attr_file : ℕ
attr_file = 1

abbrev pub attr_directory : ℕ
attr_directory = 2

unfoldable pub is_directory : File → Bool
is_directory file = file.attr / 2 % 2 == 1

-- `memcpy` to offset `pos` of a buffer.
abbrev pub memcpy_at : List ℕ → ℕ → List ℕ → List ℕ
memcpy_at buf pos bytes = take pos buf ++ (bytes ++ drop (pos + length bytes) buf)

-- What `_fat_file_read` leaves: its result, where `none` is -1, the buffer, and the cache.
pub record Read : Type 0 where
  pub result : Option ℕ
  pub buf : List ℕ
  pub fdata : FatData

-- The first loop: the cluster that holds the offset, and the offset in it; none is the end of
-- the chain.
unfoldable pub seek : Device → ℕ → FatData → ℕ → ℕ → Outcome (Option ℕ × (ℕ × FatData))
seek device zero fdata cluster off = no_fuel
seek device (suc fuel) fdata cluster off =
    let (next, fdata') = get_next_cluster device fdata cluster in
    let rest = seek device fuel fdata' next (off - fdata.cluster_size) in
    if leb fdata.cluster_size off
    then (if next == 0 then returns (none, (off, fdata')) else rest)
    else returns (some cluster, (off, fdata))

-- The second loop: one cluster at a time, the offset being 0 from the second on.
unfoldable pub read_loop : Device → ℕ → FatData → ℕ → ℕ → ℕ → ℕ → List ℕ → Outcome Read
read_loop device zero fdata cluster off pos sz buf = no_fuel
read_loop device (suc fuel) fdata cluster off pos sz buf =
    let (next, fdata') = get_next_cluster device fdata cluster in
    let cs = fdata.cluster_size in
    let tmp = device cluster cs in
    if ltb pos sz
    then (elim tmp [
      | none ↦ returns (record { result = none; buf = buf; fdata = fdata })
      | some bytes ↦
          if leb (sz - pos) (cs - off)
          then (read_loop device fuel fdata cluster 0 (pos + cs) sz
              (memcpy_at buf pos (take (sz - pos) (drop off bytes))))
          else if next == 0
          then (returns (record {
            result = none;
            buf = memcpy_at buf pos (take (cs - off) bytes);
            fdata = fdata';
          }))
          else (read_loop device fuel fdata' next 0 (pos + cs) sz
              (memcpy_at buf pos (take (cs - off) bytes)))
    ])
    else returns (record { result = some sz; buf = buf; fdata = fdata })

-- Each pass of the first loop takes a cluster off `off`, and of the second adds one to `pos`.
unfoldable pub file_read : Device → FatData → File → List ℕ → ℕ → ℕ → Outcome Read
file_read device fdata file buf sz off =
    if not (is_directory file) && ltb file.size (u32 (off + sz))
    then panics
    else (seek device (suc off) fdata file.first_cluster off >>= λ found.
        let (cluster, rest) = found in
        let (off', fdata') = rest in
        elim cluster [
          | none ↦ returns (record { result = none; buf = buf; fdata = fdata' })
          | some c ↦ read_loop device (suc sz) fdata' c off' 0 sz buf
        ])
