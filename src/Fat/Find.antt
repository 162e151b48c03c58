-- ===== src/Fat/Find.antt =====
-- src/storage/fs/fat.c: `_fat_strcmp`, `_fat_pop_file`, `_fat_fs_find` and `fs_fat_init`.
use lboot.Base.{
  ℕ, zero, suc, ◌+◌, ◌-◌, ◌*◌, ◌/◌, ◌%◌, List, [], ◌∷◌, Bool, true, false, ◌&&◌, Option, none, some,
  ◌==◌, if◌then◌else◌, take, drop, get_or, replicate, u16, u32, Outcome, returns, no_fuel, ◌>>=◌,
}
use lboot.Fat.Cache.{Device, FatData, le32}
use lboot.Fat.File.{File, attr_file, attr_directory, file_read}

-- A directory entry is its 32 bytes, the name in the first eleven. `fat_name + fidx` is the bytes
-- from `fidx` on, and a name is its characters without the final NUL.
unfoldable pub skip_spaces : ℕ → List ℕ → ℕ × List ℕ
skip_spaces fidx [] = (fidx, [])
skip_spaces fidx (f ∷ fs) =
    let rest = skip_spaces (suc fidx) fs in if f == 32 then rest else (fidx, f ∷ fs)

-- The second loop of `_fat_strcmp`, over the `n` bytes up to the eleventh.
unfoldable pub only_spaces : ℕ → List ℕ → Bool
only_spaces zero fs = true
only_spaces (suc n) [] = true
only_spaces (suc n) (f ∷ fs) = (f == 32) && only_spaces n fs

-- Whether `_fat_strcmp` gives 0, from `fidx` on.
unfoldable pub same_name : ℕ → List ℕ → List ℕ → Bool
same_name fidx fs [] = only_spaces (11 - fidx) fs
same_name fidx fs (c ∷ cs) =
    if c == 46
    then (let (fidx', fs') = skip_spaces fidx fs in same_name fidx' fs' cs)
    else elim fs [ [] ↦ false | f ∷ fs' ↦ (f == c) && same_name (suc fidx) fs' cs ]

unfoldable pub fat_strcmp : List ℕ → List ℕ → Bool
fat_strcmp fat_name filename = same_name 0 fat_name filename

abbrev pub dirent_size : ℕ
dirent_size = 32

unfoldable pub dirent_attr : List ℕ → ℕ
dirent_attr dent = get_or dent 11 0

-- The entry is no volume label, device or reserved entry.
unfoldable pub is_listed : List ℕ → Bool
unfolding dirent_attr
is_listed dent =
    let attr = dirent_attr dent in
    (attr / 8 % 2 == 0) && ((attr / 64 % 2 == 0) && (attr / 128 % 2 == 0))

-- `start_cluster - 2` is an `int`: entries of an empty file, with cluster 0, give a start two
-- clusters before the data.
unfoldable pub pop_file : FatData → List ℕ → File
unfolding dirent_attr
pop_file fdata dent = record {
  first_cluster =
      fdata.data_offset + u16 (le32 dent 26) * fdata.cluster_size - 2 * fdata.cluster_size;
  size = le32 dent 28;
  attr = if dirent_attr dent / 16 % 2 == 1 then attr_directory else attr_file;
}

-- The `for` loop of `_fat_fs_find`: the first entry of this name among `n`.
unfoldable pub search : ℕ → List ℕ → List ℕ → Option (List ℕ)
search zero dirents name = none
search (suc n) dirents name =
    let rest = search n (drop dirent_size dirents) name in
    if fat_strcmp dirents name && is_listed dirents then some (take dirent_size dirents) else rest

-- The `while` loop: one cluster of the directory at a time, until a read fails.
unfoldable pub find_loop :
    Device → ℕ → FatData → File → List ℕ → ℕ → Outcome (Option File × FatData)
find_loop device zero fdata dir name pos = no_fuel
find_loop device (suc fuel) fdata dir name pos =
    let cs = fdata.cluster_size in
    file_read device fdata dir (replicate cs 0) cs pos >>= λ r.
    let rest = find_loop device fuel r.fdata dir name (pos + cs) in
    elim r.result [
      | none ↦ returns (none, r.fdata)
      | some sz ↦ elim (search (cs / dirent_size) r.buf name) [
        | some dent ↦ returns (some (pop_file r.fdata dent), r.fdata)
        | none ↦ rest
      ]
    ]

unfoldable pub rootdir : FatData → File
rootdir fdata = record { first_cluster = fdata.first_cluster; size = 0; attr = attr_directory }

-- A null `dir` is the root directory.
unfoldable pub start_directory : FatData → Option File → File
unfolding rootdir
start_directory fdata none = rootdir fdata
start_directory fdata (some dir) = dir

unfoldable pub is_dot : List ℕ → Bool
is_dot [] = false
is_dot (c ∷ []) = c == 46
is_dot (c ∷ (c' ∷ cs)) = false

unfoldable pub fs_find :
    Device → ℕ → FatData → Option File → List ℕ → Outcome (Option File × FatData)
fs_find device fuel fdata dir name =
    let from = start_directory fdata dir in
    if is_dot name then returns (some from, fdata) else find_loop device fuel fdata from name 0

-- What `fs_fat_init` reads from the boot sector.
pub record BootSector : Type 0 where
  pub bytes_per_sector : ℕ
  pub sectors_per_cluster : ℕ
  pub reserved_sectors : ℕ
  pub fat_copies : ℕ
  pub root_dir_entries : ℕ
  pub sectors_per_fat : ℕ

-- `memory` is what the allocated `fat_data_t` held: the cache is not cleared. The boot sector is none
-- where its read fails.
unfoldable pub fs_fat_init : FatData → Option BootSector → Option FatData
fs_fat_init memory none = none
fs_fat_init memory (some bootsec) =
    let fat_offset = u32 (bootsec.reserved_sectors * bootsec.bytes_per_sector) in
    let fat_size = u32 (bootsec.sectors_per_fat * bootsec.bytes_per_sector) in
    let first_cluster = u32 (fat_offset + fat_size * bootsec.fat_copies) in
    some (record memory {
      sector_size = bootsec.bytes_per_sector;
      cluster_size = u16 (bootsec.sectors_per_cluster * bootsec.bytes_per_sector);
      fat_offset = fat_offset;
      fat_size = fat_size;
      data_offset = u32 (first_cluster + bootsec.root_dir_entries * dirent_size);
      first_cluster = first_cluster;
    })
