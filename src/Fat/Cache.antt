-- ===== src/Fat/Cache.antt =====
-- src/storage/fs/fat.c: the geometry, the cache of clusters of the FAT, and the reads through it.
-- The device is a function from an offset and a size to the bytes read, or `none` where the driver
-- returns another count. An offset is an `off_t` that is not negative.
use lboot.Base.{
  ℕ, zero, suc, ◌+◌, ◌-◌, ◌*◌, ◌%◌, ◌^◌, List, [], Option, none, some, ◌==◌, ltb, not,
  if◌then◌else◌, get_or, set, u8, u16, u32,
}

abbrev pub Device : Type 0
Device = ℕ → ℕ → Option (List ℕ)

-- `cache.buf` is held as one list of bytes for each cached cluster.
pub record FatData : Type 0 where
  pub sector_size : ℕ
  pub cluster_size : ℕ
  pub fat_offset : ℕ
  pub fat_size : ℕ
  pub data_offset : ℕ
  pub first_cluster : ℕ
  pub clust : List ℕ
  pub rank : List ℕ
  pub buf : List (List ℕ)

abbrev pub cache_cnt : ℕ
cache_cnt = 4

-- The loop of `_fat_cache_touch`: `n` entries from `i` on.
unfoldable pub touch_loop : ℕ → ℕ → ℕ → List ℕ → List ℕ
touch_loop zero i idx rank = rank
touch_loop (suc n) i idx rank = touch_loop n (suc i) idx (
    if i == idx
    then rank
    else if ltb (get_or rank i 0) (get_or rank idx 0)
    then set rank i (u8 (get_or rank i 0 + 1))
    else rank)

unfoldable pub touch : ℕ → List ℕ → List ℕ
unfolding touch_loop
touch idx rank = set (touch_loop cache_cnt 0 idx rank) idx 0

unfoldable pub cache_touch : FatData → ℕ → FatData
cache_touch fdata idx = record fdata { rank = touch idx fdata.rank }

-- The search of `_fat_try_cache`: the bytes of a hit, and the ranks after it.
unfoldable pub try_loop : ℕ → ℕ → FatData → ℕ → Option (List ℕ) × FatData
try_loop zero i fdata clust = (none, fdata)
try_loop (suc n) i fdata clust =
    let rest = try_loop n (suc i) fdata clust in
    if get_or fdata.clust i 0 == clust
    then (
      some (get_or fdata.buf i []),
      if not (get_or fdata.rank i 0 == 0) then cache_touch fdata i else fdata,
    )
    else rest

unfoldable pub try_cache : FatData → ℕ → Option (List ℕ) × FatData
try_cache fdata clust = try_loop cache_cnt 0 fdata clust

-- The entry that `_fat_add_cache` overwrites: the first of the highest rank.
unfoldable pub oldest : ℕ → ℕ → ℕ → List ℕ → ℕ
oldest zero i entry rank = entry
oldest (suc n) i entry rank =
    oldest n (suc i) (if ltb (get_or rank entry 0) (get_or rank i 0) then i else entry) rank

unfoldable pub add_cache : FatData → List ℕ → ℕ → FatData
add_cache fdata bytes clust =
    let entry = oldest 3 1 0 fdata.rank in
    cache_touch
      (record fdata { clust = set fdata.clust entry clust; buf = set fdata.buf entry bytes }) entry

-- The little-endian number of four bytes from `k` on; what lies past the buffer reads as 0 here.
unfoldable pub le32 : List ℕ → ℕ → ℕ
le32 bytes k =
    get_or bytes k 0
    + get_or bytes (k + 1) 0 * 2 ^ 8
    + get_or bytes (k + 2) 0 * 2 ^ 16
    + get_or bytes (k + 3) 0 * 2 ^ 24

-- The `switch` at the end of `_fat_read_fat_data`.
unfoldable pub masked : ℕ → ℕ → ℕ
masked word sz =
    if sz == 1
    then u8 word
    else if sz == 2
    then u16 word
    else if sz == 3
    then word % 2 ^ 24
    else if sz == 4
    then u32 word
    else 2 ^ 32 - 1

-- What follows the search of the cache: a miss reads the cluster and adds it to the cache. The
-- result is `0xffffffff` where the device fails.
unfoldable pub after_search : Device → FatData → ℕ → ℕ → ℕ → Option (List ℕ) → ℕ × FatData
after_search device fdata read_addr off sz (some bytes) =
    (masked (le32 bytes (off - read_addr)) sz, fdata)
after_search device fdata read_addr off sz none = elim (device read_addr fdata.cluster_size) [
  | none ↦ (2 ^ 32 - 1, fdata)
  | some bytes ↦ (masked (le32 bytes (off - read_addr)) sz, add_cache fdata bytes read_addr)
]

unfoldable pub read_fat_data : Device → FatData → ℕ → ℕ → ℕ × FatData
read_fat_data device fdata off sz =
    let read_addr = off - off % fdata.sector_size in
    let (hit, fdata') = try_cache fdata read_addr in after_search device fdata' read_addr off sz hit
