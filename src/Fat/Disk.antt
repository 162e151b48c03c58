-- ===== src/Fat/Disk.antt =====
-- A device that holds the bytes of a disk, the FAT12 entries that these bytes spell, and a cache
-- that agrees with the disk.
use lboot.Base.{
  ℕ, zero, suc, ◌+◌, ◌*◌, ◌/◌, ◌%◌, ◌≤◌, ◌<◌, ◌≡◌, ◌∙◌, ap, List, [], ◌∷◌, some, ◌==◌,
  if◌then◌else◌, length, get_or, arith,
}
use lboot.Fat.Cache.{Device, FatData}

unfoldable pub bytes_at : (ℕ → ℕ) → ℕ → ℕ → List ℕ
bytes_at disk a zero = []
bytes_at disk a (suc n) = disk a ∷ bytes_at disk (suc a) n

abbrev pub holding : (ℕ → ℕ) → Device
holding disk a n = some (bytes_at disk a n)

-- Entry `n` of a FAT at `fat_offset`: twelve bits, the low eight first.
unfoldable pub fat12 : (ℕ → ℕ) → ℕ → ℕ → ℕ
fat12 disk fat_offset n =
    let at = fat_offset + n * 3 / 2 in
    if n % 2 == 1 then disk at / 16 + disk (at + 1) * 16 else disk at + disk (at + 1) % 16 * 256

-- A cached cluster of the FAT holds what the disk holds there. Nothing is said of an entry with an
-- offset before the FAT, such as the 0 of cleared memory.
pub record Coherent (disk : ℕ → ℕ) (fdata : FatData) : Type 0 where
  pub clusts : length fdata.clust ≡ 4
  pub ranks : length fdata.rank ≡ 4
  pub bufs : length fdata.buf ≡ 4
  pub agree :
      (i : ℕ)
      → i < 4
      → fdata.fat_offset ≤ get_or fdata.clust i 0
      → get_or fdata.buf i [] ≡ bytes_at disk (get_or fdata.clust i 0) fdata.cluster_size

-- A cluster is a positive number of sectors, and the FAT starts at a sector.
pub record Geometry (fdata : FatData) : Type 0 where
  pub per_cluster : ℕ
  pub sectors : ℕ
  pub some_sectors : 0 < per_cluster
  pub big_sector : 1 < fdata.sector_size
  pub whole : fdata.cluster_size ≡ per_cluster * fdata.sector_size
  pub at_sector : fdata.fat_offset ≡ sectors * fdata.sector_size

pub get_or-bytes_at :
    (disk : ℕ → ℕ) (a n k : ℕ) → k < n → get_or (bytes_at disk a n) k 0 ≡ disk (a + k)
unfolding bytes_at
get_or-bytes_at disk a zero k h = absurd (omega arith)
get_or-bytes_at disk a (suc n) zero h = ap disk (omega arith)
get_or-bytes_at disk a (suc n) (suc k) h =
    get_or-bytes_at disk (suc a) n k (omega arith) ∙ ap disk (omega arith)
