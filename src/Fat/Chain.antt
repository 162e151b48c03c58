-- ===== src/Fat/Chain.antt =====
-- The chain of clusters that the FAT on a disk gives a file, and the walk of `_fat_file_read`
-- along it.
use native.Mathlib.Nat.{mul-le-mul_left, mul-le-mul_right, one-mul, div-mul-le_self}
use lboot.Base.{
  ℕ, zero, suc, ◌+◌, ◌-◌, ◌*◌, ◌/◌, ◌^◌, ◌≤◌, ◌<◌, ◌≡◌, ◌≢◌, ap, refl, Bool, true, false, List, [],
  ◌∷◌, ◌++◌, ltb, if◌then◌else◌, length, u32, arith, Bool-cases, inl, inr,
}
use lboot.Fat.Cache.{FatData}
use lboot.Fat.Table.{next_data_cluster, get_next_cluster}
use lboot.Fat.Disk.{bytes_at, holding, fat12, Coherent, Geometry}
use lboot.Fat.Coherence.{SameLayout-refl}
use lboot.Fat.Entries.{Fetched, get_fat_entry_fetches}

-- The cluster after the one at `c`: the next one of the root directory, which is contiguous, or
-- the one that the entry names; 0 is the end.
unfoldable pub next_of : (ℕ → ℕ) → FatData → ℕ → ℕ
next_of disk f c =
    if ltb c f.data_offset
    then (if ltb c f.first_cluster
        then 0
        else if ltb (c + f.cluster_size) f.data_offset
        then c + f.cluster_size
        else 0)
    else next_data_cluster f (fat12 disk f.fat_offset ((c - f.data_offset) / f.cluster_size + 2))

-- The clusters from an offset on, which fits in an `off_t`.
pub data Chain (disk : ℕ → ℕ) (f : FatData) : ℕ → List ℕ → Type 0 where
  chain_end : (c : ℕ) → c ≢ 0 → c < 2 ^ 31 → Chain disk f c (c ∷ [])
  chain_step :
      (c : ℕ) (cs : List ℕ)
      → c ≢ 0
      → c < 2 ^ 31
      → Chain disk f (next_of disk f c) cs
      → Chain disk f c (c ∷ cs)

unfoldable pub contents : (ℕ → ℕ) → FatData → List ℕ → List ℕ
contents disk f [] = []
contents disk f (c ∷ cs) = bytes_at disk c f.cluster_size ++ contents disk f cs

pub length-bytes_at : (disk : ℕ → ℕ) (a n : ℕ) → length (bytes_at disk a n) ≡ n
unfolding bytes_at
length-bytes_at disk a zero = refl
length-bytes_at disk a (suc n) = ap suc (length-bytes_at disk (suc a) n)

module _ (disk : ℕ → ℕ) (small : (a : ℕ) → disk a < 256) where
  cluster_few :
      (f : FatData) (c : ℕ)
      → Geometry f
      → c < 2 ^ 31
      → ((c - f.data_offset) / f.cluster_size + 2) * 3 < 2 ^ 32
  cluster_few f c g b =
      let x = c - f.data_offset in
      let sector = mul-le-mul_right f.sector_size g.some_sectors in
      let two : 2 ≤ f.cluster_size =
        omega (arith, sector, one-mul f.sector_size, g.whole, g.big_sector) in
      let half = mul-le-mul_left (x / f.cluster_size) two in
      omega (arith, half, div-mul-le_self x f.cluster_size, b)

  either :
      (f : FatData) (t : Bool) (v w : ℕ) (r s : ℕ × FatData)
      → Fetched disk f v r
      → Fetched disk f w s
      → Fetched disk f (if t then v else w) (if t then r else s)
  either f true v w r s p q = p
  either f false v w r s p q = q

  still : (f : FatData) (v : ℕ) → Coherent disk f → Fetched disk f v (v, f)
  still f v co = record { value = refl; coherent = co; layout = SameLayout-refl f }

  root :
      (f : FatData) (c : ℕ)
      → Coherent disk f
      → Fetched disk f
          (if ltb c f.first_cluster
            then 0
            else if ltb (c + f.cluster_size) f.data_offset
            then c + f.cluster_size
            else 0)
          (if ltb c f.first_cluster
            then (0, f)
            else if ltb (c + f.cluster_size) f.data_offset
            then (c + f.cluster_size, f)
            else (0, f))
  root f c co =
      either f _ _ _ _ _ (still f 0 co)
        (either f _ _ _ _ _ (still f (c + f.cluster_size) co) (still f 0 co))

  pub get_next_cluster_fetches :
      (f : FatData) (c : ℕ)
      → Geometry f
      → Coherent disk f
      → c < 2 ^ 31
      → Fetched disk f (next_of disk f c) (get_next_cluster (holding disk) f c)
  unfolding get_next_cluster next_of
  get_next_cluster_fetches f c g co b =
      let n = (c - f.data_offset) / f.cluster_size + 2 in
      let few : n * 3 < 2 ^ 32 = cluster_few f c g b in
      let same : u32 n ≡ n = omega (arith, few) in
      elim (Bool-cases (ltb c f.data_offset)) [
        | inl e ↦ rw e (root f c co)
        | inr e ↦
            let r = get_fat_entry_fetches disk small f n g co few in
            rw (e, same)
              (record {
                value = ap (next_data_cluster f) r.value;
                coherent = r.coherent;
                layout = r.layout;
              })
      ]
