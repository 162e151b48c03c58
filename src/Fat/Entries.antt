-- ===== src/Fat/Entries.antt =====
-- The entries of the FAT that `_fat_get_fat_entry` reads are those that the disk spells.
use native.Mathlib.Nat.{mod-lt, mod-le, mul-le-mul_right, le-div_iff_mul-le, div-add-mod', one-mul}
use lboot.Base.{
  ℕ, ◌+◌, ◌-◌, ◌*◌, ◌/◌, ◌%◌, ◌^◌, ◌≤◌, ◌<◌, ◌≡◌, ◌≢◌, ap₂, subst, ◌∙◌, ap, sym, List, ◌==◌,
  if◌then◌else◌, get_or, u16, u32, arith, Bool-cases, inl, inr, bit_or, ◌<<<◌, ◌>>>◌,
}
use lboot.Base.Bits.{bit_or-shift}
use lboot.Fat.Cache.{FatData, le32, masked, read_fat_data}
use lboot.Fat.Table.{get_fat_entry}
use lboot.Fat.Disk.{bytes_at, holding, fat12, Coherent, Geometry, get_or-bytes_at}
use lboot.Fat.Coherence.{SameLayout, SameLayout-trans, read_fat_data-ReadRight}

le32-masked_one :
    (bytes : List ℕ) (k : ℕ) → get_or bytes k 0 < 256 → masked (le32 bytes k) 1 ≡ get_or bytes k 0
unfolding le32 masked
le32-masked_one bytes k h = omega arith

le32-masked_two :
    (bytes : List ℕ) (k : ℕ)
    → get_or bytes k 0 < 256
    → get_or bytes (k + 1) 0 < 256
    → masked (le32 bytes k) 2 ≡ get_or bytes k 0 + get_or bytes (k + 1) 0 * 256
unfolding le32 masked
le32-masked_two bytes k h g = omega arith

-- The sector of an offset in the FAT starts in the FAT.
in_fat :
    (f : FatData) (off : ℕ)
    → Geometry f
    → f.fat_offset ≤ off
    → f.fat_offset ≤ off - off % f.sector_size
in_fat f off g h =
    let pos : 0 < f.sector_size = omega (arith, g.big_sector) in
    let below : g.sectors ≤ off / f.sector_size =
      (le-div_iff_mul-le pos).1 (omega (arith, g.at_sector, h)) in
    let grown = mul-le-mul_right f.sector_size below in
    omega (arith, grown, g.at_sector, div-add-mod' off f.sector_size)

-- An offset has its sector, and with it the offset in the cluster that is read, below the end.
pub in_cluster : (f : FatData) (off : ℕ) → Geometry f → off % f.sector_size < f.cluster_size
in_cluster f off g =
    let below : off % f.sector_size < f.sector_size = mod-lt off (omega (arith, g.big_sector)) in
    let grown = mul-le-mul_right f.sector_size g.some_sectors in
    omega (arith, below, grown, one-mul f.sector_size, g.whole)

-- Away from the last byte of a cluster, the next byte is read with it.
next_in_cluster :
    (f : FatData) (off : ℕ)
    → Geometry f
    → off % f.cluster_size ≢ f.cluster_size - 1
    → off % f.sector_size + 1 < f.cluster_size
next_in_cluster f off g h =
    let below : off % f.sector_size < f.sector_size = mod-lt off (omega (arith, g.big_sector)) in
    elim (Bool-cases (g.per_cluster == 1)) [
      | inl e ↦
          let one : g.per_cluster ≡ 1 = ground arith in
          let same : f.cluster_size ≡ f.sector_size =
            g.whole ∙ ap (λ t. t * f.sector_size) one ∙ one-mul f.sector_size in
          let last : off % f.sector_size ≢ f.cluster_size - 1 =
            λ t. h (ap (λ c. off % c) same ∙ t) in
          omega (arith, below, same, last)
      | inr e ↦
          let two : 2 ≤ g.per_cluster = ground (arith, g.some_sectors) in
          let grown = mul-le-mul_right f.sector_size two in
          omega (arith, below, grown, g.whole, g.big_sector)
    ]

pub Geometry-SameLayout : {f g : FatData} → SameLayout f g → Geometry f → Geometry g
Geometry-SameLayout same g = record {
  per_cluster = g.per_cluster;
  sectors = g.sectors;
  some_sectors = g.some_sectors;
  big_sector = omega (arith, g.big_sector, same.sector_size);
  whole = same.cluster_size ∙ g.whole ∙ ap (λ t. g.per_cluster * t) (sym same.sector_size);
  at_sector = same.fat_offset ∙ g.at_sector ∙ ap (λ t. g.sectors * t) (sym same.sector_size);
}

-- A value that a read gives, with a cache that is as coherent after it as before.
pub record Fetched (disk : ℕ → ℕ) (f : FatData) (v : ℕ) (r : ℕ × FatData) : Type 0 where
  pub value : r.0 ≡ v
  pub coherent : Coherent disk r.1
  pub layout : SameLayout f r.1

module _ (disk : ℕ → ℕ) (small : (a : ℕ) → disk a < 256) where
  -- The byte at `o` of the disk, `i` bytes into the cluster read for `off`.
  byte_read :
      (f : FatData) (off i o : ℕ)
      → i < f.cluster_size
      → off - off % f.sector_size + i ≡ o
      → get_or (bytes_at disk (off - off % f.sector_size) f.cluster_size) i 0 ≡ disk o
  byte_read f off i o lt e =
      get_or-bytes_at disk (off - off % f.sector_size) f.cluster_size i lt ∙ ap disk e

  byte-Fetched :
      (f : FatData) (off : ℕ)
      → Geometry f
      → f.fat_offset ≤ off
      → Coherent disk f
      → Fetched disk f (disk off) (read_fat_data (holding disk) f off 1)
  byte-Fetched f off g h c =
      let r = read_fat_data-ReadRight disk f off 1 (in_fat f off g h) c in
      let le = mod-le off f.sector_size in
      let i = off - (off - off % f.sector_size) in
      let byte =
        byte_read f off i off (omega (arith, le, in_cluster f off g)) (omega (arith, le)) in
      let bytes = bytes_at disk (off - off % f.sector_size) f.cluster_size in
      record {
        value =
            r.value ∙ le32-masked_one bytes i (subst (λ t. t < 256) (sym byte) (small off)) ∙ byte;
        coherent = r.coherent;
        layout = r.layout;
      }

  word-Fetched :
      (f : FatData) (off : ℕ)
      → Geometry f
      → f.fat_offset ≤ off
      → off % f.cluster_size ≢ f.cluster_size - 1
      → Coherent disk f
      → Fetched disk f (disk off + disk (off + 1) * 256) (read_fat_data (holding disk) f off 2)
  word-Fetched f off g h inside c =
      let r = read_fat_data-ReadRight disk f off 2 (in_fat f off g h) c in
      let le = mod-le off f.sector_size in
      let room = next_in_cluster f off g inside in
      let i = off - (off - off % f.sector_size) in
      let byte = byte_read f off i off (omega (arith, le, room)) (omega (arith, le)) in
      let next = byte_read f off (i + 1) (off + 1) (omega (arith, le, room)) (omega (arith, le)) in
      let bytes = bytes_at disk (off - off % f.sector_size) f.cluster_size in
      let both =
        le32-masked_two bytes i (subst (λ t. t < 256) (sym byte) (small off))
          (subst (λ t. t < 256) (sym next) (small (off + 1))) in
      record {
        value = r.value ∙ both ∙ ap₂ (λ a b. a + b * 256) byte next;
        coherent = r.coherent;
        layout = r.layout;
      }

  -- The two bytes of an entry make up the entry, whichever half of a byte it shares.
  unpacked :
      (n lo hi v : ℕ)
      → lo < 256
      → hi < 256
      → v ≡ lo + hi * 256
      → (if n % 2 == 1 then u16 v >>> 4 else u16 v) % 2 ^ 12
        ≡ (if n % 2 == 1 then lo / 16 + hi * 16 else lo + hi % 16 * 256)
  unpacked n lo hi v l h e = ground arith

  joined :
      (lo hi l h : ℕ)
      → lo < 256
      → hi < 256
      → l ≡ lo
      → h ≡ hi
      → bit_or l (u32 (h <<< 8)) ≡ lo + hi * 256
  joined lo hi l h small_lo small_hi el eh =
      let low : u32 (h <<< 8) ≡ hi * 2 ^ 8 = omega (arith, small_hi, eh) in
      rw (low, el) (bit_or-shift lo hi 8 small_lo)

  -- Over a coherent cache, the entry read for a cluster is the one that the FAT on the disk spells,
  -- whether its two bytes are in one cluster or in two and whether these are cached, and the cache
  -- is coherent after it. Numbers with a product by 3 past 32 bits are not meant.
  pub get_fat_entry_fetches :
      (f : FatData) (n : ℕ)
      → Geometry f
      → Coherent disk f
      → n * 3 < 2 ^ 32
      → Fetched disk f (fat12 disk f.fat_offset n) (get_fat_entry (holding disk) f n)
  unfolding get_fat_entry fat12
  get_fat_entry_fetches f n g c b =
      let at = f.fat_offset + u32 (n * 3) / 2 in
      let spelled = λ (a : ℕ).
        if n % 2 == 1 then disk a / 16 + disk (a + 1) * 16 else disk a + disk (a + 1) % 16 * 256 in
      let right : at ≡ f.fat_offset + n * 3 / 2 = omega (arith, b) in
      elim (Bool-cases (at % f.cluster_size == f.cluster_size - 1)) [
        | inl e ↦
            let r1 = byte-Fetched f at g (omega arith) c in
            let f1 = (read_fat_data (holding disk) f at 1).1 in
            let r2 =
              byte-Fetched f1 (at + 1) (Geometry-SameLayout r1.layout g)
                (omega (arith, r1.layout.fat_offset)) r1.coherent in
            let both =
              joined (disk at) (disk (at + 1)) _ _ (small at) (small (at + 1)) r1.value r2.value in
            let v = unpacked n (disk at) (disk (at + 1)) _ (small at) (small (at + 1)) both in
            rw e (record {
              value = v ∙ ap spelled right;
              coherent = r2.coherent;
              layout = SameLayout-trans r1.layout r2.layout;
            })
        | inr e ↦
            let apart : at % f.cluster_size ≢ f.cluster_size - 1 = λ t. absurd (ground arith) in
            let r = word-Fetched f at g (omega arith) apart c in
            let v = unpacked n (disk at) (disk (at + 1)) _ (small at) (small (at + 1)) r.value in
            rw e (record { value = v ∙ ap spelled right; coherent = r.coherent; layout = r.layout })
      ]
