-- ===== src/SectorMap/Runs.antt =====
-- tools/sector_mapper/src/main.c: the map of `_round1`, expanded as its reader does, against the
-- sectors of the clusters.
use lboot.Base.{
  ℕ, suc, ◌+◌, ◌-◌, ◌*◌, ◌/◌, ◌%◌, ◌^◌, ◌≤◌, ◌<◌, ◌≡◌, refl, sym, ap, ap₂, ◌∙◌, arith, true, false,
  Bool-cases, inl, inr, if_split, if◌then◌else◌, leb, ◌==◌, List, [], ◌∷◌, ◌++◌, append-nil,
  append_assoc, map, length, length-append, replicate, get_or, set, u16, some,
}
use lboot.SectorMap.{
  FatHandle, SectorMapEntry, no_entry, sector_of, breaks, n_chunks, map_loop, sector_map, Pread,
  fat_get_file_clusters, n_clusters, round1,
}
use lboot.SectorMap.Clusters.{chain, fat_get_file_clusters-eq-chain}
use lboot.SectorMap.Expand.{
  range, expand, range-snoc, one_sector, expand-entry, expand-none, Expands, Expands-snoc,
  set-append, get_or-append, set-next,
}

map_loop-nil :
    (hand : FatHandle) (prev k m : ℕ) (t : List SectorMapEntry) → map_loop hand prev [] k m t ≡ t
unfolding map_loop
map_loop-nil hand prev k m t = refl

map_loop-follows :
    (hand : FatHandle) (prev c : ℕ) (cs : List ℕ) (k m : ℕ) (t : List SectorMapEntry)
    → (c == prev + hand.cluster_size) ≡ true
    → let run = get_or t (k * 127 + m) no_entry in
      map_loop hand prev (c ∷ cs) k m t
      ≡ map_loop hand c cs k m (set t (k * 127 + m) (record run { count = u16 (run.count + 1) }))
unfolding map_loop
map_loop-follows hand prev c cs k m t e =
    let m' : ℕ = if leb 127 (m + 1) then 0 else m + 1 in
    let k' : ℕ = if leb 127 (m + 1) then k + 1 else k in
    let run : SectorMapEntry = get_or t (k * 127 + m) no_entry in
    let counted : List SectorMapEntry =
      set t (k * 127 + m) (record run { count = u16 (run.count + 1) }) in
    let started : List SectorMapEntry =
      set t (k' * 127 + m') (record { sector = sector_of hand c; count = 1 }) in
    ap
      (λ b.
        map_loop hand c cs (if b then k else k') (if b then m else m')
          (if b then counted else started))
      e

map_loop-starts :
    (hand : FatHandle) (prev c : ℕ) (cs : List ℕ) (k m : ℕ) (t : List SectorMapEntry)
    → (c == prev + hand.cluster_size) ≡ false
    → let m' = if leb 127 (m + 1) then 0 else m + 1 in
      let k' = if leb 127 (m + 1) then k + 1 else k in
      map_loop hand prev (c ∷ cs) k m t
      ≡ map_loop hand c cs k' m'
          (set t (k' * 127 + m') (record { sector = sector_of hand c; count = 1 }))
unfolding map_loop
map_loop-starts hand prev c cs k m t e =
    let m' : ℕ = if leb 127 (m + 1) then 0 else m + 1 in
    let k' : ℕ = if leb 127 (m + 1) then k + 1 else k in
    let run : SectorMapEntry = get_or t (k * 127 + m) no_entry in
    let counted : List SectorMapEntry =
      set t (k * 127 + m) (record run { count = u16 (run.count + 1) }) in
    let started : List SectorMapEntry =
      set t (k' * 127 + m') (record { sector = sector_of hand c; count = 1 }) in
    ap
      (λ b.
        map_loop hand c cs (if b then k else k') (if b then m else m')
          (if b then counted else started))
      e

-- Clusters at sectors that 16 bits number, none at sector 0.
unfoldable pub EachPlaced : List ℕ → Type 0
EachPlaced [] = true ≡ true
EachPlaced (c ∷ cs) = ((512 ≤ c) × (c < 512 * 2 ^ 16)) × EachPlaced cs

-- The next place in the table of chunks.
next_place :
    (k m : ℕ)
    → m < 127
    → let m' = if leb 127 (m + 1) then 0 else m + 1 in
      let k' = if leb 127 (m + 1) then k + 1 else k in
      (k' * 127 + m' ≡ k * 127 + m + 1) × (m' < 127)
next_place k m below = elim (Bool-cases (leb 127 (m + 1))) [
  | inl e ↦ rw e (ground arith, omega arith)
  | inr e ↦ rw e (omega arith, ground arith)
]

module _ (hand : FatHandle) (sized : hand.cluster_size ≡ 512)
    (single : hand.bootsector.sectors_per_cluster ≡ 1) where
  sector_of-eq : (c : ℕ) → c < 512 * 2 ^ 16 → sector_of hand c ≡ c / 512
  unfolding sector_of
  sector_of-eq c below = ap₂ (λ s n. u16 (c / s * n)) sized single ∙ omega arith

  -- The table after a cluster that follows, by the entry that it is counted in.
  counted-table :
      (es : List SectorMapEntry) (sector count i : ℕ) (zs : List SectorMapEntry)
      → i ≡ length es
      → suc count < 2 ^ 16
      → let t = es ++ (record { sector = sector; count = count } ∷ zs) in
        let run = get_or t i no_entry in
        set t i (record run { count = u16 (run.count + 1) })
        ≡ es ++ (record { sector = sector; count = suc count } ∷ zs)
  counted-table es sector count i zs at small =
      let e : SectorMapEntry = record { sector = sector; count = count } in
      let t : List SectorMapEntry = es ++ (e ∷ zs) in
      let found : get_or t i no_entry ≡ e =
        ap (λ j. get_or t j no_entry) at ∙ get_or-append es e no_entry zs in
      let one_more : u16 (count + 1) ≡ suc count = omega arith in
      ap₂ (λ j (r : SectorMapEntry). set t j (record r { count = u16 (r.count + 1) })) at found
      ∙ set-append es e (record { sector = sector; count = u16 (count + 1) }) zs
      ∙ ap (λ n. es ++ (record { sector = sector; count = n } ∷ zs)) one_more

  one_longer :
      (sectors rest : List ℕ) (sector count x : ℕ)
      → sector + count ≡ x
      → (sectors ++ range sector (suc count)) ++ rest
        ≡ (sectors ++ range sector count) ++ (x ∷ rest)
  one_longer sectors rest sector count x at =
      ap (λ r. (sectors ++ r) ++ rest)
        (range-snoc sector count ∙ ap (λ y. range sector count ++ (y ∷ [])) at)
      ∙ ap (λ r. r ++ rest) (sym (append_assoc sectors (range sector count) (x ∷ [])))
      ∙ append_assoc (sectors ++ range sector count) (x ∷ []) rest

  -- The entries before the last, the last one, and the places left.
  map_loop-expand :
      (cs : List ℕ) (prev k m : ℕ) (es : List SectorMapEntry) (sector count left : ℕ)
      (sectors : List ℕ)
      → Expands es sectors
      → k * 127 + m ≡ length es
      → m < 127
      → sector + count ≡ prev / 512 + 1
      → 0 < sector
      → count + length cs < 2 ^ 16
      → breaks hand prev cs ≤ left
      → EachPlaced cs
      → expand (
          map_loop hand prev cs k m
            (es ++ (record { sector = sector; count = count } ∷ replicate left no_entry)))
        ≡ (sectors ++ range sector count) ++ map (sector_of hand) cs
  unfolding breaks EachPlaced
  map_loop-expand [] prev k m es sector count left sectors h at below run pos short room placed =
      let e : SectorMapEntry = record { sector = sector; count = count } in
      ap expand (map_loop-nil hand prev k m (es ++ (e ∷ replicate left no_entry)))
      ∙ h (e ∷ replicate left no_entry)
      ∙ ap (λ u. sectors ++ u)
          (expand-entry e (replicate left no_entry) pos
            ∙ ap (λ u. range sector count ++ u) (expand-none left)
            ∙ append-nil (range sector count))
      ∙ sym (append-nil (sectors ++ range sector count))
  map_loop-expand (c ∷ cs) prev k m es sector count left sectors h at below run pos short room
        placed =
      elim (Bool-cases (c == prev + hand.cluster_size)) [
        | inl f ↦
            (let e : SectorMapEntry = record { sector = sector; count = count } in
              let next : c ≡ prev + 512 = ground arith in
              let fewer : breaks hand c cs ≤ left =
                if_split (λ n. n ≤ left → breaks hand c cs ≤ left) (c == prev + hand.cluster_size)
                  (λ g le. le) (λ g le. omega arith) room in
              ap expand (
                map_loop-follows hand prev c cs k m (es ++ (e ∷ replicate left no_entry)) f
                ∙ ap (map_loop hand c cs k m) (
                    counted-table es sector count (k * 127 + m) (replicate left no_entry) at
                      (omega arith)))
              ∙ map_loop-expand cs c k m es sector (suc count) left sectors h at below (omega arith)
                  pos (omega arith) fewer placed.1
              ∙ one_longer sectors (map (sector_of hand) cs) sector count (sector_of hand c)
                  (sym (sector_of-eq c placed.0.1 ∙ omega arith)))
        | inr f ↦
            (let e : SectorMapEntry = record { sector = sector; count = count } in
              let v : SectorMapEntry = record { sector = sector_of hand c; count = 1 } in
              let m' : ℕ = if leb 127 (m + 1) then 0 else m + 1 in
              let k' : ℕ = if leb 127 (m + 1) then k + 1 else k in
              let (place, below') = next_place k m below in
              let more : suc (breaks hand c cs) ≤ left =
                if_split (λ n. n ≤ left → suc (breaks hand c cs) ≤ left)
                  (c == prev + hand.cluster_size) (λ g le. cc) (λ g le. le) room in
              let opened : left ≡ suc (left - 1) = omega arith in
              let index : k' * 127 + m' ≡ length es + 1 = omega arith in
              let here = sector_of-eq c placed.0.1 in
              ap expand (
                map_loop-starts hand prev c cs k m (es ++ (e ∷ replicate left no_entry)) f
                ∙ ap (map_loop hand c cs k' m') (
                    ap₂ (λ n i. set (es ++ (e ∷ replicate n no_entry)) i v) opened index
                    ∙ set-next es e no_entry v (replicate (left - 1) no_entry)))
              ∙ map_loop-expand cs c k' m' (es ++ (e ∷ [])) (sector_of hand c) 1 (left - 1)
                  (sectors ++ range sector count) (Expands-snoc es sectors e h pos)
                  (index ∙ sym (length-append es (e ∷ []))) below' (omega arith) (omega arith)
                  (omega arith) (omega arith) placed.1
              ∙ ap (λ r. ((sectors ++ range sector count) ++ r) ++ map (sector_of hand) cs)
                  (one_sector (sector_of hand c))
              ∙ append_assoc (sectors ++ range sector count) (sector_of hand c ∷ [])
                  (map (sector_of hand) cs))
      ]

  enough_chunks : (n : ℕ) → n ≤ n_chunks n * 127
  unfolding n_chunks
  enough_chunks n =
      if_split (λ k. n ≤ k * 127) (n % 127 == 0) (λ e. ground arith) (λ e. omega arith)

  sector_map-expand :
      (clusters : List ℕ)
      → 0 < length clusters
      → length clusters < 2 ^ 16
      → EachPlaced clusters
      → expand (sector_map hand clusters) ≡ map (sector_of hand) clusters
  unfolding sector_map EachPlaced
  sector_map-expand [] some_cluster short placed = absurd (omega arith)
  sector_map-expand (c ∷ cs) some_cluster short placed =
      let left : ℕ = n_chunks (1 + breaks hand c cs) * 127 - 1 in
      let room = enough_chunks (1 + breaks hand c cs) in
      let places : n_chunks (1 + breaks hand c cs) * 127 ≡ suc left = omega arith in
      let v : SectorMapEntry = record { sector = sector_of hand c; count = 1 } in
      let here = sector_of-eq c placed.0.1 in
      ap (λ n. expand (map_loop hand c cs 0 0 (set (replicate n no_entry) 0 v))) places
      ∙ map_loop-expand cs c 0 0 [] (sector_of hand c) 1 left [] (λ t. refl) refl (omega arith)
          (omega arith) (omega arith) (omega arith) (omega arith) placed.1
      ∙ ap (λ r. r ++ map (sector_of hand) cs) (one_sector (sector_of hand c))

  sectors-EachPlaced :
      (clusters : List ℕ)
      → EachPlaced clusters
      → map (sector_of hand) clusters ≡ map (λ c. c / 512) clusters
  unfolding EachPlaced
  sectors-EachPlaced [] placed = refl
  sectors-EachPlaced (c ∷ cs) placed =
      ap₂ (λ x xs. x ∷ xs) (sector_of-eq c placed.0.1) (sectors-EachPlaced cs placed.1)

  -- For an image of 512-byte clusters of one sector each, round 1 succeeds on a file that is not empty
  -- and whose chain is long enough, and the map that it writes expands to the 512-byte sectors at which
  -- the file's clusters stand, in order, where they are fewer than 2 ^ 16 and all at sectors from 1 to
  -- 2 ^ 16 - 1.
  pub round1-expand :
      (pread : Pread) (first_cluster size : ℕ) (clusters : List ℕ)
      → chain pread hand (n_clusters size 512) first_cluster ≡ some clusters
      → 0 < length clusters
      → length clusters < 2 ^ 16
      → EachPlaced clusters
      → (m : List SectorMapEntry) × (round1 pread hand first_cluster size ≡ some m)
        × (expand m ≡ map (λ c. c / 512) clusters)
  unfolding round1
  round1-expand pread first_cluster size clusters h some_cluster short placed =
      let supported : hand.cluster_size == 512 ≡ true = ground arith in
      let found : fat_get_file_clusters pread hand first_cluster size ≡ some clusters =
        fat_get_file_clusters-eq-chain pread hand first_cluster size (omega arith)
        ∙ ap (λ s. chain pread hand (n_clusters size s) first_cluster) sized
        ∙ h in
      (
        sector_map hand clusters,
        rw (supported, found) refl,
        sector_map-expand clusters some_cluster short placed ∙ sectors-EachPlaced clusters placed,
      )
