-- ===== src/SectorMap/Clusters.antt =====
-- tools/sector_mapper/src/fat.c: `fat_get_file_clusters` against the chain of the file, and the
-- number of clusters that tools/sector_mapper/src/main.c makes room for.
use lboot.Base.{
  ℕ, zero, suc, ◌+◌, ◌-◌, ◌/◌, ◌%◌, ◌<◌, ◌≡◌, refl, sym, ap, ◌∙◌, arith, false, Bool-cases, inl,
  inr, if_split, if◌then◌else◌, ltb, ◌==◌, List, [], Option, some, none, u32,
}
use native.Mathlib.Nat.{mod-eq-sub-mod, div-eq-sub-div, mod-eq_of_lt, div-eq_of_lt}
use lboot.SectorMap.{
  Pread, FatHandle, get_next_cluster, store_cluster, clusters_loop, fat_get_file_clusters,
  n_clusters,
}

-- The first `n` clusters of the chain from a cluster on, none if it ends before.
unfoldable pub chain : Pread → FatHandle → ℕ → ℕ → Option (List ℕ)
chain pread hand zero clust = some []
chain pread hand (suc n) clust =
    if clust == 0
    then none
    else store_cluster (u32 clust) (chain pread hand n (get_next_cluster pread hand clust))

n_clusters-none : (c : ℕ) → 0 < c → n_clusters 0 c ≡ 0
unfolding n_clusters
n_clusters-none c pos =
    let rest : 0 % c ≡ 0 = mod-eq_of_lt pos in
    let quotient : 0 / c ≡ 0 = div-eq_of_lt pos in rw (rest, quotient) refl

n_clusters-suc : (x c : ℕ) → 0 < c → 0 < x → n_clusters x c ≡ suc (n_clusters (x - c) c)
unfolding n_clusters
n_clusters-suc x c pos some_left = elim (Bool-cases (ltb x c)) [
  | inl e ↦
      (let rest : x % c ≡ x = mod-eq_of_lt (ground arith) in
        let quotient : x / c ≡ 0 = div-eq_of_lt (ground arith) in
        let done : x - c ≡ 0 = ground arith in
        let not_zero : x == 0 ≡ false = ground arith in
        rw (rest, quotient, done, not_zero) (ap suc (sym (n_clusters-none c pos))))
  | inr e ↦
      (let rest : x % c ≡ (x - c) % c = mod-eq-sub-mod (ground arith) in
        let quotient : x / c ≡ (x - c) / c + 1 = div-eq-sub-div pos (ground arith) in
        rw (rest, quotient)
          (elim (Bool-cases ((x - c) % c == 0)) [
            | inl f ↦ rw f (omega arith)
            | inr f ↦ rw f (omega arith)
          ]))
]

clusters_loop-eq :
    (pread : Pread) (hand : FatHandle) (size fuel pos clust : ℕ)
    → 0 < hand.cluster_size
    → size - pos < fuel
    → clusters_loop pread hand size fuel pos clust
      ≡ chain pread hand (n_clusters (size - pos) hand.cluster_size) clust
unfolding clusters_loop chain
clusters_loop-eq pread hand size zero pos clust positive enough = absurd (omega arith)
clusters_loop-eq pread hand size (suc fuel) pos clust positive enough =
    let next = get_next_cluster pread hand clust in
    let size' = hand.cluster_size in
    if_split (λ z. z ≡ chain pread hand (n_clusters (size - pos) size') clust) (ltb pos size)
      (λ e.
        (let one_more : n_clusters (size - pos) size'
              ≡ suc (n_clusters (size - pos - size') size') =
            n_clusters-suc (size - pos) size' positive (ground arith) in
          let left : size - (pos + size') ≡ size - pos - size' = omega arith in
          let rest =
            clusters_loop-eq pread hand size fuel (pos + size') next positive (ground arith) in
          ap (λ t. if clust == 0 then none else store_cluster (u32 clust) t)
            (rest ∙ ap (λ t. chain pread hand (n_clusters t size') next) left)
          ∙ sym (ap (λ t. chain pread hand t clust) one_more)))
      (λ e.
        (let done : size - pos ≡ 0 = ground arith in
          sym (
            ap (λ t. chain pread hand t clust)
              (ap (λ t. n_clusters t size') done ∙ n_clusters-none size' positive))))

-- `fat_get_file_clusters` gives as many clusters of the file's chain as `_round1` and `_round2` have
-- made room for, and fails exactly where the chain ends before.
pub fat_get_file_clusters-eq-chain :
    (pread : Pread) (hand : FatHandle) (first_cluster size : ℕ)
    → 0 < hand.cluster_size
    → fat_get_file_clusters pread hand first_cluster size
      ≡ chain pread hand (n_clusters size hand.cluster_size) first_cluster
unfolding fat_get_file_clusters
fat_get_file_clusters-eq-chain pread hand first_cluster size positive =
    clusters_loop-eq pread hand size (suc size) 0 first_cluster positive (omega arith)
    ∙ ap (λ t. chain pread hand (n_clusters t hand.cluster_size) first_cluster) (omega arith)
