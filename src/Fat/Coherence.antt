-- ===== src/Fat/Coherence.antt =====
-- The cache stays coherent, and a read through it gives what the disk holds.
use lboot.Base.{
  ℕ, zero, suc, ◌+◌, ◌-◌, ◌%◌, ◌≤◌, ◌<◌, ◌≡◌, ◌≢◌, subst, ◌∙◌, ap, sym, refl, List, [], some, none,
  Option, ◌==◌, ltb, if◌then◌else◌, length, get_or, set, u8, arith, Bool, true, false, not,
  Bool-cases, inl, inr, length-set, get_or-set_self, get_or-set_ne,
}
use lboot.Fat.Cache.{
  after_search, FatData, le32, masked, touch_loop, touch, cache_touch, try_loop, try_cache, oldest,
  add_cache, read_fat_data,
}
use lboot.Fat.Disk.{bytes_at, holding, Coherent}

-- Two states of one filesystem differ only in the cache.
pub record SameLayout (f g : FatData) : Type 0 where
  pub sector_size : g.sector_size ≡ f.sector_size
  pub cluster_size : g.cluster_size ≡ f.cluster_size
  pub fat_offset : g.fat_offset ≡ f.fat_offset
  pub data_offset : g.data_offset ≡ f.data_offset
  pub first_cluster : g.first_cluster ≡ f.first_cluster

pub SameLayout-refl : (f : FatData) → SameLayout f f
SameLayout-refl f = record {
  sector_size = refl;
  cluster_size = refl;
  fat_offset = refl;
  data_offset = refl;
  first_cluster = refl;
}

pub SameLayout-trans : {f g h : FatData} → SameLayout f g → SameLayout g h → SameLayout f h
SameLayout-trans p q = record {
  sector_size = q.sector_size ∙ p.sector_size;
  cluster_size = q.cluster_size ∙ p.cluster_size;
  fat_offset = q.fat_offset ∙ p.fat_offset;
  data_offset = q.data_offset ∙ p.data_offset;
  first_cluster = q.first_cluster ∙ p.first_cluster;
}

length-touch_loop : (n i idx : ℕ) (rank : List ℕ) → length (touch_loop n i idx rank) ≡ length rank
unfolding touch_loop
length-touch_loop zero i idx rank = refl
length-touch_loop (suc n) i idx rank =
    let here = get_or rank i 0 in
    let aged =
      if i == idx
      then rank
      else if ltb here (get_or rank idx 0)
      then set rank i (u8 (here + 1))
      else rank in
    let kept : length aged ≡ length rank = ground (arith, length-set rank i (u8 (here + 1))) in
    length-touch_loop n (suc i) idx aged ∙ kept

cache_touch-Coherent :
    (disk : ℕ → ℕ) (f : FatData) (i : ℕ) → Coherent disk f → Coherent disk (cache_touch f i)
unfolding cache_touch touch
cache_touch-Coherent disk f i c = record {
  clusts = c.clusts;
  ranks = length-set (touch_loop 4 0 i f.rank) i 0 ∙ length-touch_loop 4 0 i f.rank ∙ c.ranks;
  bufs = c.bufs;
  agree = c.agree;
}

overwritten_agree :
    (disk : ℕ → ℕ) (f : FatData) (entry a i : ℕ)
    → Coherent disk f
    → i < 4
    → f.fat_offset ≤ get_or (set f.clust entry a) i 0
    → get_or (set f.buf entry (bytes_at disk a f.cluster_size)) i []
      ≡ bytes_at disk (get_or (set f.clust entry a) i 0) f.cluster_size
overwritten_agree disk f entry a i c lt in_fat = elim (Bool-cases (entry == i)) [
  | inl e ↦
      let same : entry ≡ i = ground arith in
      rw (
        same,
        get_or-set_self f.clust i a 0 (omega (arith, lt, c.clusts)),
        get_or-set_self f.buf i (bytes_at disk a f.cluster_size) [] (omega (arith, c.bufs)),
      )
  | inr e ↦
      let other : entry ≢ i = λ same. absurd (ground (arith, e, same)) in
      let clust_same = get_or-set_ne f.clust a 0 other in
      rw (clust_same, get_or-set_ne f.buf (bytes_at disk a f.cluster_size) [] other)
        (c.agree i lt (subst (λ t. f.fat_offset ≤ t) clust_same in_fat))
]

add_cache-Coherent :
    (disk : ℕ → ℕ) (f : FatData) (a : ℕ)
    → Coherent disk f
    → Coherent disk (add_cache f (bytes_at disk a f.cluster_size) a)
unfolding add_cache
add_cache-Coherent disk f a c =
    let entry = oldest 3 1 0 f.rank in
    let g : FatData = record f {
      clust = set f.clust entry a;
      buf = set f.buf entry (bytes_at disk a f.cluster_size);
    } in
    cache_touch-Coherent disk g entry (record {
      clusts = length-set f.clust entry a ∙ c.clusts;
      ranks = c.ranks;
      bufs = length-set f.buf entry (bytes_at disk a f.cluster_size) ∙ c.bufs;
      agree = λ i. overwritten_agree disk f entry a i c;
    })

add_cache-SameLayout : (f : FatData) (bytes : List ℕ) (a : ℕ) → SameLayout f (add_cache f bytes a)
unfolding add_cache cache_touch
add_cache-SameLayout f bytes a = record {
  sector_size = refl;
  cluster_size = refl;
  fat_offset = refl;
  data_offset = refl;
  first_cluster = refl;
}

-- The outcome of a search of the cache for the cluster at `a` of the FAT.
record Searched (disk : ℕ → ℕ) (f : FatData) (a : ℕ) (hit : Option (List ℕ)) (g : FatData)
    : Type 0 where
  coherent : Coherent disk g
  layout : SameLayout f g
  right : (bytes : List ℕ) → hit ≡ some bytes → bytes ≡ bytes_at disk a f.cluster_size

hit_bytes :
    (disk : ℕ → ℕ) (f : FatData) (a i : ℕ)
    → i < 4
    → get_or f.clust i 0 ≡ a
    → f.fat_offset ≤ a
    → Coherent disk f
    → get_or f.buf i [] ≡ bytes_at disk a f.cluster_size
hit_bytes disk f a i lt here in_fat c =
    c.agree i lt (subst (λ t. f.fat_offset ≤ t) (sym here) in_fat)
    ∙ ap (λ t. bytes_at disk t f.cluster_size) here

-- A hit may or may not refresh the rank.
hit-Searched :
    (disk : ℕ → ℕ) (f : FatData) (a i : ℕ) (refresh : Bool)
    → i < 4
    → get_or f.clust i 0 ≡ a
    → f.fat_offset ≤ a
    → Coherent disk f
    → Searched disk f a (some (get_or f.buf i [])) (if refresh then cache_touch f i else f)
unfolding cache_touch
hit-Searched disk f a i true lt here in_fat c = record {
  coherent = cache_touch-Coherent disk f i c;
  layout = record {
    sector_size = refl;
    cluster_size = refl;
    fat_offset = refl;
    data_offset = refl;
    first_cluster = refl;
  };
  right = λ bytes e. (let found = hit_bytes disk f a i lt here in_fat c in cc);
}
hit-Searched disk f a i false lt here in_fat c = record {
  coherent = c;
  layout = SameLayout-refl f;
  right = λ bytes e. (let found = hit_bytes disk f a i lt here in_fat c in cc);
}

try_loop-Searched :
    (disk : ℕ → ℕ) (f : FatData) (a n i : ℕ)
    → n + i ≡ 4
    → f.fat_offset ≤ a
    → Coherent disk f
    → Searched disk f a (try_loop n i f a).0 (try_loop n i f a).1
unfolding try_loop
try_loop-Searched disk f a zero i h in_fat c = record {
  coherent = c;
  layout = SameLayout-refl f;
  right = λ bytes e. cc;
}
try_loop-Searched disk f a (suc n) i h in_fat c = elim (Bool-cases (get_or f.clust i 0 == a)) [
  | inl e ↦ rw e (
      hit-Searched disk f a i (not (get_or f.rank i 0 == 0)) (omega (arith, h)) (ground arith)
        in_fat c)
  | inr e ↦ rw e (try_loop-Searched disk f a n (suc i) (omega arith) in_fat c)
]

-- A read of `sz` bytes gives the bytes of the disk, whether the cluster was cached or not.
pub record ReadRight (disk : ℕ → ℕ) (f : FatData) (off sz : ℕ) (r : ℕ × FatData) : Type 0 where
  pub value :
      r.0
      ≡ masked
          (le32
            (bytes_at disk (off - off % f.sector_size) f.cluster_size)
            (off - (off - off % f.sector_size)))
          sz
  pub coherent : Coherent disk r.1
  pub layout : SameLayout f r.1

after_search-ReadRight :
    (disk : ℕ → ℕ) (f g : FatData) (off sz : ℕ) (hit : Option (List ℕ))
    → Searched disk f (off - off % f.sector_size) hit g
    → ReadRight disk f off sz (after_search (holding disk) g (off - off % f.sector_size) off sz hit)
unfolding after_search
after_search-ReadRight disk f g off sz (some bytes) s = record {
  value = rw (s.right bytes refl);
  coherent = s.coherent;
  layout = s.layout;
}
after_search-ReadRight disk f g off sz none s = record {
  value = rw s.layout.cluster_size;
  coherent = add_cache-Coherent disk g (off - off % f.sector_size) s.coherent;
  layout = SameLayout-trans s.layout (add_cache-SameLayout g _ _);
}

pub read_fat_data-ReadRight :
    (disk : ℕ → ℕ) (f : FatData) (off sz : ℕ)
    → f.fat_offset ≤ off - off % f.sector_size
    → Coherent disk f
    → ReadRight disk f off sz (read_fat_data (holding disk) f off sz)
unfolding read_fat_data try_cache
read_fat_data-ReadRight disk f off sz in_fat c =
    let a = off - off % f.sector_size in
    let (hit, g) = try_loop 4 0 f a in
    after_search-ReadRight disk f g off sz hit
      (try_loop-Searched disk f a 4 0 (omega arith) in_fat c)
