-- ===== src/Fat/Walk.antt =====
-- The first loop of `_fat_file_read` walks the chain to the cluster that holds an offset.
use native.Mathlib.Nat.{mod-eq-sub-mod, mod-eq_of_lt}
use lboot.Base.{
  ℕ, zero, suc, ◌+◌, ◌-◌, ◌%◌, ◌^◌, ◌≤◌, ◌<◌, ◌≡◌, ◌≢◌, ◌∙◌, ap, sym, refl, subst, List, [], ◌∷◌,
  ◌==◌, leb, true, false, length, drop, arith, Bool-cases, inl, inr, length-append, drop_past,
  Option, some, Outcome, returns,
}
use lboot.Fat.Cache.{FatData}
use lboot.Fat.Table.{next_data_cluster, get_next_cluster}
use lboot.Fat.File.{seek}
use lboot.Fat.Disk.{bytes_at, holding, Coherent, Geometry}
use lboot.Fat.Coherence.{SameLayout, SameLayout-trans}
use lboot.Fat.Entries.{Geometry-SameLayout}
use lboot.Fat.Chain.{
  next_of, Chain, chain_end, chain_step, contents, length-bytes_at, get_next_cluster_fetches,
}

-- A state of the filesystem laid out as `base`, whose cache is coherent.
pub record Alive (disk : ℕ → ℕ) (base f : FatData) : Type 0 where
  pub coherent : Coherent disk f
  pub layout : SameLayout base f

next_of-SameLayout :
    (disk : ℕ → ℕ) (f g : FatData) (c : ℕ) → SameLayout f g → next_of disk g c ≡ next_of disk f c
unfolding next_of next_data_cluster
next_of-SameLayout disk f g c same =
    rw (same.data_offset, same.cluster_size, same.fat_offset, same.first_cluster)

pub head_nonzero : {disk : ℕ → ℕ} {f : FatData} {c : ℕ} {cs : List ℕ} → Chain disk f c cs → c ≢ 0
head_nonzero (chain_end c nonzero fits) = nonzero
head_nonzero (chain_step c cs nonzero fits rest) = nonzero

pub record Advanced (disk : ℕ → ℕ) (base : FatData) (c : ℕ) (r : ℕ × FatData) : Type 0 where
  pub value : r.0 ≡ next_of disk base c
  pub alive : Alive disk base r.1

-- What the loop finds of the chain `cs` for an offset.
pub record Sought (disk : ℕ → ℕ) (base : FatData) (cs : List ℕ) (off : ℕ)
    (out : Outcome (Option ℕ × (ℕ × FatData))) : Type 0 where
  pub cluster : ℕ
  pub offset : ℕ
  pub after : FatData
  pub rest : List ℕ
  pub run : out ≡ returns (some cluster, (offset, after))
  pub alive : Alive disk base after
  pub chain : Chain disk base cluster rest
  pub place : offset ≡ off % base.cluster_size
  pub left : drop off (contents disk base cs) ≡ drop offset (contents disk base rest)
  pub count : length (contents disk base rest) + off ≡ length (contents disk base cs) + offset

module _ (disk : ℕ → ℕ) (small : (a : ℕ) → disk a < 256) (base : FatData) (g : Geometry base) where
  pub advance :
      (f : FatData) (c : ℕ)
      → Alive disk base f
      → c < 2 ^ 31
      → Advanced disk base c (get_next_cluster (holding disk) f c)
  advance f c a fits =
      let r =
        get_next_cluster_fetches disk small f c (Geometry-SameLayout a.layout g) a.coherent fits in
      record {
        value = r.value ∙ next_of-SameLayout disk base f c a.layout;
        alive = record { coherent = r.coherent; layout = SameLayout-trans a.layout r.layout };
      }

  here :
      (fuel : ℕ) (f : FatData) (c off : ℕ) (cs : List ℕ)
      → Alive disk base f
      → Chain disk base c cs
      → off < base.cluster_size
      → Sought disk base cs off (seek (holding disk) (suc fuel) f c off)
  unfolding seek
  here fuel f c off cs a chain lt =
      let stop : leb f.cluster_size off ≡ false = ground (arith, a.layout.cluster_size) in
      rw stop (record {
        cluster = c;
        offset = off;
        after = f;
        rest = cs;
        run = refl;
        alive = a;
        chain = chain;
        place = sym (mod-eq_of_lt lt);
        left = refl;
        count = refl;
      })

  -- An offset inside the chain is found in it, with fuel for each cluster on the way.
  pub seek-Sought :
      (fuel : ℕ) (f : FatData) (c off : ℕ) (cs : List ℕ)
      → Alive disk base f
      → Chain disk base c cs
      → 0 < base.cluster_size
      → off < fuel
      → off < length (contents disk base cs)
      → Sought disk base cs off (seek (holding disk) fuel f c off)
  unfolding seek contents
  seek-Sought zero f c off cs a chain pos enough inside = absurd (omega arith)
  seek-Sought (suc fuel) f _ off _ a (chain_end c nonzero fits) pos enough inside =
      here fuel f c off (c ∷ []) a (chain_end c nonzero fits) (
        omega (
          arith,
          inside,
          length-append (bytes_at disk c base.cluster_size) [],
          length-bytes_at disk c base.cluster_size,
        ))
  seek-Sought (suc fuel) f _ off _ a (chain_step c cs nonzero fits rest) pos enough inside =
      elim (Bool-cases (leb base.cluster_size off)) [
        | inr e ↦ here fuel f c off (c ∷ cs) a (chain_step c cs nonzero fits rest) (ground arith)
        | inl e ↦
            let step = advance f c a fits in
            let r = get_next_cluster (holding disk) f c in
            let go : leb f.cluster_size off ≡ true = ground (arith, a.layout.cluster_size) in
            let more : (r.0 == 0) ≡ false = ground (arith, step.value, head_nonzero rest) in
            let room = length-append (bytes_at disk c base.cluster_size) (contents disk base cs) in
            let size = length-bytes_at disk c base.cluster_size in
            let le : base.cluster_size ≤ off = ground (arith, e) in
            let s =
              seek-Sought fuel r.1 r.0 (off - base.cluster_size) cs step.alive
                (subst (λ t. Chain disk base t cs) (sym step.value) rest) pos
                (omega (arith, pos, enough, le)) (omega (arith, inside, room, size, le)) in
            rw (go, more)
              (record {
                cluster = s.cluster;
                offset = s.offset;
                after = s.after;
                rest = s.rest;
                run =
                    ap (λ t. seek (holding disk) fuel r.1 r.0 (off - t)) a.layout.cluster_size
                    ∙ s.run;
                alive = s.alive;
                chain = s.chain;
                place = s.place ∙ sym (mod-eq-sub-mod le);
                left =
                    drop_past (bytes_at disk c base.cluster_size) (contents disk base cs) off
                      (omega (arith, size, le))
                    ∙ ap (λ t. drop (off - t) (contents disk base cs)) size
                    ∙ s.left;
                count = omega (arith, s.count, room, size, le);
              })
      ]
