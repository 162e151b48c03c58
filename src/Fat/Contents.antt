-- ===== src/Fat/Contents.antt =====
-- What `_fat_file_read` reads of a file is what its chain of clusters holds.
use lboot.Base.{
  ℕ, zero, suc, ◌+◌, ◌-◌, ◌%◌, ◌^◌, ◌≤◌, ◌<◌, ◌≡◌, ◌≢◌, ◌⊎◌, ◌∙◌, ap, ap₂, sym, refl, subst, List,
  [], ◌++◌, ◌==◌, leb, ltb, true, false, length, take, drop, arith, some, u32, Bool-cases, inl, inr,
  length-append, append_assoc, take_exact, take_within, take_past, drop_past, drop_within,
  drop-drop, length-take, length-drop, Outcome, returns, not, ◌&&◌,
}
use lboot.Fat.Cache.{FatData}
use lboot.Fat.Table.{get_next_cluster}
use lboot.Fat.File.{File, Read, is_directory, memcpy_at, read_loop, file_read}
use lboot.Fat.Disk.{bytes_at, holding, Coherent, Geometry}
use lboot.Fat.Coherence.{SameLayout-refl}
use lboot.Fat.Entries.{in_cluster}
use lboot.Fat.Chain.{next_of, Chain, chain_end, chain_step, contents, length-bytes_at}
use lboot.Fat.Walk.{Alive, advance, head_nonzero, seek-Sought}

-- A copy past what is done so far overwrites as much of what was there.
memcpy_at_done :
    (done old bytes : List ℕ)
    → memcpy_at (done ++ old) (length done) bytes ≡ (done ++ bytes) ++ drop (length bytes) old
memcpy_at_done done old bytes = rw (take_exact done old (length done) refl) (
    ap (λ t. done ++ (bytes ++ t))
      (drop_past done old (length done + length bytes) (omega arith)
        ∙ ap (λ t. drop t old) (omega arith))
    ∙ sym (append_assoc done bytes (drop (length bytes) old)))

-- A run that succeeds with `sz`, and leaves this buffer.
pub record Copied (disk : ℕ → ℕ) (base : FatData) (sz : ℕ) (buf : List ℕ) (out : Outcome Read)
    : Type 0 where
  pub after : FatData
  pub run : out ≡ returns (record { result = some sz; buf = buf; fdata = after })
  pub alive : Alive disk base after

minus_zero : (n : ℕ) → n - 0 ≡ n
minus_zero n = omega arith

Copied-same :
    {disk : ℕ → ℕ} {base : FatData} {sz : ℕ} {b b' : List ℕ} {out out' : Outcome Read}
    → b ≡ b'
    → out ≡ out'
    → Copied disk base sz b out
    → Copied disk base sz b' out'
Copied-same {disk} {base} {sz} {b} {b'} {out} {out'} same run c =
    subst (λ t. Copied disk base sz t out') same (subst (λ t. Copied disk base sz b t) run c)

module _ (disk : ℕ → ℕ) (small : (a : ℕ) → disk a < 256) (base : FatData) (g : Geometry base) where
  finished :
      (fuel : ℕ) (f : FatData) (c pos sz : ℕ) (buf : List ℕ)
      → Alive disk base f
      → sz ≤ pos
      → 0 < fuel
      → Copied disk base sz buf (read_loop (holding disk) fuel f c 0 pos sz buf)
  unfolding read_loop
  finished zero f c pos sz buf a h fuelled = absurd (omega arith)
  finished (suc fuel) f c pos sz buf a h fuelled =
      let stop : ltb pos sz ≡ false = ground arith in
      rw stop (record { after = f; run = refl; alive = a })

  -- What is left to read is in this cluster.
  within :
      (fuel : ℕ) (f : FatData) (c off sz : ℕ) (done old rest : List ℕ)
      → Alive disk base f
      → length done < sz
      → off ≤ base.cluster_size
      → sz - length done ≤ base.cluster_size - off
      → 0 < fuel
      → Copied disk base sz
          (done
            ++ (take (sz - length done) (drop off (bytes_at disk c base.cluster_size ++ rest))
                ++ drop (sz - length done) old))
          (read_loop (holding disk) (suc fuel) f c off (length done) sz (done ++ old))
  unfolding read_loop
  within fuel f c off sz done old rest a more inside fits fuelled =
      let same = a.layout.cluster_size in
      let k = sz - length done in
      let bytes = bytes_at disk c base.cluster_size in
      let x = take k (drop off (bytes_at disk c f.cluster_size)) in
      let go : ltb (length done) sz ≡ true = ground arith in
      let near : leb k (f.cluster_size - off) ≡ true = ground (arith, same) in
      let size = length-bytes_at disk c base.cluster_size in
      let short = length-drop off bytes in
      let x_eq : x ≡ take k (drop off (bytes ++ rest)) =
        ap (λ t. take k (drop off (bytes_at disk c t))) same
        ∙ sym (take_within (drop off bytes) rest k (omega (arith, size, short, fits)))
        ∙ ap (take k) (sym (drop_within bytes rest off (omega (arith, size, inside)))) in
      let x_length : length x ≡ k =
        ap (λ t. length (take k (drop off (bytes_at disk c t)))) same
        ∙ length-take k (drop off bytes)
        ∙ omega (arith, size, short, fits) in
      let m = memcpy_at (done ++ old) (length done) x in
      let m_eq =
        memcpy_at_done done old x
        ∙ append_assoc done x (drop (length x) old)
        ∙ ap₂ (λ t n. done ++ (t ++ drop n old)) x_eq x_length in
      rw (go, near)
        (Copied-same m_eq refl (
          finished fuel f c (length done + f.cluster_size) sz m a (omega (arith, same, fits))
            fuelled))

  -- A cluster that is not the last one wanted is read whole.
  through :
      (fuel : ℕ) (f : FatData) (c sz : ℕ) (done old : List ℕ)
      → Alive disk base f
      → next_of disk base c ≢ 0
      → c < 2 ^ 31
      → base.cluster_size < sz - length done
      → (let r = get_next_cluster (holding disk) f c in
          let bytes = bytes_at disk c base.cluster_size in
          read_loop (holding disk) (suc fuel) f c 0 (length done) sz (done ++ old)
          ≡ read_loop
              (holding disk)
              fuel
              r.1
              r.0
              0
              (length (done ++ bytes))
              sz
              ((done ++ bytes) ++ drop base.cluster_size old))
  unfolding read_loop
  through fuel f c sz done old a more fits far =
      let same = a.layout.cluster_size in
      let r = get_next_cluster (holding disk) f c in
      let bytes = bytes_at disk c base.cluster_size in
      let x = take (f.cluster_size - 0) (bytes_at disk c f.cluster_size) in
      let size = length-bytes_at disk c base.cluster_size in
      let go : ltb (length done) sz ≡ true = ground arith in
      let big : leb (sz - length done) (f.cluster_size - 0) ≡ false = ground (arith, same) in
      let step : (r.0 == 0) ≡ false =
        ground (arith, (advance disk small base g f c a fits).value, more) in
      let x_eq : x ≡ bytes =
        ap (λ t. take (t - 0) (bytes_at disk c t)) same
        ∙ sym (take_within bytes [] (base.cluster_size - 0) (omega (arith, size)))
        ∙ take_exact bytes [] (base.cluster_size - 0) (omega (arith, size)) in
      let pos : length done + f.cluster_size ≡ length (done ++ bytes) =
        omega (arith, same, size, length-append done bytes) in
      let m_eq =
        memcpy_at_done done old x
        ∙ ap (λ t. (done ++ t) ++ drop (length t) old) x_eq
        ∙ ap (λ t. (done ++ bytes) ++ drop t old) size in
      rw (go, big, step) (ap₂ (λ p b. read_loop (holding disk) fuel r.1 r.0 0 p sz b) pos m_eq)

  read_loop-Copied :
      (fuel : ℕ) (f : FatData) (c sz : ℕ) (cs done old : List ℕ)
      → Alive disk base f
      → Chain disk base c cs
      → length done < sz
      → sz ≤ length done + length (contents disk base cs)
      → sz ≤ length done + fuel
      → Copied disk base sz
          (done ++ (take (sz - length done) (contents disk base cs) ++ drop (sz - length done) old))
          (read_loop (holding disk) (suc fuel) f c 0 (length done) sz (done ++ old))
  unfolding read_loop contents
  read_loop-Copied fuel f _ sz _ done old a (chain_end c nonzero fits) more inside enough =
      let room = length-append (bytes_at disk c base.cluster_size) [] in
      let size = length-bytes_at disk c base.cluster_size in
      within fuel f c 0 sz done old [] a more (omega arith) (omega (arith, room, size, inside))
        (omega (arith, enough, more))
  read_loop-Copied zero f _ sz _ done old a (chain_step c cs nonzero fits rest) more inside enough =
      absurd (omega (arith, more, enough))
  read_loop-Copied (suc fuel) f _ sz _ done old a (chain_step c cs nonzero fits rest) more inside
        enough =
      elim (Bool-cases (leb (sz - length done) base.cluster_size)) [
        | inl e ↦
            within (suc fuel) f c 0 sz done old (contents disk base cs) a more (omega arith)
              (ground arith) (omega arith)
        | inr e ↦
            let far : base.cluster_size < sz - length done = ground arith in
            let r = get_next_cluster (holding disk) f c in
            let step = advance disk small base g f c a fits in
            let bytes = bytes_at disk c base.cluster_size in
            let tail = contents disk base cs in
            let size = length-bytes_at disk c base.cluster_size in
            let longer = length-append done bytes in
            let room = length-append bytes tail in
            let k = sz - length done in
            let j = sz - length (done ++ bytes) in
            let some_bytes : 0 < base.cluster_size = omega (arith, in_cluster base 0 g) in
            let copied =
              read_loop-Copied fuel r.1 r.0 sz cs (done ++ bytes) (drop base.cluster_size old)
                step.alive (subst (λ t. Chain disk base t cs) (sym step.value) rest)
                (omega (arith, longer, size, far)) (omega (arith, longer, room, size, inside))
                (omega (arith, longer, size, enough, some_bytes)) in
            let taken : bytes ++ take j tail ≡ take k (bytes ++ tail) =
              ap (λ t. bytes ++ take t tail) (omega (arith, longer))
              ∙ sym (take_past bytes tail k (omega (arith, size, far))) in
            let old_eq : drop j (drop base.cluster_size old) ≡ drop k old =
              drop-drop j base.cluster_size old
              ∙ ap (λ t. drop t old) (omega (arith, longer, size, far)) in
            Copied-same
              (append_assoc done bytes (take j tail ++ drop j (drop base.cluster_size old))
                ∙ ap (λ t. done ++ t)
                    (sym (append_assoc bytes (take j tail) (drop j (drop base.cluster_size old)))
                      ∙ ap₂ (λ t o. t ++ o) taken old_eq))
              (sym (through (suc fuel) f c sz done old a (head_nonzero rest) fits far)) copied
      ]

  start_within :
      (f : FatData) (c o sz : ℕ) (buf rest : List ℕ)
      → Alive disk base f
      → 0 < sz
      → o + sz ≤ base.cluster_size
      → Copied disk base sz
          (take sz (drop o (bytes_at disk c base.cluster_size ++ rest)) ++ drop sz buf)
          (read_loop (holding disk) (suc sz) f c o 0 sz buf)
  start_within f c o sz buf rest a some_bytes one_cluster =
      let held = drop o (bytes_at disk c base.cluster_size ++ rest) in
      Copied-same (ap (λ k. take k held ++ drop k buf) (minus_zero sz)) refl (
        within sz f c o sz [] buf rest a some_bytes (omega arith) (omega (arith, one_cluster))
          some_bytes)

  start_read :
      (f : FatData) (c o sz : ℕ) (buf cs : List ℕ)
      → Alive disk base f
      → Chain disk base c cs
      → 0 < sz
      → o + sz ≤ length (contents disk base cs)
      → (o ≡ 0) ⊎ (o + sz ≤ base.cluster_size)
      → Copied disk base sz
          (take sz (drop o (contents disk base cs)) ++ drop sz buf)
          (read_loop (holding disk) (suc sz) f c o 0 sz buf)
  unfolding contents
  start_read f c o sz buf cs a chain some_bytes inside (inl e) =
      let held = contents disk base cs in
      let from_start =
        read_loop-Copied sz f c sz cs [] buf a chain some_bytes (omega (arith, inside))
          (omega arith) in
      subst
        (λ t.
          Copied disk base sz (take sz (drop t held) ++ drop sz buf)
            (read_loop (holding disk) (suc sz) f c t 0 sz buf))
        (sym e) (Copied-same (ap (λ k. take k held ++ drop k buf) (minus_zero sz)) refl from_start)
  start_read f _ o sz buf _ a (chain_end c nonzero fits) some_bytes inside (inr h) =
      start_within f c o sz buf [] a some_bytes h
  start_read f _ o sz buf _ a (chain_step c cs nonzero fits rest) some_bytes inside (inr h) =
      start_within f c o sz buf (contents disk base cs) a some_bytes h

  -- A read of at least one byte that lies within the file, and within the clusters of its chain,
  -- succeeds and puts the bytes of the chain from that offset on at the start of the buffer,
  -- provided that the offset is at the start of a cluster or that the read ends in the cluster in
  -- which it starts. The cache is coherent after it if it was before.
  pub file_read-eq-contents :
      (file : File) (cs buf : List ℕ) (sz off : ℕ)
      → Coherent disk base
      → Chain disk base file.first_cluster cs
      → 0 < sz
      → off + sz ≤ length (contents disk base cs)
      → (is_directory file ≡ true) ⊎ (off + sz ≤ file.size)
      → (off % base.cluster_size ≡ 0) ⊎ (off % base.cluster_size + sz ≤ base.cluster_size)
      → Copied disk base sz
          (take sz (drop off (contents disk base cs)) ++ drop sz buf)
          (file_read (holding disk) base file buf sz off)
  unfolding file_read
  file_read-eq-contents file cs buf sz off co chain some_bytes inside allowed placed =
      let alive : Alive disk base base = record { coherent = co; layout = SameLayout-refl base } in
      let s =
        seek-Sought disk small base g (suc off) base file.first_cluster off cs alive chain
          (omega (arith, in_cluster base 0 g)) (omega arith) (omega arith) in
      let cut : u32 (off + sz) ≤ off + sz = omega arith in
      let guard : (not (is_directory file) && ltb file.size (u32 (off + sz))) ≡ false =
        ground (arith, allowed, cut) in
      let copied =
        start_read s.after s.cluster s.offset sz buf s.rest s.alive s.chain some_bytes
          (omega (arith, s.count, inside)) (ground (arith, placed, s.place)) in
      rw (guard, s.run) (Copied-same (ap (λ t. take sz t ++ drop sz buf) (sym s.left)) refl copied)
