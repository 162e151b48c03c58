-- ===== src/Exec/Segments.antt =====
-- What `_elf_load_phdr` leaves in memory.
use lboot.Base.{ℕ, ◌+◌, ◌≤◌, ◌<◌, ◌≡◌, ◌∙◌, refl, List, ◌∷◌, true, false, arith}
use lboot.Exec.Elf.{FileRead, Phdr, Exec, is_load, load_phdr}
use lboot.Exec.Segment.{
  ForLoads, no_more, passed, loaded, Outside, Apart, Loadable, no_segment, other, segment, Image,
  load_one-One,
}

-- An address in a segment is outside the segments apart from it.
elsewhere :
    (a : ℕ) (p : Phdr) (ps : List Phdr)
    → p.paddr ≤ a
    → a < p.paddr + p.memsz
    → ForLoads (Apart p) ps
    → ForLoads (Outside a) ps
elsewhere a p _ ge lt no_more = no_more
elsewhere a p _ ge lt (passed q qs other_type rest) =
    passed q qs other_type (elsewhere a p qs ge lt rest)
elsewhere a p _ ge lt (loaded q qs load apart rest) =
    loaded q qs load (ground (arith, apart)) (elsewhere a p qs ge lt rest)

head_of : {P : Phdr → Type 0} {p : Phdr} {ps : List Phdr} → p.type ≡ 1 → ForLoads P (p ∷ ps) → P p
head_of e (passed p ps other_type rest) = absurd (other_type e)
head_of e (loaded p ps load here rest) = here

tail_of : {P : Phdr → Type 0} {p : Phdr} {ps : List Phdr} → ForLoads P (p ∷ ps) → ForLoads P ps
tail_of (passed p ps other_type rest) = rest
tail_of (loaded p ps load here rest) = rest

-- Segments to load that do not overlap, whose file parts can be read and fit in their memory parts, and
-- which end below 4 GiB, are all loaded: each is in memory, the bytes of the file with zeros after
-- them, and lies within the bounds recorded; memory outside of the segments is as it was.
pub load_phdr-Image :
    (file_read : FileRead) (ps : List Phdr) (exec : Exec)
    → Loadable file_read ps
    → Image file_read ps exec (load_phdr file_read ps exec)
unfolding load_phdr
load_phdr-Image file_read _ exec no_segment = record {
  after = exec;
  run = refl;
  in_memory = no_more;
  frame = λ a o. refl;
  within = no_more;
  begin_le = omega arith;
  end_le = omega arith;
  same_entry = refl;
}
load_phdr-Image file_read _ exec (other p ps other_type rest) =
    let i = load_phdr-Image file_read ps exec rest in
    let skip : is_load p ≡ false = ground (arith, other_type) in
    record {
      after = i.after;
      run = rw skip i.run;
      in_memory = passed p ps other_type i.in_memory;
      frame = λ a o. i.frame a (tail_of o);
      within = passed p ps other_type i.within;
      begin_le = i.begin_le;
      end_le = i.end_le;
      same_entry = i.same_entry;
    }
load_phdr-Image file_read _ exec (segment p ps load r apart rest) =
    let one = load_one-One file_read p r exec in
    let i = load_phdr-Image file_read ps one.after rest in
    let go : is_load p ≡ true = ground (arith, load) in
    record {
      after = i.after;
      run = rw (go, one.run) i.run;
      in_memory =
          loaded p ps load
            (record {
              bytes = one.in_memory.bytes;
              read = one.in_memory.read;
              held = λ k lt.
                  i.frame (p.paddr + k)
                    (elsewhere (p.paddr + k) p ps (omega arith) (omega (arith, lt, r.fits)) apart)
                  ∙ one.in_memory.held k lt;
              cleared = λ k ge lt.
                  i.frame (p.paddr + k)
                    (elsewhere (p.paddr + k) p ps (omega arith) (omega (arith, lt)) apart)
                  ∙ one.in_memory.cleared k ge lt;
            })
            i.in_memory;
      frame = λ a o. i.frame a (tail_of o) ∙ one.frame a (head_of load o);
      within =
          loaded p ps load
            (record {
              from = omega (arith, i.begin_le, one.within.from);
              to = omega (arith, i.end_le, one.within.to);
            })
            i.within;
      begin_le = omega (arith, i.begin_le, one.begin_le);
      end_le = omega (arith, i.end_le, one.end_le);
      same_entry = i.same_entry ∙ one.same_entry;
    }
