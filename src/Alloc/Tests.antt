-- ===== src/Alloc/Tests.antt =====
-- Runs of the allocator, and the theorems at a small heap.
use lboot.Base.{
  ◌%◌, ◌⊎◌, ℕ, ◌+◌, ◌≤◌, ◌<◌, ◌≡◌, refl, arith, [], ◌∷◌, false, some, replicate, returns, panics,
}
use lboot.Alloc.Entries.{Heap, zero_entry, free_entry, used_entry, fill_slot, add_alloc, alloc_init}
use lboot.Alloc.Cover.{cover, total-replicate}
use lboot.Alloc.Slots.{AllInBounds-replicate}
use lboot.Alloc.Find.{
  alloc, alloc_by, find_free, walk, visit, fit, align_up, take_found, carve, alignment, found_none,
  range_32b, Choice,
}
use lboot.Alloc.Free.{look, look_all, release, do_free, free}
use lboot.Alloc.Choose.{Chosen, walk_best}
use lboot.Alloc.Valid.{
  covered, in_use, IsValid, Served, FreeOutcome, alloc_init-IsValid, alloc-Served, free-FreeOutcome,
}
use lboot.Alloc.Progress.{alloc_serves}

-- The table of entries in use, and what is free below and above 64 KiB.
abbrev demo : Heap
demo = record {
  blocks = 0x9000 ∷ [];
  entries = used_entry 0x9000 0x600 ∷ free_entry 0x9600 0x20000 ∷ replicate 100 zero_entry;
}

-- 100 bytes aligned to 8 above 64 KiB: a free entry before, one behind, and the request.
abbrev served : Heap
served = record {
  blocks = 0x9000 ∷ [];
  entries =
      used_entry 0x9000 0x600
      ∷ free_entry 0x10064 0x1959C
      ∷ free_entry 0x9600 0x6A00
      ∷ used_entry 0x10000 100
      ∷ replicate 98 zero_entry;
}

alloc-demo : alloc demo 100 19 ≡ returns (0x10000, served)
unfolding alloc alloc_by find_free walk visit fit align_up take_found carve alignment add_alloc
    fill_slot
alloc-demo = refl

-- Freeing joins the entry with both neighbours, whose slots become free again.
free-served :
    free served 0x10000
    ≡ returns (record {
      blocks = 0x9000 ∷ [];
      entries =
          used_entry 0x9000 0x600
          ∷ record { valid = false; used = false; addr = 0x10064; size = 0x1959C }
          ∷ record { valid = false; used = false; addr = 0x9600; size = 0x6A00 }
          ∷ free_entry 0x9600 0x20000
          ∷ replicate 98 zero_entry;
    })
unfolding free do_free look_all look release
free-served = refl

free_unknown : free served 0x10001 ≡ panics
unfolding free do_free look_all look release
free_unknown = refl

demo-IsValid : IsValid demo
demo-IsValid = record {
  bounds = (λ _. omega arith, (λ _. omega arith, AllInBounds-replicate 100));
  apart = λ x. ground (arith, total-replicate (cover x) 100 zero_entry refl);
  no_null = total-replicate (cover 0) 100 zero_entry refl;
  room = omega arith;
}

alloc-Served_example : Served 19 100 demo 0x10000 served
alloc-Served_example = alloc-Served demo 100 19 demo-IsValid refl alloc-demo

free-FreeOutcome_example : FreeOutcome demo 0x9000 (free demo 0x9000)
free-FreeOutcome_example = free-FreeOutcome demo 0x9000 demo-IsValid

alloc_serves_example : (addr : ℕ) × (k : Heap) × (alloc demo 100 19 ≡ returns (addr, k))
unfolding fit align_up alignment
alloc_serves_example =
    alloc_serves demo 100 19 1 (free_entry 0x9600 0x20000) 0x10000 demo-IsValid (omega arith)
      (omega arith) refl refl refl refl

walk_best_example :
    (c : Choice) × ((walk range_32b 8 100 0 demo.entries found_none).choice ≡ some c)
    × Chosen range_32b 8 100 demo.entries c
    × (c.entry.size ≤ 0x20000)
unfolding fit align_up
walk_best_example =
    walk_best range_32b 8 100 demo.entries 1 (free_entry 0x9600 0x20000) 0x10000 refl refl refl refl

alloc_init-IsValid_example :
    (h : Heap) × (block : ℕ) × (alloc_init 0x9001 0x60000 ≡ returns h)
    × IsValid h
    × (h.blocks ≡ block ∷ [])
    × ((0x9001 ≤ block) × (block < 0x9001 + 4) × (block % 4 ≡ 0))
    × ((x : ℕ) → in_use h x ≡ 0)
    × ((x : ℕ) → block + 1540 ≤ x → x < 0x9001 + 0x60000 → covered h x ≡ 1)
    × ((x : ℕ) → (x < block + 1540) ⊎ (0x9001 + 0x60000 ≤ x) → covered h x ≡ 0)
alloc_init-IsValid_example =
    alloc_init-IsValid 0x9001 0x60000 (omega arith) (omega arith) (omega arith)
