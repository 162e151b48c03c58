-- ===== src/Fifo/Tests.antt =====
-- Runs of the ring, and the theorems at a ring that has wrapped round its end.
use lboot.Base.{ℕ, ◌+◌, ◌≡◌, refl, arith, List, [], ◌∷◌, true, false, ok, failed}
use lboot.Fifo.{
  Fifo, fifo_init, write_byte, read_byte, fifo_getfree, fifo_getused, write_loop, read_loop,
  dump_loop, fifo_write, fifo_read,
}
use lboot.Fifo.Inv.{IsValid, getused-add-getfree}
use lboot.Fifo.Queue.{Queue, enqueue, dequeue}
use lboot.Fifo.Refine.{
  view, fifo_init-IsValid, fifo_write_refines, fifo_read_refines, Call, put, get, run, run_queue,
  run-run_queue,
}

-- Four places, the oldest byte 8 in the last one.
abbrev wrapped : Fifo
wrapped = record { base = 0x9000; buf = 9 ∷ 7 ∷ 7 ∷ 8 ∷ []; size = 4; head = 3; tail = 1 }

abbrev held : Queue
held = record { cap = 3; items = 8 ∷ 9 ∷ [] }

abbrev script : List Call
script = put (1 ∷ 2 ∷ []) ∷ put (1 ∷ []) ∷ get false 1 ∷ get true 2 ∷ get true 1 ∷ []

wrapped-IsValid : IsValid wrapped
wrapped-IsValid = omega arith

run-wrapped :
    run wrapped script ≡ (failed, []) ∷ (ok, []) ∷ (ok, []) ∷ (ok, 9 ∷ 1 ∷ []) ∷ (failed, []) ∷ []
unfolding run fifo_write fifo_read write_loop read_loop dump_loop write_byte read_byte fifo_getfree
    fifo_getused
run-wrapped = refl

abbrev memory : ℕ → ℕ → ℕ × List ℕ
memory sz flags = (0x9000, 5 ∷ 5 ∷ 5 ∷ 5 ∷ [])

getused-add-getfree_example : fifo_getused wrapped + fifo_getfree wrapped + 1 ≡ 4
getused-add-getfree_example = getused-add-getfree wrapped-IsValid

fifo_init-IsValid_example :
    IsValid (fifo_init memory 4).1 × (view (fifo_init memory 4).1 ≡ record { cap = 3; items = [] })
fifo_init-IsValid_example = fifo_init-IsValid memory 4 (omega arith) (omega arith) (omega arith)

fifo_write_refines_example :
    IsValid (fifo_write wrapped (1 ∷ [])).1
    × (((fifo_write wrapped (1 ∷ [])).0, view (fifo_write wrapped (1 ∷ [])).1)
        ≡ enqueue (view wrapped) (1 ∷ []))
fifo_write_refines_example = fifo_write_refines wrapped (1 ∷ []) wrapped-IsValid

fifo_read_refines_example :
    IsValid (fifo_read wrapped true 2).2
    × ((
      (fifo_read wrapped true 2).0,
      (fifo_read wrapped true 2).1,
      view (fifo_read wrapped true 2).2,
    )
        ≡ dequeue (view wrapped) true 2)
fifo_read_refines_example = fifo_read_refines wrapped true 2 wrapped-IsValid

run-run_queue_example : run wrapped script ≡ run_queue (view wrapped) script
run-run_queue_example = run-run_queue script wrapped wrapped-IsValid
