-- ===== src/Fifo/Refine.antt =====
-- A valid ring behaves as a queue of bytes that holds one byte less than its buffer.
use lboot.Base.{
  ℕ, ◌-◌, ◌≤◌, ◌<◌, ◌^◌, ◌≡◌, refl, ap, arith, List, [], ◌∷◌, Bool, true, false, ltb, length,
  Status, Bool-cases, inl, inr,
}
use lboot.Fifo.{Fifo, fifo_init, fifo_getfree, fifo_getused, fifo_write, fifo_read}
use lboot.Fifo.Inv.{IsValid, getused-add-getfree}
use lboot.Fifo.Window.{contents, length-contents}
use lboot.Fifo.Loops.{write_loop-Wrote, read_loop-Took, dump_loop-read_loop}
use lboot.Fifo.Queue.{Queue, enqueue, dequeue}

abbrev pub view : Fifo → Queue
view f = record { cap = f.size - 1; items = contents f }

-- A ring made by `fifo_init` over memory of the asked size is valid and empty.
pub fifo_init-IsValid :
    (alloc : ℕ → ℕ → ℕ × List ℕ) (sz : ℕ)
    → 0 < sz
    → sz < 2 ^ 32
    → sz ≤ length (alloc sz 0).1
    → IsValid (fifo_init alloc sz).1
      × (view (fifo_init alloc sz).1 ≡ record { cap = sz - 1; items = [] })
unfolding fifo_init fifo_getused
fifo_init-IsValid alloc sz pos small fits = (omega arith, ground arith)

-- On a valid ring `fifo_write` does what the queue's `enqueue` does: it appends all the bytes, or
-- fails and leaves the ring as it is when they do not all fit. The ring stays valid.
pub fifo_write_refines :
    (f : Fifo) (src : List ℕ)
    → IsValid f
    → IsValid (fifo_write f src).1
      × (((fifo_write f src).0, view (fifo_write f src).1) ≡ enqueue (view f) src)
unfolding fifo_write enqueue
fifo_write_refines f src v = elim (Bool-cases (ltb (fifo_getfree f) (length src))) [
  | inl full ↦ rw full (v, ground (arith, length-contents f, getused-add-getfree v))
  | inr fits ↦ rw fits (
      let w = write_loop-Wrote src f v (ground arith) in
      (w.valid, ground (arith, length-contents f, getused-add-getfree v, w.bytes, w.same_size)))
]

-- On a valid ring `fifo_read` does what `dequeue` does: with a destination it stores the oldest
-- bytes in order, without one it drops them, and it fails with no effect when there are too few.
pub fifo_read_refines :
    (f : Fifo) (has_buf : Bool) (sz : ℕ)
    → IsValid f
    → IsValid (fifo_read f has_buf sz).2
      × (((fifo_read f has_buf sz).0, (fifo_read f has_buf sz).1, view (fifo_read f has_buf sz).2)
          ≡ dequeue (view f) has_buf sz)
unfolding fifo_read dequeue
fifo_read_refines f true sz v = elim (Bool-cases (ltb (fifo_getused f) sz)) [
  | inl short ↦ rw short (v, ground (arith, length-contents f))
  | inr enough ↦ rw enough (
      let t = read_loop-Took sz f v (ground arith) in
      (t.valid, ground (arith, length-contents f, t.bytes, t.rest, t.same_size)))
]
fifo_read_refines f false sz v = elim (Bool-cases (ltb (fifo_getused f) sz)) [
  | inl short ↦ rw short (v, ground (arith, length-contents f))
  | inr enough ↦
      rw (enough, dump_loop-read_loop sz f)
        (let t = read_loop-Took sz f v (ground arith) in
          (t.valid, ground (arith, length-contents f, t.rest, t.same_size)))
]

-- A client's calls, in order, and what it sees of each.
pub data Call : Type 0 where
  put : List ℕ → Call
  get : Bool → ℕ → Call

abbrev pub Reply : Type 0
Reply = Status × List ℕ

unfoldable pub run : Fifo → List Call → List Reply
run f [] = []
run f (put src ∷ calls) = let (s, g) = fifo_write f src in (s, []) ∷ run g calls
run f (get has_buf sz ∷ calls) =
    let (s, bytes, g) = fifo_read f has_buf sz in (s, bytes) ∷ run g calls

unfoldable pub run_queue : Queue → List Call → List Reply
run_queue q [] = []
run_queue q (put src ∷ calls) = let (s, p) = enqueue q src in (s, []) ∷ run_queue p calls
run_queue q (get wanted n ∷ calls) =
    let (s, bytes, p) = dequeue q wanted n in (s, bytes) ∷ run_queue p calls

-- No sequence of `fifo_write` and `fifo_read` calls tells a valid ring from the queue of its bytes.
pub run-run_queue :
    (calls : List Call) (f : Fifo) → IsValid f → run f calls ≡ run_queue (view f) calls
unfolding run run_queue
run-run_queue [] f v = refl
run-run_queue (put src ∷ calls) f v =
    let (valid, same) = fifo_write_refines f src v in
    rw (← same) (ap (λ l. ((fifo_write f src).0, []) ∷ l) (run-run_queue calls _ valid))
run-run_queue (get has_buf sz ∷ calls) f v =
    let (valid, same) = fifo_read_refines f has_buf sz v in
    rw (← same) (
      ap (λ l. ((fifo_read f has_buf sz).0, (fifo_read f has_buf sz).1) ∷ l)
        (run-run_queue calls _ valid))
