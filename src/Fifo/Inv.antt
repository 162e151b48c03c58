-- ===== src/Fifo/Inv.antt =====
-- The representation invariant of `fifo_t`, and the two byte counts.
use lboot.Base.{ℕ, ◌+◌, ◌^◌, ◌≤◌, ◌<◌, ◌≡◌, arith, length, length-set}
use lboot.Fifo.{Fifo, write_byte, read_byte, fifo_getfree, fifo_getused}

pub record IsValid (f : Fifo) : Type 0 where
  pub storage : f.size ≤ length f.buf
  pub small : f.size < 2 ^ 32
  pub head_in : f.head < f.size
  pub tail_in : f.tail < f.size

pub write_byte-IsValid : {f : Fifo} (x : ℕ) → IsValid f → IsValid (write_byte f x)
unfolding write_byte
write_byte-IsValid {f} x v = ground (arith, length-set f.buf f.tail x)

pub read_byte-IsValid : {f : Fifo} → IsValid f → IsValid (read_byte f).1
unfolding read_byte
read_byte-IsValid {f} v = ground arith

-- Used and free bytes make up the size less one, with no wrap in either count.
pub getused-add-getfree : {f : Fifo} → IsValid f → fifo_getused f + fifo_getfree f + 1 ≡ f.size
unfolding fifo_getused fifo_getfree
getused-add-getfree {f} v = ground arith

pub getused-write_byte :
    {f : Fifo} (x : ℕ)
    → IsValid f
    → 0 < fifo_getfree f
    → fifo_getused (write_byte f x) ≡ fifo_getused f + 1
unfolding fifo_getused fifo_getfree write_byte
getused-write_byte {f} x v h = ground arith

pub getused-read_byte :
    {f : Fifo} → IsValid f → 0 < fifo_getused f → fifo_getused (read_byte f).1 + 1 ≡ fifo_getused f
unfolding fifo_getused read_byte
getused-read_byte {f} v h = ground arith
