-- ===== src/Fifo.antt =====
-- src/data/fifo.c and inc/data/fifo.h: the byte ring that the serial driver buffers with.
-- A function that updates `*fifo` returns the new record beside its status. The byte at index `i`
-- of the buffer is the `i`-th of the list; `uint32_t` sums wrap by `u32`.
pub mod Inv
pub mod Window
pub mod Queue
pub mod Loops
pub mod Refine
mod Tests
use lboot.Base.{
  ℕ, zero, suc, ◌+◌, ◌-◌, List, [], ◌∷◌, Bool, ◌&&◌, not, ltb, leb, ◌==◌, if◌then◌else◌, get_or,
  set, length, u32, sub_u32, Status, ok, failed,
}

-- `fifo_t`. `base` is the pointer `buf` and 0 is NULL; `buf` is the memory behind it.
pub record Fifo : Type 0 where
  pub base : ℕ
  pub buf : List ℕ
  pub size : ℕ
  pub head : ℕ
  pub tail : ℕ

-- The allocator gives an address and the bytes that stand there.
pub fifo_init : (ℕ → ℕ → ℕ × List ℕ) → ℕ → Status × Fifo
fifo_init alloc sz =
    let (addr, bytes) = alloc sz 0 in
    (ok, record { base = addr; buf = bytes; size = sz; head = 0; tail = 0 })

pub fifo_isinitialized : Fifo → Bool
fifo_isinitialized f = not (f.base == 0) && not (f.size == 0)

-- `_fifo_write_byte`
unfoldable pub write_byte : Fifo → ℕ → Fifo
write_byte f byte =
    let tail' = u32 (f.tail + 1) in
    record f { buf = set f.buf f.tail byte; tail = if leb f.size tail' then 0 else tail' }

-- `_fifo_read_byte`
unfoldable pub read_byte : Fifo → ℕ × Fifo
read_byte f =
    let head' = u32 (f.head + 1) in
    (get_or f.buf f.head 0, record f { head = if leb f.size head' then 0 else head' })

pub fifo_getfree : Fifo → ℕ
fifo_getfree f =
    if leb f.head f.tail
    then sub_u32 (sub_u32 f.size (sub_u32 f.tail f.head)) 1
    else sub_u32 (sub_u32 f.head f.tail) 1

pub fifo_getused : Fifo → ℕ
fifo_getused f =
    if leb f.head f.tail then sub_u32 f.tail f.head else sub_u32 f.size (sub_u32 f.head f.tail)

-- the loop of `fifo_write`, over the bytes that are left
pub write_loop : Fifo → List ℕ → Fifo
write_loop f [] = f
write_loop f (x ∷ xs) = write_loop (write_byte f x) xs

-- The list holds the `sz` bytes at `buf`.
pub fifo_write : Fifo → List ℕ → Status × Fifo
fifo_write f src = if ltb (fifo_getfree f) (length src) then (failed, f) else (ok, write_loop f src)

-- the loop of `fifo_read` with a destination: the bytes in order, and the ring after them
pub read_loop : ℕ → Fifo → List ℕ × Fifo
read_loop zero f = ([], f)
read_loop (suc n) f =
    let (byte, f') = read_byte f in let (rest, g) = read_loop n f' in (byte ∷ rest, g)

-- the loop of `fifo_read` without one
pub dump_loop : ℕ → Fifo → Fifo
dump_loop zero f = f
dump_loop (suc n) f = dump_loop n (read_byte f).1

-- The flag says whether `buf` is not NULL; the list is what is stored through it.
pub fifo_read : Fifo → Bool → ℕ → Status × List ℕ × Fifo
fifo_read f has_buf sz =
    if ltb (fifo_getused f) sz
    then (failed, [], f)
    else if has_buf
    then (let (bytes, g) = read_loop sz f in (ok, bytes, g))
    else (ok, [], dump_loop sz f)
