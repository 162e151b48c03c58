-- ===== src/Fifo/Loops.antt =====
-- What the byte routines and the loops over them do to the bytes that a ring holds.
use lboot.Base.{
  ℕ, zero, suc, ◌+◌, ◌≤◌, ◌<◌, ◌≡◌, refl, sym, ap, ◌∙◌, arith, List, [], ◌∷◌, ◌++◌, append-nil,
  append_assoc, length, take, drop, get_or,
}
use lboot.Fifo.{
  Fifo, write_byte, read_byte, fifo_getfree, fifo_getused, write_loop, read_loop, dump_loop,
}
use lboot.Fifo.Inv.{
  IsValid, write_byte-IsValid, read_byte-IsValid, getused-add-getfree, getused-write_byte,
  getused-read_byte,
}
use lboot.Fifo.Window.{next, place, window, contents, window-set}

pub size-write_byte : (f : Fifo) (x : ℕ) → (write_byte f x).size ≡ f.size
unfolding write_byte
size-write_byte f x = refl

size-read_byte : (f : Fifo) → (read_byte f).1.size ≡ f.size
unfolding read_byte
size-read_byte f = refl

tail_place : {f : Fifo} → IsValid f → f.tail ≡ place f.size f.head (fifo_getused f)
unfolding fifo_getused
tail_place {f} v = ground arith

contents-write_byte :
    {f : Fifo} (x : ℕ)
    → IsValid f
    → 0 < fifo_getfree f
    → contents (write_byte f x) ≡ contents f ++ (x ∷ [])
contents-write_byte {f} x v h = rw (getused-write_byte x v h) (
    rw add-one-used (
      unfold write_byte in
      window-set f.buf f.size x (fifo_getused f) f.head f.tail v.storage v.head_in
        (omega (arith, getused-add-getfree v)) (tail_place v)))
  where
    add-one-used : fifo_getused f + 1 ≡ suc (fifo_getused f)
    add-one-used = omega arith

head-read_byte : {f : Fifo} → IsValid f → (read_byte f).1.head ≡ next f.size f.head
unfolding read_byte
head-read_byte {f} v = ground arith

buf-read_byte : (f : Fifo) → (read_byte f).1.buf ≡ f.buf
unfolding read_byte
buf-read_byte f = refl

byte-read_byte : (f : Fifo) → (read_byte f).0 ≡ get_or f.buf f.head 0
unfolding read_byte
byte-read_byte f = refl

contents-read_byte :
    {f : Fifo}
    → IsValid f
    → 0 < fifo_getused f
    → contents f ≡ (read_byte f).0 ∷ contents (read_byte f).1
contents-read_byte {f} v h =
    ap (window f.buf f.size f.head) (used_suc)
    ∙ rw (byte-read_byte f, size-read_byte f, buf-read_byte f, head-read_byte v) refl
  where
    used_suc : fifo_getused f ≡ suc (fifo_getused (read_byte f).1)
    used_suc = omega (arith, getused-read_byte v h)

getfree-write_byte :
    {f : Fifo} (x : ℕ)
    → IsValid f
    → 0 < fifo_getfree f
    → fifo_getfree (write_byte f x) + 1 ≡ fifo_getfree f
getfree-write_byte {f} x v h = omega (
  arith,
  getused-write_byte x v h,
  getused-add-getfree v,
  getused-add-getfree (write_byte-IsValid x v),
  size-write_byte f x,
)

-- The write loop appends its bytes, if they fit.
pub record Wrote (f : Fifo) (src : List ℕ) (g : Fifo) : Type 0 where
  pub valid : IsValid g
  pub bytes : contents g ≡ contents f ++ src
  pub same_size : g.size ≡ f.size

pub write_loop-Wrote :
    (src : List ℕ) (f : Fifo)
    → IsValid f
    → length src ≤ fifo_getfree f
    → Wrote f src (write_loop f src)
unfolding write_loop
write_loop-Wrote [] f v h = record { valid = v; bytes = rw append-nil; same_size = refl }
write_loop-Wrote (x ∷ xs) f v h =
    let room : 0 < fifo_getfree f = omega arith in
    let rest =
      write_loop-Wrote xs (write_byte f x) (write_byte-IsValid x v)
        (omega (arith, getfree-write_byte x v room)) in
    record {
      valid = rest.valid;
      bytes =
          rest.bytes
          ∙ ap (λ l. l ++ xs) (contents-write_byte x v room)
          ∙ append_assoc (contents f) (x ∷ []) xs;
      same_size = rest.same_size ∙ size-write_byte f x;
    }

-- The read loop takes the oldest bytes, if there are so many.
pub record Took (f : Fifo) (n : ℕ) (out : List ℕ × Fifo) : Type 0 where
  pub valid : IsValid out.1
  pub bytes : out.0 ≡ take n (contents f)
  pub rest : contents out.1 ≡ drop n (contents f)
  pub same_size : out.1.size ≡ f.size

pub read_loop-Took : (n : ℕ) (f : Fifo) → IsValid f → n ≤ fifo_getused f → Took f n (read_loop n f)
unfolding read_loop
read_loop-Took zero f v h = record { valid = v; bytes = refl; rest = refl; same_size = refl }
read_loop-Took (suc n) f v h =
    let some_left : 0 < fifo_getused f = omega arith in
    let split = contents-read_byte v some_left in
    let later =
      read_loop-Took n (read_byte f).1 (read_byte-IsValid v)
        (omega (arith, getused-read_byte v some_left)) in
    record {
      valid = later.valid;
      bytes = ap (λ l. (read_byte f).0 ∷ l) later.bytes ∙ sym (ap (take (suc n)) split);
      rest = later.rest ∙ sym (ap (drop (suc n)) split);
      same_size = later.same_size ∙ size-read_byte f;
    }

pub dump_loop-read_loop : (n : ℕ) (f : Fifo) → dump_loop n f ≡ (read_loop n f).1
unfolding dump_loop read_loop
dump_loop-read_loop zero f = refl
dump_loop-read_loop (suc n) f = dump_loop-read_loop n (read_byte f).1
