-- ===== src/Fifo/Queue.antt =====
-- The abstract byte queue that a ring stands for.
use lboot.Base.{
  ℕ, ◌-◌, List, [], ◌++◌, Bool, ltb, if◌then◌else◌, length, take, drop, Status, ok, failed,
}

-- The abstract queue: bytes, oldest first, and how many fit.
pub record Queue : Type 0 where
  pub cap : ℕ
  pub items : List ℕ

unfoldable pub enqueue : Queue → List ℕ → Status × Queue
enqueue q src =
    if ltb (q.cap - length q.items) (length src)
    then (failed, q)
    else (ok, record q { items = q.items ++ src })

unfoldable pub dequeue : Queue → Bool → ℕ → Status × List ℕ × Queue
dequeue q wanted n =
    if ltb (length q.items) n
    then (failed, [], q)
    else (ok, if wanted then take n q.items else [], record q { items = drop n q.items })
