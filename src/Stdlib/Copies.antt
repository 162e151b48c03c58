-- ===== src/Stdlib/Copies.antt =====
-- src/stdlib/string.c: `memcpy` and `memmove` against a copy of all bytes at once.
use lboot.Base.{
  ℕ, zero, suc, ◌+◌, ◌-◌, ◌≤◌, ◌<◌, ◌≡◌, ◌≢◌, ◌⊎◌, inl, inr, refl, sym, ap, ◌∙◌, arith, true, false,
  Bool-cases, if_split, ltb, leb, ◌==◌, ◌&&◌,
}
use lboot.Stdlib.Memory.{put_byte, copy_up, copy_down, memcpy, memmove, moved}

moved-in :
    (m : ℕ → ℕ) (dst src n a : ℕ)
    → dst ≤ a
    → a < dst + n
    → moved m dst src n a ≡ m (src + (a - dst))
unfolding moved
moved-in m dst src n a low high =
    let after : leb dst a ≡ true = ground arith in
    let before : ltb a (dst + n) ≡ true = ground arith in rw (after, before) refl

moved-out : (m : ℕ → ℕ) (dst src n a : ℕ) → (a < dst) ⊎ (dst + n ≤ a) → moved m dst src n a ≡ m a
unfolding moved
moved-out m dst src n a out =
    let outside : leb dst a && ltb a (dst + n) ≡ false = ground arith in rw outside refl

put_byte_self : (m : ℕ → ℕ) (a v : ℕ) → put_byte m a v a ≡ v
unfolding put_byte
put_byte_self m a v = let same : a == a ≡ true = ground arith in rw same refl

put_byte-ne : (m : ℕ → ℕ) (a v x : ℕ) → x ≢ a → put_byte m a v x ≡ m x
unfolding put_byte
put_byte-ne m a v x ne = let differ : x == a ≡ false = ground arith in rw differ refl

-- Where an address stands: before a region, in it, or behind it.
region : (dst n a : ℕ) → ((a < dst) ⊎ (dst + n ≤ a)) ⊎ ((dst ≤ a) × (a < dst + n))
region dst n a = ground arith

copy_up-moved :
    (n dst src : ℕ) (m : ℕ → ℕ) (a : ℕ)
    → (dst ≤ src) ⊎ (src + n ≤ dst)
    → copy_up n dst src m a ≡ moved m dst src n a
unfolding copy_up
copy_up-moved zero dst src m a apart = sym (moved-out m dst src 0 a (ground arith))
copy_up-moved (suc n) dst src m a apart =
    let next : ℕ → ℕ = put_byte m dst (m src) in
    copy_up-moved n (dst + 1) (src + 1) next a (ground arith) ∙ elim (region (dst + 1) n a) [
      | inl out ↦ moved-out next (dst + 1) (src + 1) n a out ∙ elim (Bool-cases (a == dst)) [
        | inl e ↦
            (let at_start : a ≡ dst = ground arith in
              ap next at_start
              ∙ put_byte_self m dst (m src)
              ∙ ap m (omega arith)
              ∙ sym (moved-in m dst src (suc n) a (omega arith) (omega arith)))
        | inr e ↦
            put_byte-ne m dst (m src) a (ground arith)
            ∙ sym (moved-out m dst src (suc n) a (ground arith))
      ]
      | inr (low, high) ↦
          moved-in next (dst + 1) (src + 1) n a low high
          ∙ put_byte-ne m dst (m src) (src + 1 + (a - (dst + 1))) (ground arith)
          ∙ ap m (omega arith)
          ∙ sym (moved-in m dst src (suc n) a (omega arith) (omega arith))
    ]

copy_down-moved :
    (n dst src : ℕ) (m : ℕ → ℕ) (a : ℕ) → src ≤ dst → copy_down n dst src m a ≡ moved m dst src n a
unfolding copy_down
copy_down-moved zero dst src m a le = sym (moved-out m dst src 0 a (ground arith))
copy_down-moved (suc n) dst src m a le =
    let next : ℕ → ℕ = put_byte m (dst + n) (m (src + n)) in
    copy_down-moved n dst src next a le ∙ elim (region dst n a) [
      | inl out ↦ moved-out next dst src n a out ∙ elim (Bool-cases (a == dst + n)) [
        | inl e ↦
            (let at_end : a ≡ dst + n = ground arith in
              ap next at_end
              ∙ put_byte_self m (dst + n) (m (src + n))
              ∙ ap m (omega arith)
              ∙ sym (moved-in m dst src (suc n) a (omega arith) (omega arith)))
        | inr e ↦
            put_byte-ne m (dst + n) (m (src + n)) a (ground arith)
            ∙ sym (moved-out m dst src (suc n) a (ground arith))
      ]
      | inr (low, high) ↦
          moved-in next dst src n a low high
          ∙ put_byte-ne m (dst + n) (m (src + n)) (src + (a - dst)) (ground arith)
          ∙ sym (moved-in m dst src (suc n) a (omega arith) (omega arith))
    ]

-- `memmove` copies the bytes as if all at once, however the two regions overlap.
pub memmove-moved : (m : ℕ → ℕ) (dst src n a : ℕ) → memmove m dst src n a ≡ moved m dst src n a
unfolding memmove
memmove-moved m dst src n a =
    if_split (λ (m' : ℕ → ℕ). m' a ≡ moved m dst src n a) (ltb dst src)
      (λ e. copy_up-moved n dst src m a (inl (ground arith)))
      (λ e. copy_down-moved n dst src m a (ground arith))

-- `memcpy` does the same unless the destination starts inside the source, behind its start.
pub memcpy-memmove :
    (m : ℕ → ℕ) (dst src n a : ℕ)
    → (dst ≤ src) ⊎ (src + n ≤ dst)
    → memcpy m dst src n a ≡ memmove m dst src n a
unfolding memcpy
memcpy-memmove m dst src n a apart =
    copy_up-moved n dst src m a apart ∙ sym (memmove-moved m dst src n a)
