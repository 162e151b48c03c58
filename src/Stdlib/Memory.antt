-- ===== src/Stdlib/Memory.antt =====
-- src/stdlib/string.c: the functions on bytes in memory, which is a function from addresses. The
-- regions stay below the top of the address space.
use lboot.Base.{ℕ, zero, suc, ◌+◌, ◌-◌, if◌then◌else◌, ltb, leb, ◌==◌, ◌&&◌, u8}
use lboot.Stdlib.{ℤ, pos, minus}

unfoldable pub put_byte : (ℕ → ℕ) → ℕ → ℕ → ℕ → ℕ
put_byte m a v x = if x == a then v else m x

-- The loop `while(n--) *dp++ = *sp++`, at `dp` and `sp`.
unfoldable pub copy_up : ℕ → ℕ → ℕ → (ℕ → ℕ) → ℕ → ℕ
copy_up zero dp sp m = m
copy_up (suc n) dp sp m = copy_up n (dp + 1) (sp + 1) (put_byte m dp (m sp))

-- The loop `while(n--) *--_dst = *--_src`, for the regions that start at `dst` and `src`.
unfoldable pub copy_down : ℕ → ℕ → ℕ → (ℕ → ℕ) → ℕ → ℕ
copy_down zero dst src m = m
copy_down (suc n) dst src m = copy_down n dst src (put_byte m (dst + n) (m (src + n)))

unfoldable pub memcpy : (ℕ → ℕ) → ℕ → ℕ → ℕ → ℕ → ℕ
memcpy m dest src n = copy_up n dest src m

unfoldable pub memmove : (ℕ → ℕ) → ℕ → ℕ → ℕ → ℕ → ℕ
memmove m dst src n = if ltb dst src then copy_up n dst src m else copy_down n dst src m

unfoldable pub set_up : ℕ → ℕ → ℕ → (ℕ → ℕ) → ℕ → ℕ
set_up zero p c m = m
set_up (suc n) p c m = set_up n (p + 1) c (put_byte m p (u8 c))

unfoldable pub memset : (ℕ → ℕ) → ℕ → ℕ → ℕ → ℕ → ℕ
memset m s c n = set_up n s c m

-- The loop of `memcmp`, at `b1 + i` and `b2 + i`.
unfoldable pub compare_up : ℕ → ℕ → ℕ → (ℕ → ℕ) → ℤ
compare_up zero b1 b2 m = pos 0
compare_up (suc n) b1 b2 m =
    let next = compare_up n (b1 + 1) (b2 + 1) m in
    if m b1 == m b2 then next else minus (m b2) (m b1)

unfoldable pub memcmp : (ℕ → ℕ) → ℕ → ℕ → ℕ → ℤ
memcmp m s1 s2 n = compare_up n s1 s2 m

-- The `n` bytes at `src` copied to `dst` all at once.
unfoldable pub moved : (ℕ → ℕ) → ℕ → ℕ → ℕ → ℕ → ℕ
moved m dst src n a = if leb dst a && ltb a (dst + n) then m (src + (a - dst)) else m a
