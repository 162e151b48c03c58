-- ===== src/Alloc/Fit.antt =====
-- Where a request fits in an entry.
use native.Mathlib.Nat.{mod-add-mod, mod_self, mod-lt}
use lboot.Base.{
  ℕ, ◌+◌, ◌-◌, ◌%◌, ◌≤◌, ◌<◌, ◌^◌, ◌≡◌, refl, sym, ap, ◌∙◌, arith, ◌&&◌, leb, true, some, ltb,
  if◌then◌else◌,
}
use lboot.Base.Bits.{passes, at_index}
use lboot.Alloc.Entries.{Entry, MemRange}
use lboot.Alloc.Find.{align_up, fit, alignment}

aligned_up : (n k : ℕ) → 0 < k → (n + (k - n % k)) % k ≡ 0
aligned_up n k h = sym (mod-add-mod n k (k - n % k)) ∙ ap (λ t. t % k) whole ∙ mod_self k
  where
    whole : n % k + (k - n % k) ≡ k
    whole = omega (arith, mod-lt n h)

align_up_lem :
    (n k : ℕ)
    → 0 < k
    → k ≤ 2 ^ 15
    → n + 2 ^ 15 < 2 ^ 32
    → (n ≤ align_up n k) × (align_up n k % k ≡ 0)
unfolding align_up
align_up_lem n k pos small b = ground (arith, aligned_up n k, mod-lt n pos)

-- What `fit` promises of the start that it gives.
pub record Start (mrange : MemRange) (align sz : ℕ) (e : Entry) (start : ℕ) : Type 0 where
  pub in_entry : e.addr ≤ start
  pub in_range : mrange.start ≤ start
  pub ends_in_entry : start + sz ≤ e.addr + e.size
  pub ends_in_range : start + sz ≤ mrange.end
  pub aligned : start % align ≡ 0

pub fit-Start :
    (mrange : MemRange) (align sz : ℕ) (e : Entry) (start : ℕ)
    → 0 < align
    → align ≤ 2 ^ 15
    → mrange.start + 2 ^ 15 < 2 ^ 32
    → e.addr + e.size + 2 ^ 15 < 2 ^ 32
    → fit mrange align sz e ≡ some start
    → Start mrange align sz e start
unfolding fit
fit-Start mrange align sz e start pos small lowr b h =
    let low = if ltb e.addr mrange.start then mrange.start else e.addr in
    let up = align_up_lem low align pos small (ground arith) in ground (arith, up)

pow_table : passes (λ k. leb 1 (2 ^ k) && leb (2 ^ k) (2 ^ 15)) 16 ≡ true
unfolding passes
pow_table = refl

-- The alignment is a power of two up to 2^15.
pub alignment_bounds : (flags : ℕ) → (0 < alignment flags) × (alignment flags ≤ 2 ^ 15)
unfolding alignment
alignment_bounds flags =
    let bit : flags % 16 < 16 = mod-lt flags (omega arith) in
    ground
      (arith, at_index (λ k. leb 1 (2 ^ k) && leb (2 ^ k) (2 ^ 15)) 16 (flags % 16) bit pow_table)
