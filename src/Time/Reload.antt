-- ===== src/Time/Reload.antt =====
-- src/time/pit.c: the reload value against the frequency.
use lboot.Base.{
  ℕ, zero, suc, ◌+◌, ◌*◌, ◌/◌, ◌%◌, ◌^◌, ◌≤◌, ◌<◌, ◌≡◌, ◌-◌, arith, false, ltb, ltb→lt, inl, inr,
  Bool-cases, u16,
}
use native.Mathlib.Nat.{div-add-mod', mod-lt, mul-le-mul_left, mul-le-mul_right, add-mul, zero-mul}
use lboot.Time.{get_reload}

quotient_positive : (q freq r : ℕ) → q * freq + r ≡ 1193180 → r < freq → freq ≤ 1193180 → 0 < q
quotient_positive zero freq r split rest high = absurd (omega (arith, zero-mul freq))
quotient_positive (suc q) freq r split rest high = omega arith

quotient-bounds :
    (freq : ℕ) → 19 ≤ freq → freq ≤ 1193180 → (0 < 1193180 / freq) × (1193180 / freq < 2 ^ 16)
quotient-bounds freq low high =
    let split = div-add-mod' 1193180 freq in
    let rest = mod-lt 1193180 {m = freq} (omega arith) in
    let wide : 1193180 / freq * 19 ≤ 1193180 / freq * freq = mul-le-mul_left (1193180 / freq) low in
    (quotient_positive (1193180 / freq) freq (1193180 % freq) split rest high, omega arith)

-- How far a reload value is from the clock's ticks in a period, times the frequency.
unfoldable pub distance : ℕ → ℕ → ℕ
distance freq reload = reload * freq - 1193180 + (1193180 - reload * freq)

distance-least :
    (freq q r other : ℕ)
    → q * freq + r ≡ 1193180
    → 2 * r ≤ freq
    → distance freq q ≤ distance freq other
unfolding distance
distance-least freq q r other split half = elim (Bool-cases (ltb q other)) [
  | inl e ↦
      let next = add-mul q 1 freq in
      let upto : (q + 1) * freq ≤ other * freq =
        mul-le-mul_right freq (omega (arith, ltb→lt q other e)) in
      omega arith
  | inr e ↦
      let up_to : other ≤ q = ground arith in
      let below : other * freq ≤ q * freq = mul-le-mul_right freq up_to in omega arith
]

-- For a frequency from 19 Hz to 1193180 Hz whose period has at most half a tick more of the clock than
-- a whole number, the reload value is a 16-bit number other than 0 and the nearest one: no other is
-- closer to the clock's ticks in a period.
pub get_reload-bounds :
    (freq : ℕ)
    → 19 ≤ freq
    → freq ≤ 1193180
    → 2 * (1193180 % freq) ≤ freq
    → (0 < get_reload freq)
      × (get_reload freq < 2 ^ 16)
      × ((other : ℕ) → distance freq (get_reload freq) ≤ distance freq other)
unfolding get_reload
get_reload-bounds freq low high half =
    let split = div-add-mod' 1193180 freq in
    let (positive, word) = quotient-bounds freq low high in
    let below : ltb freq 18 ≡ false = ground arith in
    let above : ltb 1193181 freq ≡ false = ground arith in
    let whole : u16 (1193180 / freq) ≡ 1193180 / freq = omega arith in
    rw (below, above, whole)
      (
        positive,
        word,
        λ other. distance-least freq (1193180 / freq) (1193180 % freq) other split half,
      )
