-- ===== src/ByteBuffer/Capacity/Bounds.antt =====
-- What `nextPowerOf2ClampedToMax` returns.
use native.Mathlib.Nat.{two-pow-succ, pow-le-pow_right}
use native.Mathlib.Decide.{dec_le}
use noctisplanet_foundation.Prelude.{
  ℕ, zero, suc, ◌+◌, ◌-◌, ◌*◌, ◌^◌, ◌≤◌, ◌<◌, ◌≡◌, refl, ap, arith,
}
use noctisplanet_foundation.ByteBuffer.Capacity.{size_max, smear, next_power_of_2_clamped_to_max}
use noctisplanet_foundation.ByteBuffer.Capacity.Smear.{Ones, smear-Ones}

-- The number of binary digits.
digit_count : (n x : ℕ) → 0 < x → x < 2 ^ n → (k : ℕ) × (k < n) × (2 ^ k ≤ x) × (x < 2 ^ suc k)
digit_count zero x p h = absurd (omega arith)
digit_count (suc n) x p h = elim (dec_le (2 ^ n) x) [
  | yes q ↦ (n, omega arith, q, h)
  | no q ↦ let (k, lt, low, high) = digit_count n x p (omega arith) in (k, omega arith, low, high)
]

-- Six rounds fill a word of at most 64 digits with ones.
smeared :
    (k x : ℕ)
    → k < 64
    → 2 ^ k ≤ x
    → x < 2 ^ suc k
    → smear (smear (smear (smear (smear (smear x 1) 2) 4) 8) 16) 32 + 1 ≡ 2 ^ suc k
smeared k x h low high =
    let before : suc k - 1 ≡ k = omega arith in
    let first_one : 2 ^ suc k ≤ x + 2 ^ (suc k - 1) =
      rw before (omega (arith, low, two-pow-succ k)) in
    let start : Ones k 1 x = record { low = low; high = high; ones = first_one } in
    let done = smear-Ones k 32 _ (
      smear-Ones k 16 _
        (smear-Ones k 8 _ (smear-Ones k 4 _ (smear-Ones k 2 _ (smear-Ones k 1 x start))))) in
    let empty : suc k - 64 ≡ 0 = omega arith in
    omega (arith, done.high, done.ones, ap (λ (t : ℕ). 2 ^ t) empty)

digits_of_le : (k n : ℕ) → 2 ^ k < 2 ^ n → suc k ≤ n
digits_of_le k n h = elim (dec_le (suc k) n) [
  | yes p ↦ p
  | no p ↦
      absurd (omega (arith, pow-le-pow_right {n = 2} (omega arith) {i = n} {j = k} (omega arith)))
]

-- For a request from 1 to 2 ^ 63 the capacity is a power of two, at least the request and less than
-- twice it.
pub next_power_of_2_least :
    (n : ℕ)
    → 0 < n
    → n ≤ 2 ^ 63
    → (k : ℕ) × (next_power_of_2_clamped_to_max n ≡ 2 ^ k) × (n ≤ 2 ^ k) × (2 ^ k < 2 * n)
unfolding next_power_of_2_clamped_to_max
next_power_of_2_least n p small = elim (dec_le n 1) [
  | yes one ↦ let exact : n ≡ 1 = omega arith in rw exact (0, refl, omega arith, omega arith)
  | no more ↦
      let (k, lt, low, high) = digit_count 64 (n - 1) (omega arith) (omega arith) in
      let full = smeared k (n - 1) lt low high in
      let double = two-pow-succ k in
      let few : suc k ≤ 63 = digits_of_le k 63 (omega arith) in
      let room = pow-le-pow_right {n = 2} (omega arith) {i = suc k} {j = 63} few in
      (suc k, ground (arith, full, room), omega (arith, high), omega (arith, low, double))
]

-- For a request above 2 ^ 63 and below 2 ^ 64 the capacity is 2 ^ 64 - 1.
pub next_power_of_2_saturates :
    (n : ℕ) → 2 ^ 63 < n → n ≤ size_max → next_power_of_2_clamped_to_max n ≡ size_max
unfolding next_power_of_2_clamped_to_max
next_power_of_2_saturates n big h =
    let (k, lt, low, high) = digit_count 64 (n - 1) (omega arith) (omega arith) in
    let full = smeared k (n - 1) lt low high in
    let many : k ≡ 63 = omega (arith, digits_of_le 62 k) in
    ground (arith, full, ap (λ (t : ℕ). 2 ^ suc t) many)

-- For every request below 2 ^ 64 the capacity is at least the request, below 2 ^ 64 and not 0.
pub next_power_of_2_bounds :
    (n : ℕ)
    → n ≤ size_max
    → (n ≤ next_power_of_2_clamped_to_max n)
      × (next_power_of_2_clamped_to_max n ≤ size_max)
      × (0 < next_power_of_2_clamped_to_max n)
unfolding next_power_of_2_clamped_to_max
next_power_of_2_bounds n h = elim (dec_le n 1) [
  | yes one ↦ ground arith
  | no more ↦
      let (k, lt, low, high) = digit_count 64 (n - 1) (omega arith) (omega arith) in
      let full = smeared k (n - 1) lt low high in
      let room = pow-le-pow_right {n = 2} (omega arith) {i = suc k} {j = 64} (omega arith) in
      (ground (arith, full, room), ground (arith, full, room), ground (arith, full, room))
]
