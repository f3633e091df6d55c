-- ===== src/ByteBuffer/Capacity.antt =====
-- `nextPowerOf2ClampedToMax` and `minimumOf` of Sources/NPFoundation/ByteBuffer.cpp. A `Size` is a
-- 64-bit word: a number below 2 ^ 64.
mod Smear
pub mod Bounds
use Prim.Native.Nat.{bit_or}
use native.Mathlib.Nat.{
  two-pow-succ, one-le-pow, pow-le-pow_right, mul_comm, add-zero, div-add-mod', div-le_self, mod-lt,
  div-lt_iff_lt-mul, le-div_iff_mul-le,
}
use native.Mathlib.Decide.{dec_le}
use noctisplanet_foundation.Prelude.{
  ℕ, zero, suc, ◌+◌, ◌-◌, ◌*◌, ◌/◌, ◌%◌, ◌^◌, ◌≤◌, ◌<◌, ◌≡◌, refl, ◌⊎◌, inl, inr, ap, sym, ◌∙◌,
  Bool, true, false, arith, ◌==◌, ltb, leb, if◌then◌else◌, Bool-cases,
}
use noctisplanet_foundation.Prelude.Bits.{le-bit_or_left, bit_or-lt, bit_or_high, le-bit_or_right}

abbrev pub size_max : ℕ
size_max = 2 ^ 64 - 1

-- `capacity |= capacity >> shift`
pub smear : ℕ → ℕ → ℕ
smear capacity shift = bit_or capacity (capacity / 2 ^ shift)

unfoldable pub next_power_of_2_clamped_to_max : ℕ → ℕ
unfolding smear
next_power_of_2_clamped_to_max minimum_capacity =
    if leb minimum_capacity 1
    then 1
    else let capacity = minimum_capacity - 1 in
      let capacity = smear capacity 1 in
      let capacity = smear capacity 2 in
      let capacity = smear capacity 4 in
      let capacity = smear capacity 8 in
      let capacity = smear capacity 16 in
      let capacity = smear capacity 32 in if capacity == size_max then size_max else capacity + 1

unfoldable pub minimum_of : ℕ → ℕ → ℕ
minimum_of lhs rhs = if ltb lhs rhs then lhs else rhs
