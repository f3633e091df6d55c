-- ===== src/ByteBuffer/Capacity/Smear.antt =====
-- The shifts of `nextPowerOf2ClampedToMax` spread the top digit of a word downwards.
use Prim.Native.Nat.{bit_or}
use native.Mathlib.Nat.{
  two-pow-succ, one-le-pow, pow-le-pow_right, mul_comm, add-zero, div-add-mod', div-le_self, mod-lt,
  div-lt_iff_lt-mul, le-div_iff_mul-le,
}
use native.Mathlib.Decide.{dec_le}
use noctisplanet_foundation.Prelude.{
  ℕ, zero, suc, ◌+◌, ◌-◌, ◌*◌, ◌/◌, ◌%◌, ◌^◌, ◌≤◌, ◌<◌, ◌≡◌, ap, sym, ◌∙◌, arith,
}
use noctisplanet_foundation.Prelude.Bits.{le-bit_or_left, bit_or-lt, bit_or_high, le-bit_or_right}
use noctisplanet_foundation.ByteBuffer.Capacity.{smear}

pow-add : (a b : ℕ) → 2 ^ (a + b) ≡ 2 ^ a * 2 ^ b
pow-add a zero = rw (add-zero) (omega arith)
pow-add a (suc b) =
    let regroup : a + suc b ≡ suc (a + b) = omega arith in
    rw regroup
      (omega (arith, two-pow-succ (a + b), pow-add a b, ap (λ (t : ℕ). 2 ^ a * t) (two-pow-succ b)))

-- `x` has `k + 1` binary digits, of which the top `j` are ones.
pub record Ones (k j x : ℕ) : Type 0 where
  pub low : 2 ^ k ≤ x
  pub high : x < 2 ^ suc k
  pub ones : 2 ^ suc k ≤ x + 2 ^ (suc k - j)

pos_pow : (k : ℕ) → 0 < 2 ^ k
pos_pow k = one-le-pow k 2 (omega arith)

smear-Ones_full : (k j x : ℕ) → suc k ≤ j → Ones k j x → Ones k (j + j) (smear x j)
unfolding smear
smear-Ones_full k j x h o =
    let none_left : suc k - j ≡ 0 = omega arith in
    let none_left' : suc k - (j + j) ≡ 0 = omega arith in
    let all : x + 1 ≡ 2 ^ suc k = omega (arith, o.ones, o.high, ap (λ (t : ℕ). 2 ^ t) none_left) in
    let kept = le-bit_or_left x (x / 2 ^ j) in
    record {
      low = omega (arith, o.low, kept);
      high = bit_or-lt (suc k) x (x / 2 ^ j) o.high (omega (arith, o.high, div-le_self x (2 ^ j)));
      ones = omega (arith, all, kept, ap (λ (t : ℕ). 2 ^ t) none_left');
    }

-- The top digits of a word, shifted down, meet the ones that are there already.
meet : (k j m : ℕ) → j + m ≡ suc k → 2 ^ m ≤ 2 ^ (suc k - (j + j)) * 2 ^ j
meet k j m e = elim (dec_le j m) [
  | yes p ↦
      let exact : suc k - (j + j) + j ≡ m = omega arith in
      omega (arith, ap (λ (t : ℕ). 2 ^ t) exact, pow-add (suc k - (j + j)) j)
  | no p ↦
      let empty : suc k - (j + j) ≡ 0 = omega arith in
      rw empty (omega (arith, pow-le-pow_right {n = 2} (omega arith) {i = m} {j = j} (omega arith)))
]

-- The arithmetic of a round: `q` is the weight of the lowest of the ones, `p` the shift.
round_bound : (x p q r d : ℕ) → p * q ≤ x + q → q ≤ r * p → d + r ≡ q → d * p ≤ x
round_bound x p q r d h k e = omega (arith, ap (λ (t : ℕ). p * t) e)

mul_mono : (a b q : ℕ) → a ≤ b → a * q ≤ b * q
mul_mono a b q h = grind arith

pred_mul : (p q : ℕ) → 0 < p → (p - 1) * q + q ≡ p * q
pred_mul zero q h = absurd (omega arith)
pred_mul (suc p) q h = let less : suc p - 1 ≡ p = omega arith in rw less (omega arith)

smear-Ones_part : (k j x : ℕ) → j ≤ k → Ones k j x → Ones k (j + j) (smear x j)
unfolding smear
smear-Ones_part k j x h o =
    let m = suc k - j in
    let sum : j + m ≡ suc k = omega arith in
    let whole : 2 ^ j * 2 ^ m ≡ 2 ^ suc k = omega (arith, pow-add j m, ap (λ (t : ℕ). 2 ^ t) sum) in
    let low_end = div-add-mod' x (2 ^ m) in
    let s_lt : x / 2 ^ j < 2 ^ m =
      (div-lt_iff_lt-mul (pos_pow j)).1 (omega (arith, o.high, whole, mul_comm (2 ^ j) (2 ^ m))) in
    let fits : 2 ^ (suc k - (j + j)) ≤ 2 ^ m =
      pow-le-pow_right {n = 2} (omega arith) {i = suc k - (j + j)} {j = m} (omega arith) in
    let d = 2 ^ m - 2 ^ (suc k - (j + j)) in
    let d_le : d ≤ x / 2 ^ j = (le-div_iff_mul-le (pos_pow j)).1 (
      round_bound x (2 ^ j) (2 ^ m) (2 ^ (suc k - (j + j))) d (omega (arith, o.ones, whole))
        (meet k j m sum) (omega arith)) in
    let part = pred_mul (2 ^ j) (2 ^ m) (pos_pow j) in
    let top : 2 ^ j - 1 ≤ x / 2 ^ m =
      (le-div_iff_mul-le (pos_pow m)).1 (omega (arith, o.ones, whole, part)) in
    let weight = mul_mono (2 ^ j - 1) (x / 2 ^ m) (2 ^ m) top in
    let joined : smear x j ≡ x / 2 ^ m * 2 ^ m + bit_or (x % 2 ^ m) (x / 2 ^ j) =
      ap (λ (t : ℕ). bit_or t (x / 2 ^ j)) (sym low_end)
      ∙ bit_or_high m (x / 2 ^ m) (x % 2 ^ m) (x / 2 ^ j) (mod-lt x (pos_pow m)) s_lt in
    record {
      low = omega (arith, o.low, le-bit_or_left x (x / 2 ^ j));
      high = bit_or-lt (suc k) x (x / 2 ^ j) o.high (omega (arith, o.high, div-le_self x (2 ^ j)));
      ones = omega (
        arith,
        joined,
        whole,
        weight,
        part,
        d_le,
        fits,
        pos_pow j,
        le-bit_or_right (x % 2 ^ m) (x / 2 ^ j),
      );
    }

pub smear-Ones : (k j x : ℕ) → Ones k j x → Ones k (j + j) (smear x j)
smear-Ones k j x o = elim (dec_le j k) [
  | yes p ↦ smear-Ones_part k j x p o
  | no p ↦ smear-Ones_full k j x (omega arith) o
]
