-- ===== src/Prelude/Bits.antt =====
-- The binary or: its digits, its bounds, and how it acts on the two ends of a word.
use Prim.Native.Nat.{
  ℕ, zero, suc, ◌+◌, ◌*◌, ◌/◌, ◌%◌, ◌^◌, ◌≤◌, ◌<◌, max, bit_or, digits, bit_or-bitwise,
}
use mathlib.Core.Path.{◌≡◌, refl, ap}
use native.Mathlib.Omega.{arith}
use native.Mathlib.Nat.{two-pow-succ}

abbrev or_digits : ℕ → ℕ → ℕ → ℕ
or_digits n a b = digits (λ b. b) max n a b

or_digits_fuel : (n m a b : ℕ) → a ≤ n → a ≤ m → or_digits n a b ≡ or_digits m a b
or_digits_fuel zero zero a b p q = refl
or_digits_fuel zero (suc m) zero b p q = refl
or_digits_fuel zero (suc m) (suc a) b p q = absurd (omega arith)
or_digits_fuel (suc n) zero zero b p q = refl
or_digits_fuel (suc n) zero (suc a) b p q = absurd (omega arith)
or_digits_fuel (suc n) (suc m) zero b p q = refl
or_digits_fuel (suc n) (suc m) (suc a) b p q =
    omega (arith, or_digits_fuel n m (suc a / 2) (b / 2) (omega arith) (omega arith))

zero-bit_or : (b : ℕ) → bit_or 0 b ≡ b
zero-bit_or b = bit_or-bitwise 0 b

pub bit_or_halves : (a b : ℕ) → bit_or a b ≡ max (a % 2) (b % 2) + 2 * bit_or (a / 2) (b / 2)
bit_or_halves zero b = omega (arith, zero-bit_or b, zero-bit_or (b / 2))
bit_or_halves (suc a) b = omega (
  arith,
  bit_or-bitwise (suc a) b,
  bit_or-bitwise (suc a / 2) (b / 2),
  or_digits_fuel a (suc a / 2) (suc a / 2) (b / 2) (omega arith) (omega arith),
)

le-bit_or_fuel : (n a b : ℕ) → a ≤ n → (a ≤ bit_or a b) × (b ≤ bit_or a b)
le-bit_or_fuel n zero b h = omega (arith, zero-bit_or b)
le-bit_or_fuel zero (suc a) b h = absurd (omega arith)
le-bit_or_fuel (suc n) (suc a) b h =
    omega (arith, bit_or_halves (suc a) b, le-bit_or_fuel n (suc a / 2) (b / 2) (omega arith))

pub le-bit_or_left : (a b : ℕ) → a ≤ bit_or a b
le-bit_or_left a b = (le-bit_or_fuel a a b (omega arith)).0

pub le-bit_or_right : (a b : ℕ) → b ≤ bit_or a b
le-bit_or_right a b = (le-bit_or_fuel a a b (omega arith)).1

-- A word of `m` digits stays one.
pub bit_or-lt : (m a b : ℕ) → a < 2 ^ m → b < 2 ^ m → bit_or a b < 2 ^ m
bit_or-lt zero zero b p q = omega (arith, zero-bit_or b)
bit_or-lt zero (suc a) b p q = absurd (omega arith)
bit_or-lt (suc m) a b p q = omega (
  arith,
  two-pow-succ m,
  bit_or_halves a b,
  bit_or-lt m (a / 2) (b / 2) (omega (arith, two-pow-succ m)) (omega (arith, two-pow-succ m)),
)

bit_or-zero_fuel : (n a : ℕ) → a ≤ n → bit_or a 0 ≡ a
bit_or-zero_fuel n zero h = refl
bit_or-zero_fuel zero (suc a) h = absurd (omega arith)
bit_or-zero_fuel (suc n) (suc a) h =
    omega (arith, bit_or_halves (suc a) 0, bit_or-zero_fuel n (suc a / 2) (omega arith))

bit_or-zero : (a : ℕ) → bit_or a 0 ≡ a
bit_or-zero a = bit_or-zero_fuel a a (omega arith)

-- The digits from `m` up of one operand are kept where the other has none.
pub bit_or_high :
    (m h a b : ℕ) → a < 2 ^ m → b < 2 ^ m → bit_or (h * 2 ^ m + a) b ≡ h * 2 ^ m + bit_or a b
bit_or_high zero h a b p q =
    let no_a : a ≡ 0 = omega arith in
    let no_b : b ≡ 0 = omega arith in
    rw (no_a, no_b) (omega (arith, bit_or-zero (h * 2 ^ 0 + 0), zero-bit_or 0))
bit_or_high (suc m) h a b p q =
    let double = two-pow-succ m in
    let doubled : h * 2 ^ suc m ≡ h * 2 ^ m + h * 2 ^ m = omega (arith, ap (◌*◌ h) double) in
    let half : (h * 2 ^ suc m + a) / 2 ≡ h * 2 ^ m + a / 2 = omega (arith, doubled) in
    let ih = bit_or_high m h (a / 2) (b / 2) (omega (arith, double)) (omega (arith, double)) in
    omega (
      arith,
      doubled,
      bit_or_halves (h * 2 ^ suc m + a) b,
      ap (λ t. bit_or t (b / 2)) half,
      ih,
      bit_or_halves a b,
    )
