-- ===== src/Prelude/Outcome.antt =====
-- How a run of the program ends in the model, and the rules for runs that end well.
use mathlib.Core.Path.{◌≡◌, refl, subst}
use mathlib.Core.Bool.{Bool, true, false}
use mathlib.Core.Option.{Option, none, some}
use noctisplanet_foundation.Prelude.Tests.{if◌then◌else◌}

-- A value; undefined behaviour of the language (an access out of bounds or to dead memory); a
-- failed `assert`; or the model's fuel used up before a loop ended.
pub data Run {ℓ} (A : Type ℓ) : Type ℓ where
  ok : A → Run A
  undefined : Run A
  assert_failed : Run A
  out_of_fuel : Run A

infixl 5 ◌>>=◌ ◌>>◌
abbrev pub ◌>>=◌ {ℓ κ} : {A : Type ℓ} {B : Type κ} → Run A → (A → Run B) → Run B
ok a >>= next = next a
undefined >>= next = undefined
assert_failed >>= next = assert_failed
out_of_fuel >>= next = out_of_fuel

abbrev pub ◌>>◌ {ℓ} : {B : Type ℓ} → Run (Unit {0}) → Run B → Run B
m >> k = m >>= λ _. k

-- What is there, or undefined behaviour where the program reads what is not.
abbrev pub present {ℓ} : {A : Type ℓ} → Option A → Run A
present none = undefined
present (some a) = ok a

abbrev pub assert : Bool → Run (Unit {0})
assert true = ok tt
assert false = assert_failed

-- The run ends with a value, and the value satisfies `P`.
pub data Ends {ℓ κ} {A : Type ℓ} (P : A → Type κ) : Run A → Type (ℓ ⊔ κ) where
  ends : {a : A} → P a → Ends P (ok a)

module _ {ℓ κ} {A : Type ℓ} {P : A → Type κ} where
  pub Ends-bind {ℓ' κ'} :
      {B : Type ℓ'} {Q : B → Type κ'} {m : Run A} {next : A → Run B}
      → Ends P m
      → ((a : A) → P a → Ends Q (next a))
      → Ends Q (m >>= next)
  Ends-bind (ends p) after = after _ p

  pub Ends-weaken {κ'} : {Q : A → Type κ'} {m : Run A} → Ends P m → ((a : A) → P a → Q a) → Ends Q m
  Ends-weaken (ends p) after = ends (after _ p)

  pub Ends-if :
      {x y : Run A} (b : Bool)
      → (b ≡ true → Ends P x)
      → (b ≡ false → Ends P y)
      → Ends P (if b then x else y)
  Ends-if true p q = p refl
  Ends-if false p q = q refl

  pub Ends-value : {m : Run A} → Ends P m → (a : A) × (m ≡ ok a) × P a
  Ends-value (ends p) = (_, refl, p)

  pub Ends-at : {m : Run A} {a : A} → Ends P m → m ≡ ok a → P a
  Ends-at {a} (ends {a = found} p) e = let same : found ≡ a = cc in subst P same p
