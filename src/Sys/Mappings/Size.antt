-- ===== src/Sys/Mappings/Size.antt =====
-- The sizes that the system answers for a file, and what is mapped of it.
use noctisplanet_foundation.Prelude.{ℕ, zero, suc, ◌≡◌, true, false, List, arith}
use noctisplanet_foundation.Sys.{value, ℤ, pos, negsuc, at_most_zero, to_size, Stat, System}
use noctisplanet_foundation.Sys.Retry.{Answers}

pub data IsPositive : ℤ → Type 0 where
  positive : {n : ℕ} → IsPositive (pos (suc n))

pub data NotPositive : ℤ → Type 0 where
  nought : NotPositive (pos 0)
  negative : {n : ℕ} → NotPositive (negsuc n)

pub at_most_zero-NotPositive : (z : ℤ) → at_most_zero z ≡ true → NotPositive z
at_most_zero-NotPositive (pos zero) e = nought
at_most_zero-NotPositive (pos (suc n)) e = absurd (ground arith)
at_most_zero-NotPositive (negsuc n) e = negative

pub at_most_zero-IsPositive : (z : ℤ) → at_most_zero z ≡ false → IsPositive z
at_most_zero-IsPositive (pos zero) e = absurd (ground arith)
at_most_zero-IsPositive (pos (suc n)) e = positive
at_most_zero-IsPositive (negsuc n) e = absurd cc

-- What the system calls say of the file at a path.
module _ {W : Type 0} (sys : System W) where
  -- From the state `w` on, `stat` gives a file of that size, when it is no longer interrupted.
  pub data FileSize (path : List ℕ) (w : W) : ℤ → Type 0 where
    reported :
        {n : ℕ} {s : Stat} {w' : W}
        → Answers (sys.stat path) n w (value s) w'
        → FileSize path w s.size

  -- The file is empty.
  abbrev pub NothingThere : List ℕ → W → Type 0
  NothingThere path w = (z : ℤ) × FileSize path w z × NotPositive z

  -- The file has `size` bytes, and some.
  abbrev pub WholeFile : List ℕ → W → ℕ → Type 0
  WholeFile path w size = (z : ℤ) × FileSize path w z × IsPositive z × (size ≡ to_size z)

-- The size to map: all of a file that is not empty, or the page that an empty one is extended to.
pub data SizeFor : ℤ → ℕ → Type 0 where
  whole : {z : ℤ} → IsPositive z → SizeFor z (to_size z)
  page : {z : ℤ} → NotPositive z → SizeFor z 4096
