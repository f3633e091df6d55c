-- ===== src/Sys/Retry.antt =====
-- A call that is tried again ends with its first result that is no interrupt.
use noctisplanet_foundation.Prelude.{
  ℕ, zero, suc, ◌<◌, ◌≡◌, ◌⊎◌, inl, inr, true, false, arith, ok, Ends, ends, Ends-if, Ends-weaken,
  refl, if◌then◌else◌,
}
use noctisplanet_foundation.Sys.{
  Errno, eagain, eintr, other_errno, Result, value, failed, again, retry,
}

-- The call is interrupted fewer than `fuel` times.
abbrev pub Settles : {W A : Type 0} → ℕ → (W → Result A × W) → W → Type 0
Settles zero call w = ⊥
Settles (suc fuel) call w = (again (call w).0 ≡ false) ⊎ Settles fuel call (call w).1

-- The errors that say that a call was interrupted, and the results that it ends with.
pub data Interrupts : Errno → Type 0 where
  by_eagain : Interrupts eagain
  by_eintr : Interrupts eintr

pub data IsFinal {A : Type 0} : Result A → Type 0 where
  given : {a : A} → IsFinal (value a)
  refused : {n : ℕ} → IsFinal (failed (other_errno n))

-- From the state `w` on, `n` calls are interrupted, each in the state that the one before left, and the next
-- one gives `r` and leaves the state `w'`.
pub data Answers {W A : Type 0} (call : W → Result A × W) : ℕ → W → Result A → W → Type 0 where
  at_last : {w w' : W} {r : Result A} → call w ≡ (r, w') → IsFinal r → Answers call 0 w r w'
  interrupted :
      {n : ℕ} {w v w' : W} {e : Errno} {r : Result A}
      → call w ≡ (failed e, v)
      → Interrupts e
      → Answers call n v r w'
      → Answers call (suc n) w r w'

again-IsFinal : {A : Type 0} (r : Result A) → IsFinal r → again r ≡ false
again-IsFinal _ given = refl
again-IsFinal _ refused = refl

again-Interrupts : (A : Type 0) (e : Errno) → Interrupts e → again {A = A} (failed e) ≡ true
again-Interrupts _ _ by_eagain = refl
again-Interrupts _ _ by_eintr = refl

module _ {W A : Type 0} (call : W → Result A × W) where
  -- If the first `n` calls fail with `EAGAIN` or `EINTR`, each in the state that the one before left,
  -- and the next one gives a value or fails with another error, then with fuel for more than `n`
  -- calls `retry` ends with the result of that call and the state it left.
  pub retry-Answers :
      (n fuel : ℕ) (w : W) (r : Result A) (w' : W)
      → n < fuel
      → Answers call n w r w'
      → retry fuel call w ≡ ok (r, w')
  unfolding retry
  retry-Answers n zero w r w' h answers = absurd (omega arith)
  retry-Answers _ (suc fuel) w r w' h (at_last e final) = rw (e, again-IsFinal r final) refl
  retry-Answers _ (suc fuel) w r w' h (interrupted {n} {v} {e} called why later) =
      rw (called, again-Interrupts A e why) (retry-Answers n fuel v r w' (omega arith) later)

  abbrev pub Answered : W → Result A × W → Type 0
  Answered w (r, w') = (n : ℕ) × Answers call n w r w'

  answered :
      (fuel : ℕ) (w : W) (r : Result A) (v : W)
      → call w ≡ (r, v)
      → (again r ≡ true → Ends (Answered v) (retry fuel call v))
      → Ends (Answered w) (let rest = retry fuel call v in if again r then rest else ok (r, v))
  answered fuel w (value a) v e later = ends (0, at_last e given)
  answered fuel w (failed eagain) v e later =
      Ends-weaken (later refl) λ (r', w') (n, answers). (suc n, interrupted e by_eagain answers)
  answered fuel w (failed eintr) v e later =
      Ends-weaken (later refl) λ (r', w') (n, answers). (suc n, interrupted e by_eintr answers)
  answered fuel w (failed (other_errno x)) v e later = ends (0, at_last e refused)

  settled :
      (fuel : ℕ) (w : W)
      → Settles (suc fuel) call w
      → again (call w).0 ≡ true
      → Settles fuel call (call w).1
  settled fuel w (inl e) e' = absurd cc
  settled fuel w (inr s) e' = s

  module _ (P : W → Type 0) (Q : Result A × W → Type 0)
      (interrupted : (w : W) → P w → again (call w).0 ≡ true → P (call w).1)
      (done : (w : W) → P w → again (call w).0 ≡ false → Q (call w)) where
    -- What an interrupted call keeps, and what the last one then gives, holds of the result.
    pub retry-Ends : (fuel : ℕ) (w : W) → Settles fuel call w → P w → Ends Q (retry fuel call w)
    unfolding retry
    retry-Ends zero w settles p = elim settles [ ]
    retry-Ends (suc fuel) w settles p =
        Ends-if (again (call w).0)
          (λ e. retry-Ends fuel (call w).1 (settled fuel w settles e) (interrupted w p e))
          λ e. ends (done w p e)

  -- The result of `retry` is such an answer.
  pub retry-Answered :
      (fuel : ℕ) (w : W) → Settles fuel call w → Ends (Answered w) (retry fuel call w)
  unfolding retry
  retry-Answered zero w settles = elim settles [ ]
  retry-Answered (suc fuel) w settles =
      answered fuel w (call w).0 (call w).1 refl
        λ e. retry-Answered fuel (call w).1 (settled fuel w settles e)
