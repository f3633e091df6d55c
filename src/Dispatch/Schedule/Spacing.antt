-- ===== src/Dispatch/Schedule/Spacing.antt =====
-- Which signals a throttle answers: callbacks are never closer than its delay, and a signal is dropped only in
-- the delay after one.
use noctisplanet_foundation.Prelude.{
  ℕ, ◌+◌, ◌-◌, ◌≤◌, ◌<◌, ◌≡◌, refl, sym, subst, ◌⊎◌, true, false, List, [], ◌∷◌, arith, leb,
  Bool-cases, inl, inr,
}
use noctisplanet_foundation.Dispatch.Schedule.{new_throttle, fired_at}

-- The times do not go back, from `now` on.
abbrev pub Monotonic : ℕ → List ℕ → Type 0
Monotonic now [] = Unit {0}
Monotonic now (t ∷ ts) = (now ≤ t) × Monotonic t ts

-- Each time is at least `delay` after the one before.
abbrev pub Spaced : ℕ → List ℕ → Type 0
Spaced delay [] = Unit {0}
Spaced delay (t ∷ []) = Unit {0}
Spaced delay (t ∷ u ∷ ts) = (t + delay ≤ u) × Spaced delay (u ∷ ts)

-- The times are spaced, and the first is at least `delay` after `t`.
after_fire :
    (delay t now : ℕ) (ts : List ℕ)
    → t ≤ now
    → Monotonic now ts
    → Spaced delay (t ∷ fired_at delay ts (record { previous = t; has_fired = true }))
unfolding fired_at
after_fire delay t now [] h mono = tt
after_fire delay t now (u ∷ us) h (le, mono) = elim (Bool-cases (leb delay (u - t))) [
  | inl late ↦ rw late (ground arith, after_fire delay u u us (omega arith) mono)
  | inr early ↦ rw early (after_fire delay t u us (omega arith) mono)
]

-- For signals at times that do not go back, the times at which a new throttle dispatches its callback
-- are each at least the delay after the one before.
pub fired_at-Spaced :
    (delay now : ℕ) (ts : List ℕ) → Monotonic now ts → Spaced delay (fired_at delay ts new_throttle)
unfolding fired_at
fired_at-Spaced delay now [] mono = tt
fired_at-Spaced delay now (t ∷ ts) (le, mono) = after_fire delay t t ts (omega arith) mono

-- One of the callbacks was dispatched for the signal at `t`, or less than `delay` before it.
abbrev pub Answered : ℕ → List ℕ → ℕ → Type 0
Answered delay [] t = ⊥
Answered delay (f ∷ fs) t = ((f ≡ t) ⊎ ((f ≤ t) × (t < f + delay))) ⊎ Answered delay fs t

abbrev pub AllAnswered : ℕ → List ℕ → List ℕ → Type 0
AllAnswered delay fs [] = Unit {0}
AllAnswered delay fs (t ∷ ts) = Answered delay fs t × AllAnswered delay fs ts

-- The second list is what is left of the first when some of its elements are taken out.
pub data Within : List ℕ → List ℕ → Type 0 where
  none_left : Within [] []
  kept : {t : ℕ} {ts us : List ℕ} → Within ts us → Within (t ∷ ts) (t ∷ us)
  dropped : {t : ℕ} {ts us : List ℕ} → Within ts us → Within (t ∷ ts) us

AllAnswered-more :
    (delay f : ℕ) (fs ts : List ℕ) → AllAnswered delay fs ts → AllAnswered delay (f ∷ fs) ts
AllAnswered-more delay f fs [] a = tt
AllAnswered-more delay f fs (t ∷ ts) (a, later) = (inr a, AllAnswered-more delay f fs ts later)

abbrev after : ℕ → ℕ → List ℕ → List ℕ
after delay t ts = fired_at delay ts (record { previous = t; has_fired = true })

after-late :
    (delay t u : ℕ) (us : List ℕ)
    → leb delay (u - t) ≡ true
    → after delay t (u ∷ us) ≡ u ∷ after delay u us
unfolding fired_at
after-late delay t u us late = rw late refl

after-early :
    (delay t u : ℕ) (us : List ℕ)
    → leb delay (u - t) ≡ false
    → after delay t (u ∷ us) ≡ after delay t us
unfolding fired_at
after-early delay t u us early = rw early refl

-- After a callback at `t`, the callbacks `fs` answer the signals `ts`.
abbrev Answers : ℕ → ℕ → List ℕ → List ℕ → Type 0
Answers delay t ts fs = AllAnswered delay (t ∷ fs) ts × Within ts fs

after_fire-Answered :
    (delay t now : ℕ) (ts : List ℕ)
    → t ≤ now
    → Monotonic now ts
    → Answers delay t ts (after delay t ts)
unfolding fired_at
after_fire-Answered delay t now [] h mono = (tt, none_left)
after_fire-Answered delay t now (u ∷ us) h (le, mono) = elim (Bool-cases (leb delay (u - t))) [
  | inl late ↦
      let (a, w) = after_fire-Answered delay u u us (omega arith) mono in
      subst (Answers delay t (u ∷ us)) (sym (after-late delay t u us late))
        ((inr (inl (inl refl)), AllAnswered-more delay t (u ∷ after delay u us) us a), kept w)
  | inr early ↦
      let (a, w) = after_fire-Answered delay t u us (omega arith) mono in
      subst (Answers delay t (u ∷ us)) (sym (after-early delay t u us early))
        ((inl (inr (omega arith, ground arith)), a), dropped w)
]

pub record Throttled (delay : ℕ) (ts fs : List ℕ) : Type 0 where
  pub spaced : Spaced delay fs
  pub answered : AllAnswered delay fs ts
  pub signals : Within ts fs

-- For signals at times that do not go back, the times at which a new throttle dispatches its callback
-- are each at least the delay after the one before; they are the times of signals, in order; and
-- every signal either is answered at its own time or comes less than the delay after a callback.
pub fired_at-Throttled :
    (delay now : ℕ) (ts : List ℕ)
    → Monotonic now ts
    → Throttled delay ts (fired_at delay ts new_throttle)
unfolding fired_at
fired_at-Throttled delay now [] mono = record { spaced = tt; answered = tt; signals = none_left }
fired_at-Throttled delay now (t ∷ ts) (le, mono) =
    let (a, w) = after_fire-Answered delay t t ts (omega arith) mono in
    record {
      spaced = fired_at-Spaced delay now (t ∷ ts) (le, mono);
      answered = (inl (inl refl), a);
      signals = kept w;
    }
