-- ===== src/Dispatch/Schedule/Latest.antt =====
-- A debounce dispatches its callback for the last signal, unless it is cancelled.
use noctisplanet_foundation.Prelude.{
  ℕ, suc, ◌+◌, ◌%◌, ◌^◌, ◌<◌, ◌≡◌, refl, Bool, true, false, List, [], ◌∷◌, arith, if◌then◌else◌,
}
use native.Mathlib.Decide.{ℕ_discrete}
use noctisplanet_foundation.Dispatch.Schedule.{
  Debounce, Event, signal, cancel, expire, on_debounce_signal, on_expire, steps,
}

abbrev pub signals : List Event → ℕ
signals [] = 0
signals (signal ∷ es) = suc (signals es)
signals (_ ∷ es) = signals es

-- Only timers have expired.
abbrev pub quiet : List Event → Bool
quiet [] = true
quiet (expire _ ∷ es) = quiet es
quiet (_ ∷ es) = false

-- The generation counts the signals, as a 64-bit word.
steps-generation :
    (es : List Event) (s : Debounce)
    → s.generation < 2 ^ 64
    → (steps es s).generation ≡ (s.generation + signals es) % 2 ^ 64
unfolding steps
steps-generation [] s h = omega arith
steps-generation (signal ∷ es) s h =
    omega (arith, steps-generation es (on_debounce_signal s).1 (omega arith))
steps-generation (cancel ∷ es) s h = steps-generation es (record s { canceled = true }) h
steps-generation (expire c ∷ es) s h = steps-generation es s h

-- Without a signal, a cancel stays.
steps-canceled :
    (es : List Event) (s : Debounce)
    → signals es ≡ 0
    → (steps es s).canceled ≡ (if quiet es then s.canceled else true)
unfolding steps
steps-canceled [] s e = refl
steps-canceled (signal ∷ es) s e = absurd (omega arith)
steps-canceled (cancel ∷ es) s e =
    ground (arith, steps-canceled es (record s { canceled = true }) e)
steps-canceled (expire c ∷ es) s e = steps-canceled es s e

quiet-signals : (es : List Event) → quiet es ≡ true → signals es ≡ 0
quiet-signals [] e = refl
quiet-signals (signal ∷ es) e = absurd cc
quiet-signals (cancel ∷ es) e = absurd cc
quiet-signals (expire c ∷ es) e = quiet-signals es e

-- After a signal and any events with fewer than 2 ^ 64 signals among them, the timer that the signal
-- set dispatches the callback exactly if all these events are expired timers, that is, neither a
-- signal nor a cancel.
pub on_expire-quiet :
    (s : Debounce) (es : List Event)
    → signals es < 2 ^ 64
    → on_expire (on_debounce_signal s).0 (steps es (on_debounce_signal s).1) ≡ quiet es
unfolding on_debounce_signal on_expire
on_expire-quiet s es few =
    let now : Debounce = (on_debounce_signal s).1 in
    let same = steps-generation es now (omega arith) in
    elim (ℕ_discrete (signals es) 0) [
      | yes none_left ↦ let stays = steps-canceled es now none_left in ground (arith, same, stays)
      | no some_left ↦ ground (arith, same, quiet-signals es)
    ]
