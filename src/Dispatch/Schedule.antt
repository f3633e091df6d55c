-- ===== src/Dispatch/Schedule.antt =====
-- Sources/NPFoundation/dispatch/schedule.m: the blocks that throttle and debounce run on their serial
-- queues, one after the other, as steps on the variables that the blocks share. Times are in nanoseconds;
-- a step says whether it dispatches the callback.
pub mod Spacing
pub mod Latest
pub mod Handle
pub mod Running
use noctisplanet_foundation.Prelude.{
  ℕ, ◌+◌, ◌-◌, ◌%◌, ◌^◌, Bool, true, false, not, ◌&&◌, ◌||◌, List, [], ◌∷◌, leb, ◌==◌,
  if◌then◌else◌,
}

-- `previous` and `hasFired` of `NPDispatchScheduleThrottle`.
pub record Throttle : Type 0 where
  pub previous : ℕ
  pub has_fired : Bool

abbrev pub new_throttle : Throttle
new_throttle = record { previous = 0; has_fired = false }

-- `onSignal` at the time `timestamp`. The clock does not go back, so the difference is not negative.
unfoldable pub on_signal : ℕ → ℕ → Throttle → Bool × Throttle
on_signal delay timestamp s =
    if not s.has_fired || leb delay (timestamp - s.previous)
    then (true, record { previous = timestamp; has_fired = true })
    else (false, s)

-- The times at which signals at the given times dispatch the callback.
unfoldable pub fired_at : ℕ → List ℕ → Throttle → List ℕ
unfolding on_signal
fired_at delay [] s = []
fired_at delay (timestamp ∷ later) s =
    let (fires, s') = on_signal delay timestamp s in
    let rest = fired_at delay later s' in if fires then timestamp ∷ rest else rest

-- `canceled` and `generation` of `NPDispatchScheduleDebounce`.
pub record Debounce : Type 0 where
  pub canceled : Bool
  pub generation : ℕ

abbrev pub new_debounce : Debounce
new_debounce = record { canceled = false; generation = 0 }

-- What runs on the debounce's queue: a signal, a cancel, or the one-shot timer that the signal of a
-- generation has set, which expires.
pub data Event : Type 0 where
  signal : Event
  cancel : Event
  expire : ℕ → Event

-- `onSignal`: the generation that its timer captures.
unfoldable pub on_debounce_signal : Debounce → ℕ × Debounce
on_debounce_signal s =
    let current = (s.generation + 1) % 2 ^ 64 in
    (current, record { canceled = false; generation = current })

-- The event handler of a timer: whether it dispatches the callback.
unfoldable pub on_expire : ℕ → Debounce → Bool
on_expire current s = not s.canceled && current == s.generation

unfoldable pub step : Event → Debounce → Bool × Debounce
unfolding on_debounce_signal on_expire
step signal s = (false, (on_debounce_signal s).1)
step cancel s = (false, record s { canceled = true })
step (expire current) s = (on_expire current s, s)

unfoldable pub steps : List Event → Debounce → Debounce
unfolding step
steps [] s = s
steps (e ∷ es) s = steps es (step e s).1
