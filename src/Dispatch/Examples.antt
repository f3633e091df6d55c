-- ===== src/Dispatch/Examples.antt =====
-- Runs of a timer and of the schedules, and the theorems about them.
use noctisplanet_foundation.Prelude.{
  ℕ, ◌*◌, true, none, Ends, ◌≡◌, refl, false, List, [], ◌∷◌, some, arith,
}
use noctisplanet_foundation.Dispatch.Timer.{
  new_timer, Message, resume_timer, suspend_timer, cancel_timer, send, send_all, dispatch_suspend,
  dispatch_source_cancel, dispatch_resume,
}
use noctisplanet_foundation.Dispatch.Timer.Balance.{resumes, suspends, cancels}
use noctisplanet_foundation.Dispatch.Timer.Observable.{Timers, dispatch_timer_observable}
use noctisplanet_foundation.Dispatch.Timer.Lifetime.{InStep, at_the_end, at_the_end-cancelled}
use noctisplanet_foundation.Dispatch.Timer.Interleaved.{
  Threads, Reaches, here, then_step, locked, called, start, Quiescent-balance,
}
use noctisplanet_foundation.Dispatch.Schedule.Handle.{Works}
use noctisplanet_foundation.Dispatch.Schedule.Handle.Uses.{
  Use, signalled, cancelled, Lived, lifetime, lifetime-Lived,
}
use noctisplanet_foundation.Objc.Observing.{World}
use noctisplanet_foundation.Dispatch.Schedule.{
  new_throttle, fired_at, new_debounce, cancel, expire, on_debounce_signal, on_expire, steps,
}
use noctisplanet_foundation.Dispatch.Schedule.Spacing.{Throttled, fired_at-Throttled}
use noctisplanet_foundation.Dispatch.Schedule.Latest.{on_expire-quiet}

abbrev messages : List Message
messages = suspend_timer ∷ suspend_timer ∷ cancel_timer ∷ resume_timer ∷ []

session_result :
    (send_all messages (some new_timer)).1
    ≡ dispatch_suspend ∷ dispatch_source_cancel ∷ dispatch_resume ∷ []
unfolding send_all
session_result = refl

-- A thread suspends the timer and another one resumes it; the resume reaches the source first, which has
-- not been suspended.
abbrev overtaken : Threads
overtaken = record {
  timer = some new_timer;
  pending = [] ∷ (dispatch_suspend ∷ []) ∷ [];
  made = dispatch_resume ∷ [];
}

overtaken_reached : Reaches start overtaken
unfolding send
overtaken_reached =
    then_step (then_step (then_step here (locked suspend_timer)) (locked resume_timer))
      (called [] dispatch_resume [] ((dispatch_suspend ∷ []) ∷ []))

abbrev settled : Threads
settled = record {
  timer = some new_timer;
  pending = [] ∷ [] ∷ [];
  made = dispatch_suspend ∷ dispatch_resume ∷ [];
}

Quiescent-balance_example : InStep (some new_timer) (dispatch_suspend ∷ dispatch_resume ∷ [])
Quiescent-balance_example =
    Quiescent-balance settled
      (then_step overtaken_reached (called ([] ∷ []) dispatch_suspend [] [])) (refl, (refl, tt))

-- The first timer of a program observes the object 5, and is suspended when that is deallocated.
abbrev world : World ℕ Timers
world = record {
  associated = λ p. none;
  rest = record { sources = λ t. none; associated = λ t. none; calls = λ t. []; next = 0 };
}

at_the_end-cancelled_example :
    let calls = (at_the_end (λ x n. x * n) 0 0 5 none 1 0 77 world (suspend_timer ∷ [])).calls 0 in
    (cancels calls ≡ 1) × (resumes calls ≡ suspends calls)
unfolding dispatch_timer_observable
at_the_end-cancelled_example =
    at_the_end-cancelled (λ x n. x * n) 0 0 5 none 1 0 77 world (suspend_timer ∷ [])

abbrev no_works : Works
no_works = record { handles = λ h. none; tasks = λ q. []; next = 3 }

abbrev uses : List Use
uses = signalled ∷ cancelled ∷ signalled ∷ []

lifetime-Lived_example : Ends (Lived true true uses no_works) (lifetime true true uses no_works)
lifetime-Lived_example = lifetime-Lived true true uses no_works

fired_result : fired_at 10 (3 ∷ 9 ∷ 13 ∷ 14 ∷ 30 ∷ []) new_throttle ≡ 3 ∷ 13 ∷ 30 ∷ []
unfolding fired_at
fired_result = refl

fired_at-Throttled_example :
    Throttled 10 (3 ∷ 9 ∷ 13 ∷ 14 ∷ 30 ∷ []) (fired_at 10 (3 ∷ 9 ∷ 13 ∷ 14 ∷ 30 ∷ []) new_throttle)
fired_at-Throttled_example =
    fired_at-Throttled 10 0 (3 ∷ 9 ∷ 13 ∷ 14 ∷ 30 ∷ [])
      (omega arith, (omega arith, (omega arith, (omega arith, (omega arith, tt)))))

on_expire-quiet_example :
    on_expire
      (on_debounce_signal new_debounce).0
      (steps (expire 0 ∷ cancel ∷ []) (on_debounce_signal new_debounce).1)
    ≡ false
on_expire-quiet_example = on_expire-quiet new_debounce (expire 0 ∷ cancel ∷ []) (omega arith)
