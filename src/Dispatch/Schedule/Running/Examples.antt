-- ===== src/Dispatch/Schedule/Running/Examples.antt =====
-- A debounce whose handle is signalled a second time while its first timer has expired, and is then freed.
use noctisplanet_foundation.Prelude.{◌≡◌, refl, true, false, [], ◌∷◌, none, some, arith, Ends}
use noctisplanet_foundation.Dispatch.Schedule.{signal, expire, on_expire, step}
use noctisplanet_foundation.Dispatch.Schedule.Handle.{
  Works, put, schedule_work_signal, schedule_debounce,
}
use noctisplanet_foundation.Dispatch.Schedule.Handle.Uses
use noctisplanet_foundation.Dispatch.Schedule.Running.{
  Running, ran, expired, with_tasks, made, timers_after, Reaches, here, signalled, turned,
}
use noctisplanet_foundation.Dispatch.Schedule.Running.Settles.{Settles, last_use, last_use-Settles}

abbrev no_works : Works
no_works = record { handles = λ h. none; tasks = λ q. []; next = 3 }

-- A debounce is signalled; the signal is run; and the timer that it has set expires.
abbrev once_signalled : Running
once_signalled = record (made no_works) {
  works = record (made no_works).works { tasks = put (made no_works).works.tasks 3 (signal ∷ []) };
}

abbrev waiting : Running
waiting = record {
  works = with_tasks 3 [] once_signalled.works;
  timers = 1 ∷ [];
  debounce = record { canceled = false; generation = 1 };
  dispatched = 0;
}

abbrev about_to_call : Running
about_to_call = record waiting { works = with_tasks 3 (expire 1 ∷ []) waiting.works; timers = [] }

about_to_call_reached : Reaches no_works 1 about_to_call
unfolding schedule_debounce schedule_work_signal step timers_after
about_to_call_reached =
    turned {s = waiting}
      (turned {s = once_signalled} (signalled {s = made no_works} here refl) (ran signal [] refl))
      (expired [] 1 [] refl)

last_use-Settles_example :
    Ends
      (λ ws'. Settles 3 (λ t. t.dispatched ≡ 2) (record about_to_call { works = ws' }))
      (last_use Uses.signalled true (some 3) about_to_call.works)
unfolding schedule_debounce step on_expire
last_use-Settles_example =
    last_use-Settles no_works 1 about_to_call about_to_call_reached (omega arith) Uses.signalled
      true (λ e. cc)
