-- ===== src/Dispatch/Schedule/Running.antt =====
-- A debounce of Sources/NPFoundation/dispatch/schedule.m at work: its handle is signalled and cancelled from
-- any threads, its serial queue runs the blocks it has been given, and its timer sources expire, in any order.
pub mod Owed
pub mod Sound
pub mod Settles
mod Examples
use noctisplanet_foundation.Prelude.{
  ℕ, suc, ◌+◌, ◌≡◌, Bool, true, false, List, [], ◌∷◌, ◌++◌, some, ok,
}
use noctisplanet_foundation.Dispatch.Schedule.{
  Debounce, new_debounce, Event, signal, cancel, expire, on_debounce_signal, step,
}
use noctisplanet_foundation.Dispatch.Schedule.Handle.{
  Works, put, schedule_work_signal, schedule_work_cancel, schedule_work_free, schedule_debounce,
}

-- The handles and queues; the generations whose timers are active and have not expired; the variables that the
-- blocks share; and how often the callback has been dispatched.
pub record Running : Type 0 where
  pub works : Works
  pub timers : List ℕ
  pub debounce : Debounce
  pub dispatched : ℕ

abbrev pub times : Bool → ℕ
times true = 1
times false = 0

-- The timers that are active after an event: a signal sets one, for the generation it has made.
unfoldable pub timers_after : Event → Debounce → List ℕ → List ℕ
unfolding on_debounce_signal
timers_after signal d timers = (on_debounce_signal d).0 ∷ timers
timers_after cancel d timers = timers
timers_after (expire current) d timers = timers

-- The queue of `work` is left with `tasks`.
abbrev pub with_tasks : ℕ → List Event → Works → Works
with_tasks work tasks ws = record ws { tasks = put ws.tasks work tasks }

-- What libdispatch does: the queue runs its first block to the end, or a timer expires, whose event handler
-- is then the last block of the queue. It does not expire again: its interval is `DISPATCH_TIME_FOREVER`, and
-- the handler cancels it.
pub data Turn (work : ℕ) (s : Running) : Running → Type 0 where
  ran :
      (task : Event) (tasks : List Event)
      → s.works.tasks work ≡ task ∷ tasks
      → Turn work s (record {
        works = with_tasks work tasks s.works;
        timers = timers_after task s.debounce s.timers;
        debounce = (step task s.debounce).1;
        dispatched = times (step task s.debounce).0 + s.dispatched;
      })
  expired :
      (before : List ℕ) (current : ℕ) (after : List ℕ)
      → s.timers ≡ before ++ current ∷ after
      → Turn work s (record s {
        works = with_tasks work (s.works.tasks work ++ expire current ∷ []) s.works;
        timers = before ++ after;
      })

-- The debounce that has just been made.
abbrev pub made : Works → Running
made ws = record {
  works = (schedule_debounce true ws).1;
  timers = [];
  debounce = new_debounce;
  dispatched = 0;
}

-- What is reached from a debounce that has just been made in the state `ws`, with so many signals.
pub data Reaches (ws : Works) : ℕ → Running → Type 0 where
  here : Reaches ws 0 (made ws)
  signalled :
      {n : ℕ} {s : Running} {ws' : Works}
      → Reaches ws n s
      → schedule_work_signal (some ws.next) s.works ≡ ok ws'
      → Reaches ws (suc n) (record s { works = ws' })
  cancelled :
      {n : ℕ} {s : Running} {ws' : Works}
      → Reaches ws n s
      → schedule_work_cancel (some ws.next) s.works ≡ ok ws'
      → Reaches ws n (record s { works = ws' })
  freed :
      {n : ℕ} {s : Running} {ws' : Works}
      → Reaches ws n s
      → schedule_work_free (some ws.next) s.works ≡ ok ws'
      → Reaches ws n (record s { works = ws' })
  turned : {n : ℕ} {s t : Running} → Reaches ws n s → Turn ws.next s t → Reaches ws n t
