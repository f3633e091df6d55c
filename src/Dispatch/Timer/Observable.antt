-- ===== src/Dispatch/Timer/Observable.antt =====
-- The functions of Sources/NPFoundation/dispatch/timer.m that make timers. A timer is its number; its
-- source, the object associated with it, and the calls made on the source since, are kept by that number.
-- The arithmetic of `double` is a parameter: its type, and how a product with a constant is converted to the
-- integer that libdispatch takes.
use noctisplanet_foundation.Prelude.{
  ℕ, suc, Bool, true, List, [], ◌++◌, Option, none, some, ◌==◌, if◌then◌else◌,
}
use noctisplanet_foundation.Dispatch.Timer.{NpTimer, new_timer, Call, Message, cancel_timer, send}
use noctisplanet_foundation.Objc.Observing.{World, attach_deallocation_handler}

-- A timer source as it is set up: its queue, when it fires first and then how often, and what it runs.
pub record Source : Type 0 where
  pub queue : ℕ
  pub start : ℕ
  pub interval : ℕ
  pub leeway : ℕ
  pub handler : ℕ
  pub activated : Bool

pub record Timers : Type 0 where
  pub sources : ℕ → Option Source
  pub associated : ℕ → Option NpTimer
  pub calls : ℕ → List Call
  pub next : ℕ

abbrev pub update {ℓ} : {A : Type ℓ} → (ℕ → A) → ℕ → A → ℕ → A
update f i a j = if i == j then a else f j

-- `dispatch_get_global_queue(QOS_CLASS_DEFAULT, 0)` for a null queue.
abbrev pub queue_or : ℕ → Option ℕ → ℕ
queue_or global none = global
queue_or global (some queue) = queue

abbrev nsec_per_sec : ℕ
nsec_per_sec = 1000000000

-- `NPDispatchTimer`; `now` is `DISPATCH_TIME_NOW`, and `times x n` is `x * n` as an integer.
unfoldable pub dispatch_timer :
    {Double : Type 0}
    → (times : Double → ℕ → ℕ) (global now : ℕ) (queue : Option ℕ)
      (interval_in_seconds leeway_in_seconds : Double) (block : ℕ)
    → Timers
    → ℕ × Timers
dispatch_timer times global now queue interval_in_seconds leeway_in_seconds block ts =
    let source : Source = record {
      queue = queue_or global queue;
      start = now;
      interval = times interval_in_seconds nsec_per_sec;
      leeway = times leeway_in_seconds nsec_per_sec;
      handler = block;
      activated = true;
    } in
    (
      ts.next,
      record {
        sources = update ts.sources ts.next (some source);
        associated = update ts.associated ts.next (some new_timer);
        calls = update ts.calls ts.next [];
        next = suc ts.next;
      },
    )

-- `NPDispatchTimerResume`, `NPDispatchTimerSuspend` or `NPDispatchTimerCancel` of a timer.
unfoldable pub send_to : Message → ℕ → Timers → Timers
unfolding send
send_to message timer ts =
    let (t, calls) = send message (ts.associated timer) in
    record ts {
      associated = update ts.associated timer t;
      calls = update ts.calls timer (ts.calls timer ++ calls);
    }

-- A deallocation handler is known by the timer that it cancels.
abbrev pub cancel_handler : ℕ → Timers → Timers
cancel_handler timer ts = send_to cancel_timer timer ts

unfoldable pub dispatch_timer_observable :
    {Double : Type 0}
    → (times : Double → ℕ → ℕ) (global now : ℕ) (observable queue : Option ℕ)
      (interval_in_seconds leeway_in_seconds : Double) (block : ℕ)
    → World ℕ Timers
    → ℕ × World ℕ Timers
unfolding dispatch_timer attach_deallocation_handler
dispatch_timer_observable times global now observable queue interval leeway block w =
    let (timer, ts) = dispatch_timer times global now queue interval leeway block w.rest in
    (timer, attach_deallocation_handler cancel_handler observable timer (record w { rest = ts }))
