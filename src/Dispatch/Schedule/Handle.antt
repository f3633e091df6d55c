-- ===== src/Dispatch/Schedule/Handle.antt =====
-- The handles of Sources/NPFoundation/dispatch/schedule.m: memory that holds the two blocks of a schedule.
-- A block that is called puts a task on the schedule's serial queue, which is known by the handle's number.
pub mod Uses
use noctisplanet_foundation.Prelude.{
  undefined, ℕ, suc, ◌≡◌, ◌≢◌, refl, sym, ap, ◌∙◌, Bool, true, false, List, [], ◌∷◌, ◌++◌, Option,
  none, some, arith, ◌==◌, if◌then◌else◌, Run, ok, ◌>>=◌, present, Ends, ends, Ends-bind,
  Ends-weaken,
}
use noctisplanet_foundation.Dispatch.Schedule.{Event, signal, cancel}

-- What a block does when it is called.
pub data DispatchBlock : Type 0 where
  async : Event → DispatchBlock
  no_effect : DispatchBlock

-- `struct NPScheduleWork`
pub record Work : Type 0 where
  pub signal_block : Option DispatchBlock
  pub cancel_block : Option DispatchBlock

-- The handles that are allocated, and the tasks that each queue has been given.
pub record Works : Type 0 where
  pub handles : ℕ → Option Work
  pub tasks : ℕ → List Event
  pub next : ℕ

abbrev pub put {ℓ} : {A : Type ℓ} → (ℕ → A) → ℕ → A → ℕ → A
put f i a j = if i == j then a else f j

-- `allocated` is whether `calloc` succeeds.
unfoldable pub make_schedule_work : Bool → DispatchBlock → DispatchBlock → Works → Option ℕ × Works
make_schedule_work allocated signal_block cancel_block ws =
    let work : Work = record {
      signal_block = some signal_block;
      cancel_block = some cancel_block;
    } in
    if allocated
    then (
      some ws.next,
      record {
        handles = put ws.handles ws.next (some work);
        tasks = put ws.tasks ws.next [];
        next = suc ws.next;
      },
    )
    else (none, ws)

-- `dispatch_async` of the queue `queue`, or nothing. Calling a nil block is undefined behaviour.
unfoldable pub call : ℕ → Option DispatchBlock → Works → Run Works
call queue none ws = undefined
call queue (some (async task)) ws =
    ok (record ws { tasks = put ws.tasks queue (ws.tasks queue ++ task ∷ []) })
call queue (some no_effect) ws = ok ws

unfoldable pub schedule_work_signal : Option ℕ → Works → Run Works
unfolding call
schedule_work_signal none ws = ok ws
schedule_work_signal (some work) ws = do w ← present (ws.handles work); call work w.signal_block ws

unfoldable pub schedule_work_cancel : Option ℕ → Works → Run Works
unfolding call
schedule_work_cancel none ws = ok ws
schedule_work_cancel (some work) ws = do w ← present (ws.handles work); call work w.cancel_block ws

-- The fields are cleared, and the memory is freed.
unfoldable pub schedule_work_free : Option ℕ → Works → Run Works
schedule_work_free none ws = ok ws
schedule_work_free (some work) ws = do
  w ← present (ws.handles work)
  ok (record ws { handles = put ws.handles work none })

unfoldable pub schedule_throttle : Bool → Works → Option ℕ × Works
unfolding make_schedule_work
schedule_throttle allocated ws = make_schedule_work allocated (async signal) no_effect ws

unfoldable pub schedule_debounce : Bool → Works → Option ℕ × Works
unfolding make_schedule_work
schedule_debounce allocated ws = make_schedule_work allocated (async signal) (async cancel) ws
