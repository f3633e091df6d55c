-- ===== src/Dispatch/Timer.antt =====
-- Sources/NPFoundation/dispatch/timer.m: the state that `_NPTimer` keeps beside a dispatch source, and
-- the calls on the source that its methods make, each method run to its end before the next.
pub mod Balance
pub mod Observable
pub mod Lifetime
pub mod Interleaved
use noctisplanet_foundation.Prelude.{
  Bool, true, false, not, ◌&&◌, List, [], ◌∷◌, ◌++◌, Option, none, some, if◌then◌else◌,
}

pub record NpTimer : Type 0 where
  pub is_cancelled : Bool
  pub is_suspended : Bool

-- `init`
abbrev pub new_timer : NpTimer
new_timer = record { is_cancelled = false; is_suspended = false }

-- `dispatch_resume`, `dispatch_suspend` and `dispatch_source_cancel` of the source.
pub data Call : Type 0 where
  dispatch_resume : Call
  dispatch_suspend : Call
  dispatch_source_cancel : Call

unfoldable pub resume : NpTimer → NpTimer × List Call
resume t =
    if not t.is_cancelled && t.is_suspended
    then (record t { is_suspended = false }, dispatch_resume ∷ [])
    else (t, [])

unfoldable pub suspend : NpTimer → NpTimer × List Call
suspend t =
    if not t.is_cancelled && not t.is_suspended
    then (record t { is_suspended = true }, dispatch_suspend ∷ [])
    else (t, [])

-- A suspended source is resumed, so that its cancellation runs.
unfoldable pub cancel : NpTimer → NpTimer × List Call
cancel t =
    let balance : List Call = if t.is_suspended then dispatch_resume ∷ [] else [] in
    if not t.is_cancelled
    then (record { is_cancelled = true; is_suspended = false }, dispatch_source_cancel ∷ balance)
    else (t, [])

pub data Message : Type 0 where
  resume_timer : Message
  suspend_timer : Message
  cancel_timer : Message

-- `NPDispatchTimerResume`, `NPDispatchTimerSuspend` and `NPDispatchTimerCancel`: a message to the
-- associated object, which does nothing if there is none.
unfoldable pub send : Message → Option NpTimer → Option NpTimer × List Call
unfolding resume suspend cancel
send message none = (none, [])
send resume_timer (some t) = let (t', calls) = resume t in (some t', calls)
send suspend_timer (some t) = let (t', calls) = suspend t in (some t', calls)
send cancel_timer (some t) = let (t', calls) = cancel t in (some t', calls)

unfoldable pub send_all : List Message → Option NpTimer → Option NpTimer × List Call
unfolding send
send_all [] t = (t, [])
send_all (message ∷ messages) t =
    let (t', calls) = send message t in
    let (t'', later) = send_all messages t' in (t'', calls ++ later)
