-- ===== src/Dispatch/Timer/Balance.antt =====
-- The suspends and resumes that a timer makes balance.
use noctisplanet_foundation.Prelude.{
  ℕ, suc, ◌+◌, ◌≤◌, ◌≡◌, refl, List, [], ◌∷◌, ◌++◌, Option, none, some, arith, if◌then◌else◌,
}
use noctisplanet_foundation.Dispatch.Timer.{
  NpTimer, new_timer, Call, dispatch_resume, dispatch_suspend, dispatch_source_cancel, Message,
  resume_timer, suspend_timer, cancel_timer, send, send_all,
}

abbrev pub resumes : List Call → ℕ
resumes [] = 0
resumes (dispatch_resume ∷ calls) = suc (resumes calls)
resumes (_ ∷ calls) = resumes calls

abbrev pub suspends : List Call → ℕ
suspends [] = 0
suspends (dispatch_suspend ∷ calls) = suc (suspends calls)
suspends (_ ∷ calls) = suspends calls

abbrev pub cancels : List Call → ℕ
cancels [] = 0
cancels (dispatch_source_cancel ∷ calls) = suc (cancels calls)
cancels (_ ∷ calls) = cancels calls

abbrev pub suspended : Option NpTimer → ℕ
suspended none = 0
suspended (some t) = if t.is_suspended then 1 else 0

abbrev pub cancelled : Option NpTimer → ℕ
cancelled none = 0
cancelled (some t) = if t.is_cancelled then 1 else 0

-- From `t` to `t'` by `calls`: as many suspends more than resumes as the flag says, and a call of
-- cancel exactly when the flag is set.
pub record Balanced (t t' : Option NpTimer) (calls : List Call) : Type 0 where
  pub level : suspended t + suspends calls ≡ suspended t' + resumes calls
  pub once : cancelled t + cancels calls ≡ cancelled t'

pub resumes-append : (xs ys : List Call) → resumes (xs ++ ys) ≡ resumes xs + resumes ys
resumes-append [] ys = omega arith
resumes-append (dispatch_resume ∷ xs) ys = omega (arith, resumes-append xs ys)
resumes-append (dispatch_suspend ∷ xs) ys = omega (arith, resumes-append xs ys)
resumes-append (dispatch_source_cancel ∷ xs) ys = omega (arith, resumes-append xs ys)

pub suspends-append : (xs ys : List Call) → suspends (xs ++ ys) ≡ suspends xs + suspends ys
suspends-append [] ys = omega arith
suspends-append (dispatch_resume ∷ xs) ys = omega (arith, suspends-append xs ys)
suspends-append (dispatch_suspend ∷ xs) ys = omega (arith, suspends-append xs ys)
suspends-append (dispatch_source_cancel ∷ xs) ys = omega (arith, suspends-append xs ys)

pub cancels-append : (xs ys : List Call) → cancels (xs ++ ys) ≡ cancels xs + cancels ys
cancels-append [] ys = omega arith
cancels-append (dispatch_resume ∷ xs) ys = omega (arith, cancels-append xs ys)
cancels-append (dispatch_suspend ∷ xs) ys = omega (arith, cancels-append xs ys)
cancels-append (dispatch_source_cancel ∷ xs) ys = omega (arith, cancels-append xs ys)

pub send-Balanced : (m : Message) (t : Option NpTimer) → Balanced t (send m t).0 (send m t).1
unfolding send
send-Balanced m none = record { level = refl; once = refl }
send-Balanced resume_timer (some t) = record { level = ground arith; once = ground arith }
send-Balanced suspend_timer (some t) = record { level = ground arith; once = ground arith }
send-Balanced cancel_timer (some t) = record { level = ground arith; once = ground arith }

send_all-Balanced :
    (ms : List Message) (t : Option NpTimer) → Balanced t (send_all ms t).0 (send_all ms t).1
unfolding send_all
send_all-Balanced [] t = record { level = omega arith; once = omega arith }
send_all-Balanced (m ∷ ms) t =
    let now = send-Balanced m t in
    let later = send_all-Balanced ms (send m t).0 in
    record {
      level = omega (
        arith,
        now.level,
        later.level,
        resumes-append (send m t).1 (send_all ms (send m t).0).1,
        suspends-append (send m t).1 (send_all ms (send m t).0).1,
      );
      once =
          omega
            (arith, now.once, later.once, cancels-append (send m t).1 (send_all ms (send m t).0).1);
    }

-- A cancelled timer is not suspended.
pub exclusive :
    (m : Message) (t : Option NpTimer)
    → cancelled t + suspended t ≤ 1
    → cancelled (send m t).0 + suspended (send m t).0 ≤ 1
unfolding send
exclusive m none h = omega arith
exclusive resume_timer (some t) h = ground arith
exclusive suspend_timer (some t) h = ground arith
exclusive cancel_timer (some t) h = ground arith

all_exclusive :
    (ms : List Message) (t : Option NpTimer)
    → cancelled t + suspended t ≤ 1
    → cancelled (send_all ms t).0 + suspended (send_all ms t).0 ≤ 1
unfolding send_all
all_exclusive [] t h = h
all_exclusive (m ∷ ms) t h = all_exclusive ms (send m t).0 (exclusive m t h)

-- Whatever messages a new timer is sent, one after the other, it never makes more calls of resume
-- than of suspend, and its calls of suspend and of cancel together are at most one more than those of
-- resume: it suspends at most once more than it resumes, cancels at most once, and a source that it
-- has cancelled has been resumed as often as suspended.
send_all-balance :
    (ms : List Message)
    → (resumes (send_all ms (some new_timer)).1 ≤ suspends (send_all ms (some new_timer)).1)
      × (suspends (send_all ms (some new_timer)).1 + cancels (send_all ms (some new_timer)).1
          ≤ resumes (send_all ms (some new_timer)).1 + 1)
send_all-balance ms =
    let b = send_all-Balanced ms (some new_timer) in
    let one = all_exclusive ms (some new_timer) (omega arith) in
    (omega (arith, b.level), omega (arith, b.level, b.once, one))
