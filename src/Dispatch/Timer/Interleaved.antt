-- ===== src/Dispatch/Timer/Interleaved.antt =====
-- The methods of `_NPTimer` run from several threads: a method changes the flags under the lock, and makes
-- its calls on the source after it, one by one, when the calls of other methods may come between.
use noctisplanet_foundation.Prelude.{
  ℕ, ◌+◌, ◌≤◌, ◌≡◌, refl, ap, List, [], ◌∷◌, ◌++◌, Option, some, arith,
}
use noctisplanet_foundation.Dispatch.Timer.{
  NpTimer, new_timer, Call, dispatch_resume, dispatch_suspend, dispatch_source_cancel, Message,
  send,
}
use noctisplanet_foundation.Dispatch.Timer.Balance.{
  resumes, suspends, cancels, suspended, cancelled, send-Balanced, exclusive,
}
use noctisplanet_foundation.Dispatch.Timer.Lifetime.{InStep}

-- The flags, the calls that each thread has still to make, and the calls that the source has got, the
-- latest first.
pub record Threads : Type 0 where
  pub timer : Option NpTimer
  pub pending : List (List Call)
  pub made : List Call

-- A thread goes through the locked part of a method; or one of them makes its next call.
pub data Step : Threads → Threads → Type 0 where
  locked :
      {s : Threads} (message : Message)
      → Step s (record s {
        timer = (send message s.timer).0;
        pending = (send message s.timer).1 ∷ s.pending;
      })
  called :
      {timer : Option NpTimer} {made : List Call} (before : List (List Call)) (call : Call)
      (calls : List Call) (after : List (List Call))
      → Step
          (record { timer = timer; pending = before ++ (call ∷ calls) ∷ after; made = made })
          (record { timer = timer; pending = before ++ calls ∷ after; made = call ∷ made })

pub data Reaches (s : Threads) : Threads → Type 0 where
  here : Reaches s s
  then_step : {t u : Threads} → Reaches s t → Step t u → Reaches s u

abbrev pub start : Threads
start = record { timer = some new_timer; pending = []; made = [] }

-- No thread has a call to make.
abbrev pub Quiescent : List (List Call) → Type 0
Quiescent [] = Unit
Quiescent (calls ∷ threads) = (calls ≡ []) × Quiescent threads

-- How often a call is still to be made.
abbrev outstanding : (List Call → ℕ) → List (List Call) → ℕ
outstanding count [] = 0
outstanding count (calls ∷ threads) = count calls + outstanding count threads

outstanding-append :
    (count : List Call → ℕ) (xs ys : List (List Call))
    → outstanding count (xs ++ ys) ≡ outstanding count xs + outstanding count ys
outstanding-append count [] ys = omega arith
outstanding-append count (x ∷ xs) ys = omega (arith, outstanding-append count xs ys)

outstanding-Quiescent :
    (count : List Call → ℕ) (threads : List (List Call))
    → count [] ≡ 0
    → Quiescent threads
    → outstanding count threads ≡ 0
outstanding-Quiescent count [] none_counted q = refl
outstanding-Quiescent count (calls ∷ threads) none_counted (e, q) =
    omega (arith, ap count e, none_counted, outstanding-Quiescent count threads none_counted q)

-- The flags agree with the calls made and to be made.
record Agrees (s : Threads) : Type 0 where
  level :
      suspends s.made + outstanding suspends s.pending
      ≡ resumes s.made + outstanding resumes s.pending + suspended s.timer
  once : cancels s.made + outstanding cancels s.pending ≡ cancelled s.timer
  exclusive_flags : cancelled s.timer + suspended s.timer ≤ 1

-- Making a call moves it from those to be made to those made.
moved :
    (count : List Call → ℕ)
    → ((c : Call) (cs : List Call) → count (c ∷ cs) ≡ count (c ∷ []) + count cs)
    → (before : List (List Call)) (call : Call) (calls : List Call) (after : List (List Call))
      (made : List Call)
    → count (call ∷ made) + outstanding count (before ++ calls ∷ after)
      ≡ count made + outstanding count (before ++ (call ∷ calls) ∷ after)
moved count each before call calls after made = omega (
  arith,
  each call made,
  each call calls,
  outstanding-append count before (calls ∷ after),
  outstanding-append count before ((call ∷ calls) ∷ after),
)

each_suspend : (c : Call) (cs : List Call) → suspends (c ∷ cs) ≡ suspends (c ∷ []) + suspends cs
each_suspend dispatch_resume cs = omega arith
each_suspend dispatch_suspend cs = omega arith
each_suspend dispatch_source_cancel cs = omega arith

each_resume : (c : Call) (cs : List Call) → resumes (c ∷ cs) ≡ resumes (c ∷ []) + resumes cs
each_resume dispatch_resume cs = omega arith
each_resume dispatch_suspend cs = omega arith
each_resume dispatch_source_cancel cs = omega arith

each_cancel : (c : Call) (cs : List Call) → cancels (c ∷ cs) ≡ cancels (c ∷ []) + cancels cs
each_cancel dispatch_resume cs = omega arith
each_cancel dispatch_suspend cs = omega arith
each_cancel dispatch_source_cancel cs = omega arith

step-Agrees : {s t : Threads} → Step s t → Agrees s → Agrees t
step-Agrees {s} (locked message) a =
    let b = send-Balanced message s.timer in
    record {
      level = omega (arith, a.level, b.level);
      once = omega (arith, a.once, b.once);
      exclusive_flags = exclusive message s.timer a.exclusive_flags;
    }
step-Agrees (called {timer} {made} before call calls after) a = record {
  level = omega (
    arith,
    a.level,
    moved suspends each_suspend before call calls after made,
    moved resumes each_resume before call calls after made,
  );
  once = omega (arith, a.once, moved cancels each_cancel before call calls after made);
  exclusive_flags = a.exclusive_flags;
}

Reaches-Agrees : {s : Threads} → Reaches start s → Agrees s
Reaches-Agrees here = record { level = refl; once = refl; exclusive_flags = omega arith }
Reaches-Agrees (then_step r step) = step-Agrees step (Reaches-Agrees r)

-- In any state that threads reach from a new timer, when the locked parts of its methods and the
-- single calls on the source interleave in any way, and in which no thread has a call left to make:
-- the source has been suspended once more than resumed if the timer is suspended, and as often if it
-- is not; it has been cancelled once if the timer is cancelled and never if it is not; and a
-- cancelled timer is not suspended.
pub Quiescent-balance :
    (s : Threads) → Reaches start s → Quiescent s.pending → InStep s.timer s.made
Quiescent-balance s r q =
    let a = Reaches-Agrees r in
    record {
      level = omega (
        arith,
        a.level,
        outstanding-Quiescent suspends s.pending refl q,
        outstanding-Quiescent resumes s.pending refl q,
      );
      once = omega (arith, a.once, outstanding-Quiescent cancels s.pending refl q);
      exclusive_flags = a.exclusive_flags;
    }
