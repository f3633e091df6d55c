-- ===== src/Dispatch/Timer/Lifetime.antt =====
-- A timer that observes an object is cancelled with the object, and its source can then be released.
use noctisplanet_foundation.Prelude.{
  ℕ, ◌+◌, ◌≤◌, ◌≡◌, ◌≢◌, refl, sym, ap, ◌∙◌, true, List, [], ◌∷◌, ◌++◌, Option, some, arith, ◌==◌,
  subst,
}
use native.Mathlib.Decide.{ℕ_discrete}
use noctisplanet_foundation.Dispatch.Timer.{
  NpTimer, new_timer, Call, Message, resume_timer, suspend_timer, cancel_timer, send,
}
use noctisplanet_foundation.Dispatch.Timer.Balance.{
  resumes, suspends, cancels, suspended, cancelled, send-Balanced, exclusive, resumes-append,
  suspends-append, cancels-append,
}
use noctisplanet_foundation.Dispatch.Timer.Observable.{
  Timers, update, dispatch_timer, send_to, cancel_handler, dispatch_timer_observable,
}
use noctisplanet_foundation.Objc.Observing.{
  World, observing_or_new, run_handlers, dealloc, attach_deallocation_handler, deallocate,
}

-- The timer's flags agree with the calls that it has made on its source.
pub record InStep (t : Option NpTimer) (calls : List Call) : Type 0 where
  pub level : suspends calls ≡ resumes calls + suspended t
  pub once : cancels calls ≡ cancelled t
  pub exclusive_flags : cancelled t + suspended t ≤ 1

send-InStep :
    (m : Message) (t : Option NpTimer) (calls : List Call)
    → InStep t calls
    → InStep (send m t).0 (calls ++ (send m t).1)
send-InStep m t calls s =
    let b = send-Balanced m t in
    record {
      level = omega (
        arith,
        s.level,
        b.level,
        suspends-append calls (send m t).1,
        resumes-append calls (send m t).1,
      );
      once = omega (arith, s.once, b.once, cancels-append calls (send m t).1);
      exclusive_flags = exclusive m t s.exclusive_flags;
    }

-- The timer is there, and in step.
pub record Kept (timer : ℕ) (ts : Timers) : Type 0 where
  pub flags : NpTimer
  pub is : ts.associated timer ≡ some flags
  pub in_step : InStep (ts.associated timer) (ts.calls timer)

send-some : (m : Message) (t : NpTimer) → (t' : NpTimer) × ((send m (some t)).0 ≡ some t')
unfolding send
send-some resume_timer t = (_, refl)
send-some suspend_timer t = (_, refl)
send-some cancel_timer t = (_, refl)

cancelled-send : (t : NpTimer) → cancelled (send cancel_timer (some t)).0 ≡ 1
unfolding send
cancelled-send t = ground arith

updated : {A : Type 0} (f : ℕ → A) (i : ℕ) (a : A) → update f i a i ≡ a
updated f i a = ground arith

elsewhere : {A : Type 0} (f : ℕ → A) (i : ℕ) (a : A) (j : ℕ) → i ≢ j → update f i a j ≡ f j
elsewhere f i a j ne = ground arith

send_self-Kept :
    (m : Message) (timer : ℕ) (ts : Timers) → Kept timer ts → Kept timer (send_to m timer ts)
unfolding send_to
send_self-Kept m timer ts k =
    let (t, there) = send-some m k.flags in
    record {
      flags = t;
      is = updated ts.associated timer _ ∙ (ap (λ (o : Option NpTimer). (send m o).0) k.is ∙ there);
      in_step =
          rw
            (
              updated ts.associated timer (send m (ts.associated timer)).0,
              updated ts.calls timer (ts.calls timer ++ (send m (ts.associated timer)).1),
            )
            (send-InStep m (ts.associated timer) (ts.calls timer) k.in_step);
    }

send_to-Kept :
    (m : Message) (other timer : ℕ) (ts : Timers) → Kept timer ts → Kept timer (send_to m other ts)
unfolding send_to
send_to-Kept m other timer ts k = elim (ℕ_discrete other timer) [
  | yes same ↦ subst (λ o. Kept timer (send_to m o ts)) (sym same) (send_self-Kept m timer ts k)
  | no ne ↦ record {
    flags = k.flags;
    is = elsewhere ts.associated other _ timer ne ∙ k.is;
    in_step =
        rw
          (
            elsewhere ts.associated other (send m (ts.associated other)).0 timer ne,
            elsewhere ts.calls other (ts.calls other ++ (send m (ts.associated other)).1) timer ne,
          )
          k.in_step;
  }
]

send_cancel-cancelled :
    (timer : ℕ) (ts : Timers)
    → Kept timer ts
    → cancelled ((send_to cancel_timer timer ts).associated timer) ≡ 1
unfolding send_to
send_cancel-cancelled timer ts k =
    ap cancelled
      (updated ts.associated timer _ ∙ ap (λ (o : Option NpTimer). (send cancel_timer o).0) k.is)
    ∙ cancelled-send k.flags

-- Messages to the timer, and the handlers of the objects that are deallocated.
unfoldable pub send_each : List Message → ℕ → Timers → Timers
unfolding send_to
send_each [] timer ts = ts
send_each (m ∷ ms) timer ts = send_each ms timer (send_to m timer ts)

send_each-Kept :
    (ms : List Message) (timer : ℕ) (ts : Timers)
    → Kept timer ts
    → Kept timer (send_each ms timer ts)
unfolding send_each
send_each-Kept [] timer ts k = k
send_each-Kept (m ∷ ms) timer ts k =
    send_each-Kept ms timer (send_to m timer ts) (send_to-Kept m timer timer ts k)

-- The last of the handlers cancels the timer.
record Ended (timer : ℕ) (ts : Timers) : Type 0 where
  kept : Kept timer ts
  over : cancelled (ts.associated timer) ≡ 1

run_handlers-Ended :
    (hs : List ℕ) (timer : ℕ) (ts : Timers)
    → Kept timer ts
    → Ended timer (run_handlers cancel_handler (hs ++ timer ∷ []) ts)
unfolding run_handlers
run_handlers-Ended [] timer ts k = record {
  kept = send_to-Kept cancel_timer timer timer ts k;
  over = send_cancel-cancelled timer ts k;
}
run_handlers-Ended (h ∷ hs) timer ts k =
    run_handlers-Ended hs timer (cancel_handler h ts) (send_to-Kept cancel_timer h timer ts k)

dispatch_timer-Kept :
    {Double : Type 0} (times : Double → ℕ → ℕ) (global now : ℕ) (queue : Option ℕ)
    (interval leeway : Double) (block : ℕ) (ts : Timers)
    → Kept
        (dispatch_timer times global now queue interval leeway block ts).0
        (dispatch_timer times global now queue interval leeway block ts).1
unfolding dispatch_timer
dispatch_timer-Kept times global now queue interval leeway block ts = record {
  flags = new_timer;
  is = updated ts.associated ts.next (some new_timer);
  in_step =
      rw (updated ts.associated ts.next (some new_timer), updated ts.calls ts.next [])
        (record { level = refl; once = refl; exclusive_flags = omega arith });
}

module _ {Double : Type 0} (times : Double → ℕ → ℕ) (global now : ℕ) (observable : ℕ)
    (queue : Option ℕ) (interval leeway : Double) (block : ℕ) (w : World ℕ Timers) where
  abbrev pub made : ℕ × World ℕ Timers
  made = dispatch_timer_observable times global now (some observable) queue interval leeway block w

  -- Between the making of the timer and the end of the object, the timer is sent messages.
  abbrev pub at_the_end : List Message → Timers
  at_the_end ms =
      (deallocate cancel_handler observable
        (record made.1 { rest = send_each ms made.0 made.1.rest })).rest

  at_the_end-Ended : (ms : List Message) → Ended made.0 (at_the_end ms)
  unfolding dispatch_timer_observable attach_deallocation_handler deallocate dealloc
  at_the_end-Ended ms =
      let kept = dispatch_timer-Kept times global now queue interval leeway block w.rest in
      let sent = send_each-Kept ms _ _ kept in
      let self : (observable == observable) ≡ true = ground arith in
      rw (at_the_end, self)
        (run_handlers-Ended (observing_or_new (w.associated observable)).handlers _ _ sent)

  -- Whatever handlers other timers have attached, if a timer is made for an object, is sent any
  -- messages, and the object is then deallocated, the source of the timer has been cancelled exactly
  -- once, and resumed exactly as often as suspended.
  pub at_the_end-cancelled :
      (ms : List Message)
      → let calls = (at_the_end ms).calls made.0 in
        (cancels calls ≡ 1) × (resumes calls ≡ suspends calls)
  at_the_end-cancelled ms =
      let e = at_the_end-Ended ms in
      (
        e.kept.in_step.once ∙ e.over,
        omega (arith, e.kept.in_step.level, e.kept.in_step.exclusive_flags, e.over),
      )
