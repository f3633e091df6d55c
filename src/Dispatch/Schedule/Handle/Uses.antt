-- ===== src/Dispatch/Schedule/Handle/Uses.antt =====
-- What signals and cancels of a handle put on its queue, until it is freed.
use noctisplanet_foundation.Prelude.{
  ℕ, suc, ◌≡◌, ◌≢◌, refl, sym, ap, ◌∙◌, Bool, true, false, List, [], ◌∷◌, ◌++◌, Option, none, some,
  arith, if◌then◌else◌, Run, ok, ◌>>=◌, Ends, ends, Ends-bind, Ends-weaken,
}
use noctisplanet_foundation.Dispatch.Schedule.{Event, signal, cancel}
use noctisplanet_foundation.Dispatch.Schedule.Handle.{
  async, no_effect, Work, Works, put, call, schedule_work_signal, schedule_work_cancel,
  schedule_work_free, schedule_throttle, schedule_debounce,
}

pub data Use : Type 0 where
  signalled : Use
  cancelled : Use

-- Signals and cancels, one after the other.
unfoldable pub use_all : List Use → Option ℕ → Works → Run Works
unfolding schedule_work_signal schedule_work_cancel
use_all [] work ws = ok ws
use_all (signalled ∷ uses) work ws = schedule_work_signal work ws >>= λ ws'. use_all uses work ws'
use_all (cancelled ∷ uses) work ws = schedule_work_cancel work ws >>= λ ws'. use_all uses work ws'

-- The tasks that a use should put on the queue.
abbrev pub expected : Bool → List Use → List Event
expected debounce [] = []
expected debounce (signalled ∷ uses) = signal ∷ expected debounce uses
expected true (cancelled ∷ uses) = cancel ∷ expected true uses
expected false (cancelled ∷ uses) = expected false uses

-- The blocks of a handle: those of a debounce, or of a throttle.
abbrev pub work_of : Bool → Work
work_of debounce = record {
  signal_block = some (async signal);
  cancel_block = some (if debounce then async cancel else no_effect);
}

-- The queue of `work` has been given the tasks, and nothing else has changed.
pub record Given (ws : Works) (work : ℕ) (tasks : List Event) (ws' : Works) : Type 0 where
  pub given : ws'.tasks work ≡ ws.tasks work ++ tasks
  pub others : (q : ℕ) → q ≢ work → ws'.tasks q ≡ ws.tasks q
  pub handles : (q : ℕ) → ws'.handles q ≡ ws.handles q

append_nil : (xs : List Event) → xs ++ [] ≡ xs
append_nil [] = refl
append_nil (x ∷ xs) = rw (append_nil xs)

append_assoc : (xs ys zs : List Event) → (xs ++ ys) ++ zs ≡ xs ++ (ys ++ zs)
append_assoc [] ys zs = refl
append_assoc (x ∷ xs) ys zs = rw (append_assoc xs ys zs)

Given-then :
    (ws ws' ws'' : Works) (work : ℕ) (xs ys : List Event)
    → Given ws work xs ws'
    → Given ws' work ys ws''
    → Given ws work (xs ++ ys) ws''
Given-then ws ws' ws'' work xs ys g h = record {
  given =
      h.given ∙ (ap (λ (ts : List Event). ts ++ ys) g.given ∙ append_assoc (ws.tasks work) xs ys);
  others = λ q ne. h.others q ne ∙ g.others q ne;
  handles = λ q. h.handles q ∙ g.handles q;
}

async-Given :
    (ws : Works) (work : ℕ) (task : Event)
    → Ends (Given ws work (task ∷ [])) (call work (some (async task)) ws)
unfolding call
async-Given ws work task =
    ends (record { given = ground arith; others = λ q ne. ground arith; handles = λ q. refl })

module _ (debounce : Bool) (work : ℕ) where
  pub signal-Given :
      (ws : Works)
      → ws.handles work ≡ some (work_of debounce)
      → Ends (Given ws work (signal ∷ [])) (schedule_work_signal (some work) ws)
  unfolding schedule_work_signal
  signal-Given ws e = rw e (async-Given ws work signal)

  pub cancel-Given :
      (ws : Works)
      → ws.handles work ≡ some (work_of debounce)
      → Ends
          (Given ws work (expected debounce (cancelled ∷ [])))
          (schedule_work_cancel (some work) ws)
  unfolding schedule_work_cancel call
  cancel-Given ws e = rw e (by_kind debounce)
    where
      by_kind :
          (debounce : Bool)
          → Ends
              (Given ws work (expected debounce (cancelled ∷ [])))
              (call work (some (if debounce then async cancel else no_effect)) ws)
      by_kind true = async-Given ws work cancel
      by_kind false = ends (record {
        given = sym (append_nil (ws.tasks work));
        others = λ q ne. refl;
        handles = λ q. refl;
      })

  expected-cancelled :
      (uses : List Use)
      → expected debounce (cancelled ∷ uses)
        ≡ expected debounce (cancelled ∷ []) ++ expected debounce uses
  expected-cancelled uses = by_kind debounce
    where
      by_kind :
          (debounce : Bool)
          → expected debounce (cancelled ∷ uses)
            ≡ expected debounce (cancelled ∷ []) ++ expected debounce uses
      by_kind true = refl
      by_kind false = refl

  pub use_all-Given :
      (uses : List Use) (ws : Works)
      → ws.handles work ≡ some (work_of debounce)
      → Ends (Given ws work (expected debounce uses)) (use_all uses (some work) ws)
  unfolding use_all
  use_all-Given [] ws e = ends (record {
    given = sym (append_nil (ws.tasks work));
    others = λ q ne. refl;
    handles = λ q. refl;
  })
  use_all-Given (signalled ∷ uses) ws e = Ends-bind (signal-Given ws e) λ ws' g.
      Ends-weaken (use_all-Given uses ws' (g.handles work ∙ e))
        λ ws'' h. Given-then ws ws' ws'' work (signal ∷ []) (expected debounce uses) g h
  use_all-Given (cancelled ∷ uses) ws e = Ends-bind (cancel-Given ws e) λ ws' g.
      Ends-weaken (use_all-Given uses ws' (g.handles work ∙ e)) λ ws'' h.
        rw (expected-cancelled uses) (
          Given-then ws ws' ws'' work (expected debounce (cancelled ∷ [])) (expected debounce uses)
            g h)

-- `NPDispatchScheduleDebounce` or `NPDispatchScheduleThrottle`.
abbrev pub schedule : Bool → Bool → Works → Option ℕ × Works
schedule true allocated ws = schedule_debounce allocated ws
schedule false allocated ws = schedule_throttle allocated ws

-- A handle is made, used and freed.
abbrev pub lifetime : Bool → Bool → List Use → Works → Run Works
lifetime debounce allocated uses ws =
    let (work, ws') = schedule debounce allocated ws in
    use_all uses work ws' >>= λ ws''. schedule_work_free work ws''

-- What the life of a handle leaves: the tasks of its queue, and no handle that was not there.
pub record Lived (debounce allocated : Bool) (uses : List Use) (ws ws' : Works) : Type 0 where
  pub tasks : allocated ≡ true → ws'.tasks ws.next ≡ expected debounce uses
  pub freed : allocated ≡ true → ws'.handles ws.next ≡ none
  pub others : (q : ℕ) → q ≢ ws.next → (ws'.tasks q ≡ ws.tasks q) × (ws'.handles q ≡ ws.handles q)
  pub refused : allocated ≡ false → ws' ≡ ws

use_all-null : (uses : List Use) (ws : Works) → use_all uses none ws ≡ ok ws
unfolding use_all schedule_work_signal schedule_work_cancel
use_all-null [] ws = refl
use_all-null (signalled ∷ uses) ws = use_all-null uses ws
use_all-null (cancelled ∷ uses) ws = use_all-null uses ws

pub put_self : {A : Type 0} (f : ℕ → A) (i : ℕ) (a : A) → put f i a i ≡ a
put_self f i a = ground arith

pub put_other : {A : Type 0} (f : ℕ → A) (i : ℕ) (a : A) (q : ℕ) → q ≢ i → put f i a q ≡ f q
put_other f i a q ne = ground arith

abbrev made : Bool → Works → Works
made debounce ws = record {
  handles = put ws.handles ws.next (some (work_of debounce));
  tasks = put ws.tasks ws.next [];
  next = suc ws.next;
}

schedule-made :
    (debounce : Bool) (ws : Works) → schedule debounce true ws ≡ (some ws.next, made debounce ws)
unfolding schedule_debounce schedule_throttle
schedule-made true ws = refl
schedule-made false ws = refl

schedule-refused : (debounce : Bool) (ws : Works) → schedule debounce false ws ≡ (none, ws)
unfolding schedule_debounce schedule_throttle
schedule-refused true ws = refl
schedule-refused false ws = refl

-- Making a throttle or a debounce, signalling and cancelling its handle any number of times and
-- freeing it ends without a use of freed memory or a call of a null block. If the handle could be
-- allocated, its queue has been given a task for each signal and, for a debounce, for each cancel, in
-- order; the handle is gone, and no other handle or queue has changed. If it could not, nothing has
-- changed at all.
pub lifetime-Lived :
    (debounce allocated : Bool) (uses : List Use) (ws : Works)
    → Ends (Lived debounce allocated uses ws) (lifetime debounce allocated uses ws)
unfolding schedule_work_free
lifetime-Lived debounce false uses ws =
    rw (schedule-refused debounce ws, use_all-null uses ws)
      (ends (record {
        tasks = λ e. absurd cc;
        freed = λ e. absurd cc;
        others = λ q ne. (refl, refl);
        refused = λ e. refl;
      }))
lifetime-Lived debounce true uses ws =
    let there : (made debounce ws).handles ws.next ≡ some (work_of debounce) = ground arith in
    rw (schedule-made debounce ws) (
      Ends-bind (use_all-Given debounce ws.next uses (made debounce ws) there) λ ws' g.
        rw (g.handles ws.next, there)
          (ends (record {
            tasks = λ e.
                g.given
                ∙ ap (λ (ts : List Event). ts ++ expected debounce uses)
                    (put_self ws.tasks ws.next []);
            freed = λ e. put_self ws'.handles ws.next none;
            others = λ q ne. (
              g.others q ne ∙ put_other ws.tasks ws.next [] q ne,
              put_other ws'.handles ws.next none q ne
                  ∙ (g.handles q ∙ put_other ws.handles ws.next (some (work_of debounce)) q ne),
            );
            refused = λ e. absurd cc;
          })))
