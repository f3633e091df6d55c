-- ===== src/Dispatch/Schedule/Running/Settles.antt =====
-- A debounce comes to rest: its queue and its timers have only so many turns to take, and by then the callback
-- has been dispatched for the last signal.
use noctisplanet_foundation.Prelude.{
  ℕ, zero, suc, ◌+◌, ◌*◌, ◌^◌, ◌<◌, ◌≡◌, ◌≢◌, refl, sym, ◌∙◌, ◌⊎◌, inl, inr, Bool, true, List, [],
  ◌∷◌, ◌++◌, Option, none, some, arith, length, length-append, Run, ok, ◌>>=◌, if◌then◌else◌, Ends,
  ends, Ends-bind, Ends-if, Ends-weaken,
}
use noctisplanet_foundation.Dispatch.Schedule.{Event, signal, cancel, expire}
use noctisplanet_foundation.Dispatch.Schedule.Handle.{Works, schedule_work_free}
use noctisplanet_foundation.Dispatch.Schedule.Handle.Uses.{
  Use, signalled, cancelled, use_all, expected, use_all-Given, put_self,
}
use noctisplanet_foundation.Dispatch.Schedule.Running.{
  Running, Turn, ran, expired, timers_after, Reaches,
}
use noctisplanet_foundation.Dispatch.Schedule.Running.Owed.{
  due, owed, owed-expire, owed-signal, owed-cancel,
}
use noctisplanet_foundation.Dispatch.Schedule.Running.Sound.{Reaches-Sound, free-Freed}

-- However the queue and the timers take their turns from `s` on, they come to a state in which no block and no
-- timer is left, and `P` holds there.
pub data Settles (work : ℕ) (P : Running → Type 0) : Running → Type 0 where
  at_rest : {s : Running} → s.works.tasks work ≡ [] → s.timers ≡ [] → P s → Settles work P s
  turning :
      {s t : Running}
      → Turn work s t
      → ((t : Running) → Turn work s t → Settles work P t)
      → Settles work P s

-- How many turns there still are: a signal's block, its timer, and that timer's event handler.
abbrev turns_of : List Event → ℕ
turns_of [] = 0
turns_of (signal ∷ tasks) = 3 + turns_of tasks
turns_of (cancel ∷ tasks) = 1 + turns_of tasks
turns_of (expire c ∷ tasks) = 1 + turns_of tasks

turns_of-append : (xs ys : List Event) → turns_of (xs ++ ys) ≡ turns_of xs + turns_of ys
turns_of-append [] ys = omega arith
turns_of-append (signal ∷ xs) ys = omega (arith, turns_of-append xs ys)
turns_of-append (cancel ∷ xs) ys = omega (arith, turns_of-append xs ys)
turns_of-append (expire c ∷ xs) ys = omega (arith, turns_of-append xs ys)

module _ (work : ℕ) where
  abbrev turns : Running → ℕ
  turns s = turns_of (s.works.tasks work) + 2 * length s.timers

  abbrev total : Running → ℕ
  total s = owed (s.works.tasks work) s.debounce s.timers + s.dispatched

  turns-task :
      (task : Event) (tasks : List Event) (s : Running)
      → turns_of (task ∷ tasks) + 2 * length s.timers
        ≡ suc (turns_of tasks + 2 * length (timers_after task s.debounce s.timers))
  unfolding timers_after
  turns-task signal tasks s = omega arith
  turns-task cancel tasks s = omega arith
  turns-task (expire c) tasks s = omega arith

  turns-Turn : (s t : Running) → Turn work s t → turns s ≡ suc (turns t)
  turns-Turn s t (ran task tasks e) =
      rw (put_self s.works.tasks work tasks, e) (turns-task task tasks s)
  turns-Turn s t (expired before c after e) =
      let tasks = s.works.tasks work ++ expire c ∷ [] in
      let more = turns_of-append (s.works.tasks work) (expire c ∷ []) in
      rw (put_self s.works.tasks work tasks, e)
        (omega (arith, more, length-append before (c ∷ after), length-append before after))

  total-Turn : (s t : Running) → Turn work s t → total t ≡ total s
  total-Turn s t (ran task tasks e) = rw (put_self s.works.tasks work tasks, e) (omega arith)
  total-Turn s t (expired before c after e) =
      let tasks = s.works.tasks work ++ expire c ∷ [] in
      rw (put_self s.works.tasks work tasks, e)
        (omega (arith, owed-expire (s.works.tasks work) s.debounce before c after))

  -- There is a turn to take unless all is at rest.
  rests_or_moves :
      (s : Running)
      → ((s.works.tasks work ≡ []) × (s.timers ≡ [])) ⊎ ((t : Running) × Turn work s t)
  rests_or_moves s = by_case (s.works.tasks work) s.timers refl refl
    where
      by_case :
          (tasks : List Event) (timers : List ℕ)
          → s.works.tasks work ≡ tasks
          → s.timers ≡ timers
          → ((s.works.tasks work ≡ []) × (s.timers ≡ [])) ⊎ ((t : Running) × Turn work s t)
      by_case [] [] e e' = inl (e, e')
      by_case (task ∷ tasks) timers e e' = inr (_, ran task tasks e)
      by_case [] (c ∷ timers) e e' = inr (_, expired [] c timers e')

  nothing_owed : (s : Running) → s.works.tasks work ≡ [] → s.timers ≡ [] → total s ≡ s.dispatched
  nothing_owed s e e' = rw (e, e') (ground arith)

  total-Settles :
      (k n : ℕ) (s : Running) → turns s ≡ k → total s ≡ n → Settles work (λ t. t.dispatched ≡ n) s
  total-Settles zero n s e same = elim (rests_or_moves s) [
    | inl (no_task, no_timer) ↦
        at_rest no_task no_timer (sym (nothing_owed s no_task no_timer) ∙ same)
    | inr (t, turn) ↦ absurd (omega (arith, e, turns-Turn s t turn))
  ]
  total-Settles (suc k) n s e same = elim (rests_or_moves s) [
    | inl (no_task, no_timer) ↦
        at_rest no_task no_timer (sym (nothing_owed s no_task no_timer) ∙ same)
    | inr (_, turn) ↦ turning turn λ t turn'.
        total-Settles k n t (omega (arith, e, turns-Turn s t turn')) (total-Turn s t turn' ∙ same)
  ]

-- A signal or a cancel of the handle, which is then freed, or not.
abbrev pub last_use : Use → Bool → Option ℕ → Works → Run Works
last_use u frees work ws = do
  ws' ← use_all (u ∷ []) work ws
  if frees then schedule_work_free work ws' else ok ws'

abbrev pub answered : Use → ℕ
answered signalled = 1
answered cancelled = 0

module _ (ws : Works) (n : ℕ) (s : Running) (reached : Reaches ws n s) (few : suc n < 2 ^ 64) where
  abbrev work : ℕ
  work = ws.next

  abbrev before_use : ℕ
  before_use = due (s.works.tasks work) s.debounce + s.dispatched

  -- What is owed after the last use.
  owed_use :
      (u : Use) (ws' : Works)
      → ws'.tasks work ≡ s.works.tasks work ++ expected true (u ∷ [])
      → total work (record s { works = ws' }) ≡ answered u + before_use
  owed_use signalled ws' e =
      let a = Reaches-Sound ws n s (omega arith) reached in
      rw e (
        omega (arith, owed-signal (s.works.tasks work) s.debounce s.timers n a.counted few a.later))
  owed_use cancelled ws' e =
      rw e (omega (arith, owed-cancel (s.works.tasks work) s.debounce s.timers))

  -- Let a state be reached from a new debounce by signals, cancels and a release of its handle and by
  -- turns of its queue and timers in any order, with fewer than 2 ^ 64 - 1 signals, and let the
  -- handle be there. Then a last signal or cancel of the handle, after which the handle is freed or
  -- not, ends without undefined behaviour, and however the queue and the timers take their turns from
  -- there, they come to a state with no block and no timer left; by then the callback has been
  -- dispatched as often as before and by the blocks that were on the queue, and once more if the last
  -- use was a signal.
  pub last_use-Settles :
      (u : Use) (frees : Bool)
      → s.works.handles work ≢ none
      → Ends
          (λ ws'.
            Settles work (λ t. t.dispatched ≡ answered u + before_use) (record s { works = ws' }))
          (last_use u frees (some work) s.works)
  last_use-Settles u frees there = elim (Reaches-Sound ws n s (omega arith) reached).handle [
    | inr gone ↦ absurd (there gone)
    | inl made ↦ Ends-bind (use_all-Given true work (u ∷ []) s.works made) λ ws' g.
        Ends-if frees
          (λ _.
            Ends-weaken (free-Freed work ws' (g.handles work ∙ made))
              λ ws'' (same, gone). settle u ws'' (same ∙ g.given))
          λ _. ends (settle u ws' g.given)
  ]
    where
      settle :
          (u : Use) (ws' : Works)
          → ws'.tasks work ≡ s.works.tasks work ++ expected true (u ∷ [])
          → Settles work (λ t. t.dispatched ≡ answered u + before_use) (record s { works = ws' })
      settle u ws' e =
          let s' : Running = record s { works = ws' } in
          total-Settles work (turns work s') (answered u + before_use) s' refl (owed_use u ws' e)
