-- ===== src/Dispatch/Schedule/Running/Sound.antt =====
-- What is so of every state that a debounce reaches: its generation counts the signals that its queue has run,
-- no timer is of a later generation, and its handle is there until it is freed.
use noctisplanet_foundation.Prelude.{
  ℕ, suc, ◌+◌, ◌^◌, ◌<◌, ◌≡◌, refl, sym, ap, ◌∙◌, ◌⊎◌, inl, inr, true, List, [], ◌∷◌, ◌++◌, none,
  some, arith, ok, Ends, ends, Ends-at,
}
use noctisplanet_foundation.Dispatch.Schedule.{Event, signal, cancel, expire}
use noctisplanet_foundation.Dispatch.Schedule.Latest.{signals}
use noctisplanet_foundation.Dispatch.Schedule.Handle.{
  Works, schedule_work_signal, schedule_work_cancel, schedule_work_free, schedule_debounce,
}
use noctisplanet_foundation.Dispatch.Schedule.Handle.Uses.{
  work_of, Given, signal-Given, cancel-Given, put_self,
}
use noctisplanet_foundation.Dispatch.Schedule.Running.{
  Running, Turn, ran, expired, made, Reaches, here, signalled, cancelled, freed, turned,
}
use noctisplanet_foundation.Dispatch.Schedule.Running.Owed.{UpTo, UpTo-remove, step-generation}

pub record Sound (work n : ℕ) (s : Running) : Type 0 where
  pub counted : s.debounce.generation + signals (s.works.tasks work) ≡ n
  pub later : UpTo s.debounce.generation s.timers
  pub handle : (s.works.handles work ≡ some (work_of true)) ⊎ (s.works.handles work ≡ none)

signals-append : (xs ys : List Event) → signals (xs ++ ys) ≡ signals xs + signals ys
signals-append [] ys = omega arith
signals-append (signal ∷ xs) ys = omega (arith, signals-append xs ys)
signals-append (cancel ∷ xs) ys = signals-append xs ys
signals-append (expire c ∷ xs) ys = signals-append xs ys

-- A handle that is there can be freed, and its queue is left as it is.
pub free-Freed :
    (work : ℕ) (ws : Works)
    → ws.handles work ≡ some (work_of true)
    → Ends
        (λ ws'. (ws'.tasks work ≡ ws.tasks work) × (ws'.handles work ≡ none))
        (schedule_work_free (some work) ws)
unfolding schedule_work_free
free-Freed work ws there = rw there (ends (refl, put_self ws.handles work none))

module _ (work n : ℕ) (s : Running) (a : Sound work n s) where
  -- A call of the handle that gives its queue some tasks.
  Given-Sound :
      (tasks : List Event) (m : ℕ) (ws' : Works)
      → n + signals tasks ≡ m
      → Given s.works work tasks ws'
      → Sound work m (record s { works = ws' })
  Given-Sound tasks m ws' e g = record {
    counted = rw g.given (omega (arith, a.counted, e, signals-append (s.works.tasks work) tasks));
    later = a.later;
    handle = rw (g.handles work) a.handle;
  }

  Turn-Sound : (t : Running) → n < 2 ^ 64 → Turn work s t → Sound work n t
  Turn-Sound t few (ran task tasks e) =
      let counted =
        ap (λ (ts : List Event). s.debounce.generation + signals ts) (sym e) ∙ a.counted in
      let (c, l) = step-generation task tasks s.debounce s.timers n counted few a.later in
      record { counted = rw (put_self s.works.tasks work tasks) c; later = l; handle = a.handle }
  Turn-Sound t few (expired before current after e) =
      let tasks = s.works.tasks work ++ expire current ∷ [] in
      let same = signals-append (s.works.tasks work) (expire current ∷ []) in
      record {
        counted = rw (put_self s.works.tasks work tasks) (omega (arith, a.counted, same));
        later = UpTo-remove s.debounce.generation before current after (rw⁻¹ e a.later);
        handle = a.handle;
      }

  signalled-Sound :
      (ws' : Works)
      → schedule_work_signal (some work) s.works ≡ ok ws'
      → Sound work (suc n) (record s { works = ws' })
  unfolding schedule_work_signal
  signalled-Sound ws' e = elim a.handle [
    | inl there ↦
        Given-Sound (signal ∷ []) (suc n) ws' (omega arith)
          (Ends-at (signal-Given true work s.works there) e)
    | inr gone ↦ absurd cc
  ]

  cancelled-Sound :
      (ws' : Works)
      → schedule_work_cancel (some work) s.works ≡ ok ws'
      → Sound work n (record s { works = ws' })
  unfolding schedule_work_cancel
  cancelled-Sound ws' e = elim a.handle [
    | inl there ↦
        Given-Sound (cancel ∷ []) n ws' (omega arith)
          (Ends-at (cancel-Given true work s.works there) e)
    | inr gone ↦ absurd cc
  ]

  freed-Sound :
      (ws' : Works)
      → schedule_work_free (some work) s.works ≡ ok ws'
      → Sound work n (record s { works = ws' })
  unfolding schedule_work_free
  freed-Sound ws' e = elim a.handle [
    | inl there ↦
        let (same, gone) = Ends-at (free-Freed work s.works there) e in
        record { counted = rw same a.counted; later = a.later; handle = inr gone }
    | inr gone ↦ absurd cc
  ]

made-Sound : (ws : Works) → Sound ws.next 0 (made ws)
unfolding schedule_debounce
made-Sound ws = record {
  counted = rw (put_self ws.tasks ws.next []) refl;
  later = tt;
  handle = inl (put_self ws.handles ws.next (some (work_of true)));
}

pub Reaches-Sound :
    (ws : Works) (n : ℕ) (s : Running) → n < 2 ^ 64 → Reaches ws n s → Sound ws.next n s
Reaches-Sound ws n s few here = made-Sound ws
Reaches-Sound ws n s few (signalled {n = m} {s = t} r e) =
    signalled-Sound ws.next m t (Reaches-Sound ws m t (omega arith) r) s.works e
Reaches-Sound ws n s few (cancelled {s = t} r e) =
    cancelled-Sound ws.next n t (Reaches-Sound ws n t few r) s.works e
Reaches-Sound ws n s few (freed {s = t} r e) =
    freed-Sound ws.next n t (Reaches-Sound ws n t few r) s.works e
Reaches-Sound ws n s few (turned {s = t} r turn) =
    Turn-Sound ws.next n t (Reaches-Sound ws n t few r) s few turn
