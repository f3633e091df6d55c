-- ===== src/Objc/Observing/Deallocation.antt =====
-- When an object is deallocated, the handlers attached to it since it was there run, once and in order.
use noctisplanet_foundation.Prelude.{
  ℕ, ◌≡◌, refl, sym, ap, ◌∙◌, inl, inr, Bool-cases, arith, List, [], ◌∷◌, ◌++◌, Option, none, some,
  ◌==◌, if◌then◌else◌,
}
use noctisplanet_foundation.Objc.Observing.{
  Observing, World, observing_or_new, run_handlers, dealloc, attach_deallocation_handler,
  deallocate,
}

pub data Event {ℓ} (H : Type ℓ) : Type ℓ where
  attach : Option ℕ → H → Event H
  deallocated : ℕ → Event H

module _ {ℓ} {H : Type ℓ} where
  -- Of the events, the latest first, the handlers attached to the object since it was last deallocated.
  abbrev pub pending : ℕ → List (Event H) → List H
  pending p [] = []
  pending p (attach none handler ∷ events) = pending p events
  pending p (attach (some q) handler ∷ events) =
      let earlier = pending p events in if q == p then earlier ++ handler ∷ [] else earlier
  pending p (deallocated q ∷ events) =
      let earlier = pending p events in if q == p then [] else earlier

  -- The handlers that run at an event, after those before it.
  abbrev pub due : Event H → List (Event H) → List H
  due (attach none handler) events = handler ∷ []
  due (attach (some q) handler) events = []
  due (deallocated q) events = pending q events

  -- All the handlers that have run, in order.
  abbrev pub have_run : List (Event H) → List H
  have_run [] = []
  have_run (e ∷ events) = have_run events ++ due e events

  module _ {W : Type 0} (run : H → W → W) where
    abbrev pub happen : Event H → World H W → World H W
    happen (attach observable handler) w = attach_deallocation_handler run observable handler w
    happen (deallocated p) w = deallocate run p w

    abbrev pub happen_all : List (Event H) → World H W → World H W
    happen_all [] w = w
    happen_all (e ∷ events) w = happen e (happen_all events w)

    handlers_of : Option (Observing H) → List H
    handlers_of none = []
    handlers_of (some o) = o.handlers

    observing_handlers : (o : Option (Observing H)) → (observing_or_new o).handlers ≡ handlers_of o
    unfolding handlers_of
    observing_handlers none = refl
    observing_handlers (some o) = refl

    run_handlers-append :
        (xs ys : List H) (w : W)
        → run_handlers run (xs ++ ys) w ≡ run_handlers run ys (run_handlers run xs w)
    unfolding run_handlers
    run_handlers-append [] ys w = refl
    run_handlers-append (x ∷ xs) ys w = run_handlers-append xs ys (run x w)

    module _ (associated : ℕ → Option (Observing H)) (none_yet : (p : ℕ) → associated p ≡ none)
        (start : W) where
      abbrev begin : World H W
      begin = record { associated = associated; rest = start }

      associated-pending :
          (events : List (Event H)) (p : ℕ)
          → handlers_of ((happen_all events begin).associated p) ≡ pending p events
      unfolding handlers_of attach_deallocation_handler deallocate
      associated-pending [] p = rw (none_yet p)
      associated-pending (attach none handler ∷ events) p = associated-pending events p
      associated-pending (attach (some q) handler ∷ events) p = elim (Bool-cases (q == p)) [
        | inl here ↦
            let same : q ≡ p = ground arith in
            let earlier =
              observing_handlers ((happen_all events begin).associated q)
              ∙ associated-pending events q in
            rw here
              (ap (λ (hs : List H). hs ++ handler ∷ []) (earlier ∙ ap (λ i. pending i events) same))
        | inr other ↦ rw other (associated-pending events p)
      ]
      associated-pending (deallocated q ∷ events) p = elim (Bool-cases (q == p)) [
        | inl here ↦ rw here
        | inr other ↦ rw other (associated-pending events p)
      ]

      dealloc_lem :
          (o : Option (Observing H)) (w : W)
          → (elim o [ none ↦ w | some x ↦ dealloc run x w ]) ≡ run_handlers run (handlers_of o) w
      unfolding dealloc handlers_of run_handlers
      dealloc_lem none w = refl
      dealloc_lem (some o) w = refl

      -- From a state without associated objects, after any attachments of handlers and deallocations
      -- of objects the state of the program is the one that running these handlers one after the
      -- other gives: for each event in turn, a handler of a null object at once, and at the
      -- deallocation of an object the handlers attached to it since it was last deallocated, in the
      -- order in which they were attached.
      pub happen_all-have_run :
          (events : List (Event H))
          → (happen_all events begin).rest ≡ run_handlers run (have_run events) start
      unfolding attach_deallocation_handler deallocate run_handlers
      happen_all-have_run [] = refl
      happen_all-have_run (e ∷ events) =
          last e
          ∙ (ap (run_handlers run (due e events)) (happen_all-have_run events)
              ∙ sym (run_handlers-append (have_run events) (due e events) start))
        where
          last :
              (e : Event H)
              → (happen e (happen_all events begin)).rest
                ≡ run_handlers run (due e events) (happen_all events begin).rest
          last (attach none handler) = refl
          last (attach (some q) handler) = refl
          last (deallocated q) =
              dealloc_lem ((happen_all events begin).associated q) (happen_all events begin).rest
              ∙ ap (λ (hs : List H). run_handlers run hs (happen_all events begin).rest)
                  (associated-pending events q)
