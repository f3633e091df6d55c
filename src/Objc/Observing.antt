-- ===== src/Objc/Observing.antt =====
-- Sources/NPFoundation/objc/NSValueObserving.m: handlers that run when an object is deallocated. The
-- associated object of an observable is kept here by the observable's number; the runtime releases it, and
-- so runs its `dealloc`, when it deallocates the observable. `run` is what calling a handler does.
pub mod Deallocation
use noctisplanet_foundation.Prelude.{
  ℕ, List, [], ◌∷◌, ◌++◌, Option, none, some, ◌==◌, if◌then◌else◌,
}

-- `NPNSValueObserving`
pub record Observing {ℓ} (H : Type ℓ) : Type ℓ where
  pub handlers : List H

-- The associated objects, and the rest of the program.
pub record World {ℓ} (H : Type ℓ) (W : Type 0) : Type ℓ where
  pub associated : ℕ → Option (Observing H)
  pub rest : W

module _ {ℓ} {H : Type ℓ} where
  -- `init`
  abbrev pub new_observing : Observing H
  new_observing = record { handlers = [] }

  -- `addObserverHandler:`
  abbrev pub add_observer_handler : H → Observing H → Observing H
  add_observer_handler handler o = record { handlers = o.handlers ++ handler ∷ [] }

  -- The associated object, made if there is none.
  abbrev pub observing_or_new : Option (Observing H) → Observing H
  observing_or_new none = new_observing
  observing_or_new (some o) = o

  abbrev pub associate :
      ℕ → Option (Observing H) → (ℕ → Option (Observing H)) → ℕ → Option (Observing H)
  associate observable o associated p = if observable == p then o else associated p

  module _ {W : Type 0} (run : H → W → W) where
    -- `for (dispatch_block_t handler in _handlers) handler();`
    unfoldable pub run_handlers : List H → W → W
    run_handlers [] w = w
    run_handlers (handler ∷ handlers) w = run_handlers handlers (run handler w)

    unfoldable pub dealloc : Observing H → W → W
    unfolding run_handlers
    dealloc o w = run_handlers o.handlers w

    -- `@synchronized` makes the body one step.
    unfoldable pub attach_deallocation_handler : Option ℕ → H → World H W → World H W
    attach_deallocation_handler none handler w = record w { rest = run handler w.rest }
    attach_deallocation_handler (some observable) handler w =
        let observing = observing_or_new (w.associated observable) in
        record w {
          associated =
              associate observable (some (add_observer_handler handler observing)) w.associated;
        }

    -- The runtime deallocates an observable: its associated object goes with it.
    unfoldable pub deallocate : ℕ → World H W → World H W
    unfolding dealloc
    deallocate observable w = record {
      associated = associate observable none w.associated;
      rest = elim (w.associated observable) [ none ↦ w.rest | some o ↦ dealloc o w.rest ];
    }
