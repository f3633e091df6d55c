-- ===== src/Objc/Examples.antt =====
-- The helpers over the runtime, run and proved of at a class with one method and its superclass.
use noctisplanet_foundation.Prelude.{
  ◌++◌, ℕ, List, ◌+◌, ◌≡◌, refl, [], ◌∷◌, none, some, ◌==◌, if◌then◌else◌,
}
use noctisplanet_foundation.Objc.Runtime.{class_get_own_method, replace_method, override_method}
use noctisplanet_foundation.Objc.Runtime.Lookup.{OwnResult, class_get_own_method-OwnResult}
use noctisplanet_foundation.Objc.Runtime.Methods.{ReplaceResult, replace_method-ReplaceResult}
use noctisplanet_foundation.Objc.Runtime.Adding.{OverrideResult, override_method-OverrideResult}
use noctisplanet_foundation.Objc.Observing.{run_handlers}
use noctisplanet_foundation.Objc.Observing.Deallocation.{
  Event, attach, deallocated, have_run, happen_all, happen_all-have_run,
}
use noctisplanet_foundation.Objc.Sample.{State, runtime, table}
use noctisplanet_foundation.Objc.Sample.Lawful.{runtime-Documented}

-- The class 0 has the method 10 for the selector 5, the class 1 the method 11 for the selector 6.
abbrev start : State
start = record {
  own = λ c. if c == 0 then 10 ∷ [] else if c == 1 then 11 ∷ [] else [];
  name = λ m. if m == 10 then 5 else 6;
  types = λ m. some (118 ∷ []);
  imp = λ m. m + 100;
  blocks = λ i. none;
  next = 200;
  copies = [];
}

replaced_run : (replace_method runtime (some 1) (some 6) none 7 start).0 ≡ some 111
unfolding replace_method class_get_own_method
replaced_run = refl

not_replaced_run : (replace_method runtime (some 1) (some 5) none 7 start).0 ≡ none
unfolding replace_method class_get_own_method
not_replaced_run = refl

class_get_own_method-OwnResult_example :
    OwnResult runtime table 1 6 start (class_get_own_method runtime (some 1) 6 start)
class_get_own_method-OwnResult_example =
    class_get_own_method-OwnResult runtime table runtime-Documented 1 6 start

replace_method-ReplaceResult_example :
    ReplaceResult runtime table 1 6 7 start (replace_method runtime (some 1) (some 6) none 7 start)
replace_method-ReplaceResult_example =
    replace_method-ReplaceResult runtime table runtime-Documented 1 6 none 7 start

override_method-OverrideResult_example :
    OverrideResult runtime table runtime-Documented 1 5 7 none start
      (override_method runtime (some 1) (some 5) none 7 start)
override_method-OverrideResult_example =
    override_method-OverrideResult runtime table runtime-Documented 1 5 none 7 start

-- Two handlers of the object 1, one of no object; a handler is logged when it runs.
abbrev log : ℕ → List ℕ → List ℕ
log handler handlers = handlers ++ handler ∷ []

abbrev events : List (Event ℕ)
events = deallocated 1 ∷ attach (some 1) 8 ∷ attach none 9 ∷ attach (some 1) 7 ∷ []

log_result : have_run events ≡ 9 ∷ 7 ∷ 8 ∷ []
log_result = refl

happen_all-have_run_example :
    (happen_all log events (record { associated = λ p. none; rest = [] })).rest
    ≡ run_handlers log (9 ∷ 7 ∷ 8 ∷ []) []
happen_all-have_run_example = happen_all-have_run log (λ p. none) (λ p. refl) [] events
