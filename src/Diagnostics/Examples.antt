-- ===== src/Diagnostics/Examples.antt =====
-- A run of the diagnostics, and the theorem about it.
use noctisplanet_foundation.Prelude.{
  ◌≡◌, refl, true, false, List, [], ◌∷◌, none, some, if◌then◌else◌,
}
use noctisplanet_foundation.Diagnostics.{
  debug, error, new_diagnostics, Use, report, clear, run_all, has_error, error_lines,
  assert_no_error, append, Diagnostics,
}
use noctisplanet_foundation.Diagnostics.Kept.{kept, run_all-kept}

abbrev uses : List Use
uses =
    report error (some (1 ∷ []))
    ∷ clear
    ∷ report debug (some (2 ∷ []))
    ∷ report error (some (3 ∷ []))
    ∷ []

abbrev fresh : Diagnostics
fresh = new_diagnostics true (7 ∷ [])

lines_result :
    (run_all uses fresh).0
    ≡ (91 ∷ 7 ∷ 93 ∷ 32 ∷ 1 ∷ []) ∷ (91 ∷ 7 ∷ 93 ∷ 32 ∷ 2 ∷ []) ∷ (91 ∷ 7 ∷ 93 ∷ 32 ∷ 3 ∷ []) ∷ []
unfolding run_all append
lines_result = refl

-- An error whose text is empty is not kept.
empty_result : has_error (run_all (report error (some []) ∷ []) fresh).1 ≡ false
unfolding run_all append has_error
empty_result = refl

run_all-kept_example :
    ((run_all uses fresh).1.errors ≡ kept uses [])
    × (assert_no_error (9 ∷ []) (run_all uses fresh).1 ≡ (
        if has_error (run_all uses fresh).1
        then some (error_lines (7 ∷ []) (9 ∷ []) (kept uses []))
        else none))
run_all-kept_example = run_all-kept uses fresh (9 ∷ [])
