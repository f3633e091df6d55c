-- ===== src/Diagnostics/Kept.antt =====
-- The errors that a `Diagnostics` keeps are those reported since it was last cleared.
use noctisplanet_foundation.Prelude.{
  ℕ, ◌≡◌, refl, ap, ◌∙◌, List, [], ◌∷◌, ◌++◌, none, some, arith, if◌then◌else◌,
}
use noctisplanet_foundation.Diagnostics.{
  debug, info, warning, error, Message, Diagnostics, append, has_error, clear_error, error_lines,
  assert_no_error, Use, report, clear, run_all,
}

-- The texts of the errors reported and not cleared, `old` before them.
abbrev pub kept : List Use → List Message → List Message
kept [] old = old
kept (clear ∷ us) old = kept us []
kept (report error (some (c ∷ text)) ∷ us) old =
    kept us (old ++ record { behavior = error; text = c ∷ text } ∷ [])
kept (_ ∷ us) old = kept us old

errors_kept :
    (us : List Use) (d : Diagnostics)
    → ((run_all us d).1.errors ≡ kept us d.errors) × ((run_all us d).1.prefix ≡ d.prefix)
unfolding run_all
errors_kept [] d = (refl, refl)
errors_kept (clear ∷ us) d = errors_kept us (clear_error d)
errors_kept (report debug none ∷ us) d = errors_kept us d
errors_kept (report debug (some []) ∷ us) d = errors_kept us d
errors_kept (report debug (some (c ∷ text)) ∷ us) d =
    errors_kept us (append debug (some (c ∷ text)) d).1
errors_kept (report info none ∷ us) d = errors_kept us d
errors_kept (report info (some []) ∷ us) d = errors_kept us d
errors_kept (report info (some (c ∷ text)) ∷ us) d =
    errors_kept us (append info (some (c ∷ text)) d).1
errors_kept (report warning none ∷ us) d = errors_kept us d
errors_kept (report warning (some []) ∷ us) d = errors_kept us d
errors_kept (report warning (some (c ∷ text)) ∷ us) d =
    errors_kept us (append warning (some (c ∷ text)) d).1
errors_kept (report error none ∷ us) d = errors_kept us d
errors_kept (report error (some []) ∷ us) d = errors_kept us d
errors_kept (report error (some (c ∷ text)) ∷ us) d =
    errors_kept us (append error (some (c ∷ text)) d).1

-- Whether there are errors, as the two tests see it.
assert_lem :
    (heading : List ℕ) (d : Diagnostics)
    → assert_no_error heading d
      ≡ (if has_error d then some (error_lines d.prefix heading d.errors) else none)
unfolding assert_no_error has_error
assert_lem heading d = ground arith

-- After any reports and calls of `clear_error`, the errors kept are those there were at first,
-- dropped if it was cleared, and the reported errors with a text since the last clear, in order;
-- `assert_no_error` then aborts exactly if `has_error`, after writing one line for each of them.
pub run_all-kept :
    (us : List Use) (d : Diagnostics) (heading : List ℕ)
    → ((run_all us d).1.errors ≡ kept us d.errors)
      × (assert_no_error heading (run_all us d).1 ≡ (
          if has_error (run_all us d).1
          then some (error_lines d.prefix heading (kept us d.errors))
          else none))
run_all-kept us d heading =
    let (errors, prefix) = errors_kept us d in
    (
      errors,
      assert_lem heading (run_all us d).1
          ∙ ap
              (λ (t : List ℕ × List Message).
                if has_error (run_all us d).1 then some (error_lines t.0 heading t.1) else none)
              (λ i. (prefix i, errors i)),
    )
