-- ===== src/Diagnostics.antt =====
-- Sources/NPFoundation/Diagnostics.cpp: messages written to a stream, the errors kept. A text is its
-- characters. `vsnprintf` is not modelled: a report is given the text it formats to, or `none` where it
-- fails. An operation returns the lines that it writes.
pub mod Kept
mod Examples
use noctisplanet_foundation.Prelude.{
  ℕ, Bool, true, false, not, List, [], ◌∷◌, ◌++◌, Option, none, some, if◌then◌else◌,
}

pub data Behavior : Type 0 where
  debug : Behavior
  info : Behavior
  warning : Behavior
  error : Behavior

pub record Message : Type 0 where
  pub behavior : Behavior
  pub text : List ℕ

-- A null stream prints nothing.
pub record Diagnostics : Type 0 where
  pub has_stream : Bool
  pub prefix : List ℕ
  pub errors : List Message

abbrev pub new_diagnostics : Bool → List ℕ → Diagnostics
new_diagnostics has_stream prefix = record { has_stream = has_stream; prefix = prefix; errors = [] }

abbrev pub is_empty_text : List ℕ → Bool
is_empty_text [] = true
is_empty_text (_ ∷ _) = false

abbrev pub is_error : Behavior → Bool
is_error error = true
is_error _ = false

-- "[%s] %s", or the text alone.
abbrev pub line : List ℕ → List ℕ → List ℕ
line prefix text = if not (is_empty_text prefix) then 91 ∷ (prefix ++ 93 ∷ 32 ∷ text) else text

-- `append(const Message &)`
unfoldable pub append_message : Message → Diagnostics → List (List ℕ) × Diagnostics
append_message message d = (
  if d.has_stream then line d.prefix message.text ∷ [] else [],
  if is_error message.behavior then record d { errors = d.errors ++ message ∷ [] } else d,
)

-- `append(Behavior, const char *, va_list)`, which `debug`, `info`, `warning` and `error` call.
unfoldable pub append : Behavior → Option (List ℕ) → Diagnostics → List (List ℕ) × Diagnostics
unfolding append_message
append behavior none d = ([], d)
append behavior (some text) d =
    if is_empty_text text
    then ([], d)
    else append_message (record { behavior = behavior; text = text }) d

unfoldable pub has_error : Diagnostics → Bool
has_error d = elim d.errors [ [] ↦ false | _ ∷ _ ↦ true ]

unfoldable pub no_error : Diagnostics → Bool
no_error d = elim d.errors [ [] ↦ true | _ ∷ _ ↦ false ]

unfoldable pub clear_error : Diagnostics → Diagnostics
clear_error d = record d { errors = [] }

-- "assertNoError: %s" after the prefix, for each error.
abbrev pub error_lines : List ℕ → List ℕ → List Message → List (List ℕ)
error_lines prefix heading [] = []
error_lines prefix heading (e ∷ es) =
    line prefix (heading ++ e.text) ∷ error_lines prefix heading es

-- `none` if it returns, the lines it writes if it aborts; `heading` is the text "assertNoError: ".
unfoldable pub assert_no_error : List ℕ → Diagnostics → Option (List (List ℕ))
unfolding no_error
assert_no_error heading d =
    if no_error d then none else some (error_lines d.prefix heading d.errors)

-- A report or a call of `clearError`.
pub data Use : Type 0 where
  report : Behavior → Option (List ℕ) → Use
  clear : Use

unfoldable pub run_all : List Use → Diagnostics → List (List ℕ) × Diagnostics
unfolding append clear_error
run_all [] d = ([], d)
run_all (report behavior text ∷ us) d =
    let (now, d') = append behavior text d in
    let (later, d'') = run_all us d' in (now ++ later, d'')
run_all (clear ∷ us) d = run_all us (clear_error d)
