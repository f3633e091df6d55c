-- ===== src/Sys/Ledger.antt =====
-- The system calls as changes to the open descriptors and to the mappings, and how often they are interrupted.
use noctisplanet_foundation.Prelude.{ℕ, ◌≡◌, refl, true, List, [], ◌∷◌, some, Bool}
use noctisplanet_foundation.Diagnostics.{Diagnostics, Message, append, error, has_error}
use noctisplanet_foundation.Sys.{Result, value, failed, Protection, System}
use noctisplanet_foundation.Sys.Retry.{Settles}

-- What a call that may add one does to a list: `entry` is what stands there for the result.
abbrev pub Adds : {A : Type 0} → (ℕ → A) → List A → Result ℕ → List A → Type 0
Adds entry l (value n) l' = l' ≡ entry n ∷ l
Adds entry l (failed e) l' = l' ≡ l

-- What a call that may take the first one away does to a list; `rest` is the list without it.
abbrev pub Takes : {A : Type 0} → List A → List A → Result (Unit {0}) → List A → Type 0
Takes rest l (value _) l' = l' ≡ rest
Takes rest l (failed e) l' = l' ≡ l

-- `opened` is the list of the open descriptors and `mapped` the list of the mappings, each with its address
-- and size, both with the latest one first. A call of open that succeeds adds the descriptor it returns, and
-- a call of close for the latest one takes it away, also when it is interrupted; a call of mmap that
-- succeeds adds a mapping, and a call of munmap for the latest one takes it away if it succeeds; the rest
-- changes neither.
pub record Ledger {W : Type 0} (sys : System W) (opened : W → List ℕ) (mapped : W → List (ℕ × ℕ))
    : Type 0 where
  pub opens :
      (path : List ℕ) (flag other : ℕ) (w : W)
      → let (r, w') = sys.open_call path flag other w in
        Adds (λ fd. fd) (opened w) r (opened w') × (mapped w' ≡ mapped w)
  pub closes :
      (fd : ℕ) (rest : List ℕ) (w : W)
      → opened w ≡ fd ∷ rest
      → let (r, w') = sys.close fd w in (opened w' ≡ rest) × (mapped w' ≡ mapped w)
  pub finds :
      (fd : ℕ) (w : W)
      → let (r, w') = sys.get_path fd w in (opened w' ≡ opened w) × (mapped w' ≡ mapped w)
  pub stats :
      (path : List ℕ) (w : W)
      → let (r, w') = sys.stat path w in (opened w' ≡ opened w) × (mapped w' ≡ mapped w)
  pub extends :
      (fd size : ℕ) (w : W)
      → let (r, w') = sys.ftruncate fd size w in (opened w' ≡ opened w) × (mapped w' ≡ mapped w)
  pub maps :
      (fd size : ℕ) (protection : Protection) (w : W)
      → let (r, w') = sys.map fd size protection w in
        (opened w' ≡ opened w) × Adds (λ address. (address, size)) (mapped w) r (mapped w')
  pub unmaps :
      (address size : ℕ) (rest : List (ℕ × ℕ)) (w : W)
      → mapped w ≡ (address, size) ∷ rest
      → let (r, w') = sys.unmap address size w in
        (opened w' ≡ opened w) × Takes rest (mapped w) r (mapped w')

-- In no state is a call interrupted `fuel` times in a row.
pub record Patient {W : Type 0} (sys : System W) (fuel : ℕ) : Type 0 where
  pub opening :
      (path : List ℕ) (flag other : ℕ) (w : W) → Settles fuel (sys.open_call path flag other) w
  pub stating : (path : List ℕ) (w : W) → Settles fuel (sys.stat path) w
  pub extending : (fd size : ℕ) (w : W) → Settles fuel (sys.ftruncate fd size) w

-- An error that is reported with a text is kept.
pub has_error-append :
    (c : ℕ) (text : List ℕ) (d : Diagnostics)
    → has_error (append error (some (c ∷ text)) d).1 ≡ true
unfolding has_error append
has_error-append c text d = among d.has_stream d.prefix d.errors
  where
    among :
        (has_stream : Bool) (prefix : List ℕ) (errors : List Message)
        → has_error
            (append error
              (some (c ∷ text))
              (record { has_stream = has_stream; prefix = prefix; errors = errors })).1
          ≡ true
    among has_stream prefix [] = refl
    among has_stream prefix (e ∷ es) = refl
