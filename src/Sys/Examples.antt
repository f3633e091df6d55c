-- ===== src/Sys/Examples.antt =====
-- A system whose state says whether the next `open` is interrupted, which descriptors are open and what is
-- mapped; and the theorems at it.
use noctisplanet_foundation.Prelude.{
  ℕ, ◌≡◌, refl, inl, inr, Bool, true, false, List, [], ◌∷◌, ap, arith, Ends, ok,
}
use noctisplanet_foundation.Diagnostics.{Diagnostics, new_diagnostics}
use noctisplanet_foundation.Sys.{
  eintr, other_errno, pos, Result, value, failed, regular, System, retry, realpath,
}
use noctisplanet_foundation.Sys.Mapping.{mmap_read_write, with_mmap_read_only}
use noctisplanet_foundation.Sys.Retry.{
  Settles, retry-Answers, interrupted, at_last, by_eintr, given,
}
use noctisplanet_foundation.Sys.Ledger.{Adds, Ledger, Patient}
use noctisplanet_foundation.Sys.Descriptors.{realpath-Same}
use noctisplanet_foundation.Sys.Mappings.{MapResult}
use noctisplanet_foundation.Sys.Mappings.ReadWrite.{
  Extent, Unmapped, mmap_read_write-MapResult, with_mmap_read_only-Unmapped,
}

abbrev State : Type 0
State = Bool × List ℕ × List (ℕ × ℕ)

abbrev opened : State → List ℕ
opened (interrupt, n, m) = n

abbrev mapped : State → List (ℕ × ℕ)
mapped (interrupt, n, m) = m

abbrev rest : {A : Type 0} → List A → List A
rest [] = []
rest (x ∷ l) = l

abbrev open_at : State → Result ℕ × State
open_at (false, n, m) = (value 3, (false, 3 ∷ n, m))
open_at (true, n, m) = (failed eintr, (false, n, m))

abbrev system : System State
system = record {
  open_call = λ path flag other w. open_at w;
  close = λ fd (i, n, m). (failed eintr, (i, rest n, m));
  stat = λ path w. (value (record { file_type = regular; size = pos 5 }), w);
  truncate = λ path size w. (value tt, w);
  ftruncate = λ fd size w. (value tt, w);
  get_path = λ fd w. (failed (other_errno 9), w);
  fstatat = λ fd path flag w. (failed (other_errno 2), w);
  map = λ fd size protection (i, n, m). (value 4096, (i, n, (4096, size) ∷ m));
  unmap = λ address size (i, n, m). (value tt, (i, n, rest m));
  text = λ e. [];
  map_text = λ size e. [];
}

open_at-Adds : (w : State) → Adds (λ fd. fd) (opened w) (open_at w).0 (opened (open_at w).1)
open_at-Adds (false, n, m) = refl
open_at-Adds (true, n, m) = refl

mapped-open_at : (w : State) → mapped (open_at w).1 ≡ mapped w
mapped-open_at (false, n, m) = refl
mapped-open_at (true, n, m) = refl

open_at-Settles : (w : State) → Settles 2 open_at w
open_at-Settles (false, n, m) = inl refl
open_at-Settles (true, n, m) = inr (inl refl)

system-Ledger : Ledger system opened mapped
system-Ledger = record {
  opens = λ path flag other w. (open_at-Adds w, mapped-open_at w);
  closes = λ fd others w h. (ap rest h, refl);
  finds = λ fd w. (refl, refl);
  stats = λ path w. (refl, refl);
  extends = λ fd size w. (refl, refl);
  maps = λ fd size protection w. (refl, refl);
  unmaps = λ address size others w h. (refl, ap rest h);
}

system-Patient : Patient system 2
system-Patient = record {
  opening = λ path flag other w. open_at-Settles w;
  stating = λ path w. inl refl;
  extending = λ fd size w. inl refl;
}

abbrev quiet : Diagnostics
quiet = new_diagnostics false []

retry-Answers_example : retry 3 open_at (true, [], []) ≡ ok (value 3, (false, 3 ∷ [], []))
retry-Answers_example =
    retry-Answers open_at 1 3 (true, [], []) (value 3) (false, 3 ∷ [], []) (omega arith)
      (interrupted refl by_eintr (at_last refl given))

realpath-Same_example :
    Ends
      (λ (output, d', w'). (opened w' ≡ []) × (mapped w' ≡ []))
      (realpath system 2 (47 ∷ []) quiet (true, [], []))
realpath-Same_example =
    realpath-Same system opened mapped system-Ledger 2 system-Patient (47 ∷ []) quiet (true, [], [])

mmap_read_write-MapResult_example :
    Ends
      (MapResult opened mapped ⊥
        (Extent system opened mapped system-Ledger 2 system-Patient (47 ∷ []))
        true
        (true, [], []))
      (mmap_read_write system 2 514 (47 ∷ []) true true quiet (true, [], []))
mmap_read_write-MapResult_example =
    mmap_read_write-MapResult system opened mapped system-Ledger 2 system-Patient 514 (47 ∷ []) true
      true quiet (true, [], [])

-- A handler that changes nothing.
abbrev looks_on : ℕ → ℕ → List ℕ → State → State
looks_on address size path w = w

looks_on-neutral :
    (address size : ℕ) (path : List ℕ) (w : State)
    → (opened (looks_on address size path w) ≡ opened w)
      × (mapped (looks_on address size path w) ≡ mapped w)
looks_on-neutral address size path w = (refl, refl)

with_mmap_read_only-Unmapped_example :
    Ends
      (Unmapped system opened mapped system-Ledger 2 system-Patient
        (47 ∷ [])
        looks_on
        looks_on-neutral
        (true, [], []))
      (with_mmap_read_only system 2 (47 ∷ []) looks_on quiet (true, [], []))
with_mmap_read_only-Unmapped_example =
    with_mmap_read_only-Unmapped system opened mapped system-Ledger 2 system-Patient (47 ∷ [])
      looks_on looks_on-neutral quiet (true, [], [])
