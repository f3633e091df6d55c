-- ===== src/Sys/Descriptors.antt =====
-- What the wrappers do to the open descriptors and the mappings: `cwd` and `realpath` close the descriptor that they open, on every path.
use noctisplanet_foundation.Prelude.{
  ℕ, ◌≡◌, ◌≢◌, refl, ◌∙◌, ◌⊎◌, inl, inr, true, List, [], ◌∷◌, Option, none, some, Ends, ends,
  Ends-bind, Ends-value, Ends-at, Bool-cases, subst,
}
use noctisplanet_foundation.Diagnostics.{Diagnostics, has_error}
use noctisplanet_foundation.Sys.{
  Result, value, failed, Stat, System, again, retry, report_error, open_failed, stat_failed,
  ftruncate_failed, fcntl_failed, open_fd, close, close_error, is_eintr, stat, ftruncate, finish,
  path_and_close, path_of, realpath, cwd,
}
use noctisplanet_foundation.Sys.Retry.{Settles, Answers, retry-Ends, retry-Answered}
use noctisplanet_foundation.Sys.Ledger.{Adds, Ledger, Patient, has_error-append}

interrupted-Adds :
    (n : List ℕ) (r : Result ℕ) (n' : List ℕ) → Adds (λ fd. fd) n r n' → again r ≡ true → n' ≡ n
interrupted-Adds n (value fd) n' o e = absurd cc
interrupted-Adds n (failed x) n' o e = o

module _ {W : Type 0} (sys : System W) (opened : W → List ℕ) (mapped : W → List (ℕ × ℕ))
    (ledger : Ledger sys opened mapped) (fuel : ℕ) (patient : Patient sys fuel) where
  abbrev pub Same : W → W → Type 0
  Same w w' = (opened w' ≡ opened w) × (mapped w' ≡ mapped w)

  abbrev pub SameAfter : W → Diagnostics × W → Type 0
  SameAfter w (d, w') = Same w w'

  abbrev pub SamePath : W → Option (List ℕ) × Diagnostics × W → Type 0
  SamePath w (output, d, w') = Same w w'

  abbrev pub Opened : W → Option ℕ → W → Type 0
  Opened w none w' = Same w w'
  Opened w (some fd) w' = (opened w' ≡ fd ∷ opened w) × (mapped w' ≡ mapped w)

  abbrev Added : W → Result ℕ × W → Type 0
  Added w (r, w') = Adds (λ fd. fd) (opened w) r (opened w') × (mapped w' ≡ mapped w)

  -- What `open` leaves: a descriptor more, or an error.
  abbrev pub OpenResult : W → Option ℕ × Diagnostics × W → Type 0
  OpenResult w (fd, d, w') = Opened w fd w' × ((fd ≢ none) ⊎ (has_error d ≡ true))

  open_result :
      (d : Diagnostics) (w : W) (r : Result ℕ) (w' : W)
      → Added w (r, w')
      → OpenResult w (elim r [
        | value fd ↦ (some fd, d, w')
        | failed e ↦ (none, report_error open_failed (sys.text e) d, w')
      ])
  open_result d w (value fd) w' o = (o, inl (λ e. cc))
  open_result d w (failed e) w' o = (o, inr (has_error-append _ _ d))

  pub open_fd-OpenResult :
      (path : List ℕ) (flag other : ℕ) (d : Diagnostics) (w : W)
      → Ends (OpenResult w) (open_fd sys fuel path flag other d w)
  unfolding open_fd
  open_fd-OpenResult path flag other d w =
      Ends-bind
        (retry-Ends (sys.open_call path flag other) (Same w) (Added w)
          (λ v s e.
            let (o, m) = ledger.opens path flag other v in
            (interrupted-Adds _ _ _ o e ∙ s.0, m ∙ s.1))
          (λ v s e.
            let (o, m) = ledger.opens path flag other v in
            (
              subst
                  (λ (n : List ℕ).
                    Adds (λ fd. fd) n (sys.open_call path flag other v).0
                      (opened (sys.open_call path flag other v).1))
                  s.0 o,
              m ∙ s.1,
            ))
          fuel w (patient.opening path flag other w) (refl, refl))
        λ (r, w') o. ends (open_result d w r w' o)

  -- What `stat` leaves: what the system has answered, or an error.
  abbrev pub StatResult : List ℕ → W → Option Stat × Diagnostics × W → Type 0
  StatResult path w (buf, d, w') =
      Same w w'
      × (((s : Stat) × (buf ≡ some s) × (n : ℕ) × Answers (sys.stat path) n w (value s) w')
          ⊎ (has_error d ≡ true))

  stat_result :
      (path : List ℕ) (d : Diagnostics) (w : W) (r : Result Stat) (w' : W)
      → Same w w'
      → (n : ℕ) × Answers (sys.stat path) n w r w'
      → StatResult path w (elim r [
        | value s ↦ (some s, d, w')
        | failed e ↦ (none, report_error stat_failed (sys.text e) d, w')
      ])
  stat_result path d w (value s) w' o answer = (o, inl (s, refl, answer.0, answer.1))
  stat_result path d w (failed e) w' o answer = (o, inr (has_error-append _ _ d))

  -- A call that changes neither list, tried again.
  retry-Same :
      {A : Type 0} (call : W → Result A × W) (w : W)
      → ((v : W) → Same v (call v).1)
      → Settles fuel call w
      → Ends (λ (r, w'). Same w w') (retry fuel call w)
  retry-Same call w keeps settles =
      let step : (v : W) → Same w v → Same w (call v).1 =
        λ v s. let (o, m) = keeps v in (o ∙ s.0, m ∙ s.1) in
      retry-Ends call (Same w) (λ (r, w'). Same w w') (λ v s _. step v s) (λ v s _. step v s) fuel w
        settles (refl, refl)

  pub stat-StatResult :
      (path : List ℕ) (d : Diagnostics) (w : W) → Ends (StatResult path w) (stat sys fuel path d w)
  unfolding stat
  stat-StatResult path d w =
      let kept = retry-Same (sys.stat path) w (ledger.stats path) (patient.stating path w) in
      let (res, e, answer) =
        Ends-value (retry-Answered (sys.stat path) fuel w (patient.stating path w)) in
      rw e (ends (stat_result path d w res.0 res.1 (Ends-at kept e) answer))

  pub ftruncate-Same :
      (fd size : ℕ) (d : Diagnostics) (w : W) → Ends (SameAfter w) (ftruncate sys fuel fd size d w)
  unfolding ftruncate
  ftruncate-Same fd size d w =
      Ends-bind
        (retry-Same (sys.ftruncate fd size) w (ledger.extends fd size)
          (patient.extending fd size w))
        λ (r, w') s. ends (result r w' s)
    where
      result :
          (r : Result (Unit {0})) (w' : W)
          → Same w w'
          → SameAfter w (elim r [
            | value _ ↦ (d, w')
            | failed e ↦ (report_error ftruncate_failed (sys.text e) d, w')
          ])
      result (value _) w' s = s
      result (failed e) w' s = s

  -- Closing the descriptor that was opened since `v`.
  pub close-Same :
      (v : W) (fd : ℕ) (d : Diagnostics) (w : W)
      → Opened v (some fd) w
      → Same v (close sys fuel fd d w).1
  unfolding close
  close-Same v fd d w (o, m) =
      let (less, kept) = ledger.closes fd (opened v) w o in (less, kept ∙ m)

  -- A diagnostics that has an error keeps it.
  pub has_error-close :
      (fd : ℕ) (d : Diagnostics) (w : W)
      → has_error d ≡ true
      → has_error (close sys fuel fd d w).0 ≡ true
  unfolding close
  has_error-close fd d w h = kept (sys.close fd w).0
    where
      kept : (r : Result (Unit {0})) → has_error (close_error sys fuel r d) ≡ true
      kept (value _) = h
      kept (failed e) = elim (Bool-cases (is_eintr e)) [
        | inl interrupted ↦ rw interrupted h
        | inr other ↦ rw other (has_error-append _ _ d)
      ]

  finish-Same :
      (v : W) (r : Result (List ℕ)) (fd : ℕ) (d : Diagnostics) (w : W)
      → Opened v (some fd) w
      → Same v (finish sys fuel r fd d w).2
  unfolding finish
  finish-Same v (value output) fd d w o = close-Same v fd d w o
  finish-Same v (failed x) fd d w o = close-Same v fd (report_error fcntl_failed (sys.text x) d) w o

  path_and_close-Same :
      (v : W) (fd : ℕ) (d : Diagnostics) (w : W)
      → Opened v (some fd) w
      → Same v (path_and_close sys fuel fd d w).2
  unfolding path_and_close
  path_and_close-Same v fd d w (o, m) =
      let (o', m') = ledger.finds fd w in
      finish-Same v (sys.get_path fd w).0 fd d (sys.get_path fd w).1 (o' ∙ o, m' ∙ m)

  path_of-Same :
      (input : List ℕ) (flag : ℕ) (d : Diagnostics) (w : W)
      → Ends (SamePath w) (path_of sys fuel input flag d w)
  unfolding path_of
  path_of-Same input flag d w =
      Ends-bind (open_fd-OpenResult input flag 0 d w) λ (fd, d', w') o. ends (closed fd d' w' o.0)
    where
      closed :
          (fd : Option ℕ) (d' : Diagnostics) (w' : W)
          → Opened w fd w'
          → SamePath w
              (elim fd [ none ↦ (none, d', w') | some n ↦ path_and_close sys fuel n d' w' ])
      closed none d' w' o = o
      closed (some n) d' w' o = path_and_close-Same w n d' w' o

  -- Let the system calls change the open descriptors and the mappings as `Ledger` says, and let no
  -- call be interrupted `fuel` times in a row. Then `realpath` ends, and the same descriptors are
  -- open and the same memory is mapped as before, whether or not it finds a path.
  pub realpath-Same :
      (input : List ℕ) (d : Diagnostics) (w : W) → Ends (SamePath w) (realpath sys fuel input d w)
  unfolding realpath
  realpath-Same input d w = path_of-Same input 0 d w

  pub cwd-Same :
      (directory_flag : ℕ) (d : Diagnostics) (w : W)
      → Ends (SamePath w) (cwd sys fuel directory_flag d w)
  unfolding cwd
  cwd-Same directory_flag d w = path_of-Same (46 ∷ []) directory_flag d w
