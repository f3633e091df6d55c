-- ===== src/Sys/Mappings.antt =====
-- The two functions that map a file close the descriptor that they open, on every path, and add exactly
-- the mapping that they return.
pub mod Size
pub mod ReadWrite
use noctisplanet_foundation.Prelude.{
  ℕ, ◌≡◌, ◌≢◌, refl, ap, ◌∙◌, ◌⊎◌, inl, inr, Bool, true, false, List, [], ◌∷◌, Option, none, some,
  arith, if◌then◌else◌, Run, ok, ◌>>=◌, present, Ends, ends, Ends-bind, Ends-if, subst,
}
use noctisplanet_foundation.Diagnostics.{Diagnostics, new_diagnostics, has_error}
use noctisplanet_foundation.Sys.{
  Result, value, failed, at_most_zero, to_size, Stat, Protection, read_private, System, open_fd,
  close, report_error, mmap_failed,
}
use noctisplanet_foundation.Sys.Mapping.{
  Mapped, unmapped, set_size, or_zero, resolve_realer_path, finish_map, map_fd, map_read_only,
  mmap_read_only, close_and_fail,
}
use noctisplanet_foundation.Sys.Mappings.Size.{
  at_most_zero-IsPositive, at_most_zero-NotPositive, FileSize, reported, NothingThere, WholeFile,
}
use noctisplanet_foundation.Sys.Ledger.{Adds, Ledger, Patient, has_error-append}
use noctisplanet_foundation.Sys.Descriptors.{
  Same, Opened, StatResult, open_fd-OpenResult, stat-StatResult, close-Same, has_error-close,
  realpath-Same,
}

module _ {W : Type 0} (opened : W → List ℕ) (mapped : W → List (ℕ × ℕ)) where
  -- How a function that maps a file ends, from the state `w`: with a mapping more, its address, and its size,
  -- which is a `Size`, if it is wanted; with no address and an error; or with no address, when there is
  -- `Nothing` to map. In each case the same descriptors are open as before.
  pub data MapResult (Nothing : Type 0) (Size : ℕ → Type 0) (want_size : Bool) (w : W)
      : Mapped × Diagnostics × W → Type 0 where
    one_more :
        {m : Mapped} {d : Diagnostics} {w' : W} (address size : ℕ)
        → Size size
        → m.address ≡ some address
        → m.size ≡ set_size want_size size
        → opened w' ≡ opened w
        → mapped w' ≡ (address, size) ∷ mapped w
        → MapResult Nothing Size want_size w (m, d, w')
    error :
        {m : Mapped} {d : Diagnostics} {w' : W}
        → m.address ≡ none
        → has_error d ≡ true
        → opened w' ≡ opened w
        → mapped w' ≡ mapped w
        → MapResult Nothing Size want_size w (m, d, w')
    empty_file :
        {m : Mapped} {d : Diagnostics} {w' : W}
        → Nothing
        → m.address ≡ none
        → or_zero m.size ≡ 0
        → opened w' ≡ opened w
        → mapped w' ≡ mapped w
        → MapResult Nothing Size want_size w (m, d, w')

module _ {W : Type 0} (sys : System W) (opened : W → List ℕ) (mapped : W → List (ℕ × ℕ))
    (ledger : Ledger sys opened mapped) (fuel : ℕ) (patient : Patient sys fuel) where
  abbrev Kept : W → W → Type 0
  Kept = Same sys opened mapped ledger fuel patient

  -- The descriptor `fd` has been opened since `v`.
  abbrev pub Holding : W → ℕ → W → Type 0
  Holding v fd w = (opened w ≡ fd ∷ opened v) × (mapped w ≡ mapped v)

  resolve-Kept :
      (wanted : Bool) (path : List ℕ) (w : W)
      → Ends (λ (output, w'). Kept w w') (resolve_realer_path sys fuel wanted path w)
  unfolding resolve_realer_path
  resolve-Kept wanted path w =
      Ends-if wanted
        (λ _.
          Ends-bind
            (realpath-Same sys opened mapped ledger fuel patient path (new_diagnostics false []) w)
            λ res s. ends s)
        λ _. ends (refl, refl)

  abbrev closed :
      (v : W) (fd : ℕ) (d : Diagnostics) (w : W) → Holding v fd w → Kept v (close sys fuel fd d w).1
  closed v fd d w h = close-Same sys opened mapped ledger fuel patient v fd d w h

  module _ (Nothing : Type 0) (Size : ℕ → Type 0) (path : List ℕ) (want_size want_path : Bool)
      (v : W) (fd : ℕ) where
    abbrev ResultOf : Mapped × Diagnostics × W → Type 0
    ResultOf = MapResult opened mapped Nothing Size want_size v

    finish-MapResult :
        (r : Result ℕ) (size : ℕ) (d : Diagnostics) (w : W)
        → Size size
        → opened w ≡ fd ∷ opened v
        → Adds (λ address. (address, size)) (mapped v) r (mapped w)
        → Ends ResultOf (finish_map sys fuel r path want_size want_path fd size d w)
    unfolding finish_map
    finish-MapResult (failed e) size d w sized o m =
        let d' = report_error mmap_failed (sys.map_text size e) d in
        let (kept, same) = closed v fd d' w (o, m) in
        ends (
          error refl
            (has_error-close sys opened mapped ledger fuel patient fd d' w (has_error-append _ _ d))
            kept same)
    finish-MapResult (value address) size d w sized o m =
        Ends-bind (resolve-Kept want_path path w) λ (output, w₁) s.
          let (less, kept) = ledger.closes fd (opened v) w₁ (s.0 ∙ o) in
          ends (one_more address size sized refl refl less (kept ∙ (s.1 ∙ m)))

    pub map_fd-MapResult :
        (protection : Protection) (size : ℕ) (d : Diagnostics) (w : W)
        → Size size
        → Holding v fd w
        → Ends ResultOf (map_fd sys fuel protection path want_size want_path fd size d w)
    unfolding map_fd
    map_fd-MapResult protection size d w sized (o, m) =
        let (o', m') = ledger.maps fd size protection w in
        let (r, w') = sys.map fd size protection w in
        finish-MapResult r size d w' sized (o' ∙ o)
          (subst (λ (n : List (ℕ × ℕ)). Adds (λ address. (address, size)) n r (mapped w')) m m')

    pub close_and_fail-MapResult :
        (d : Diagnostics) (w : W)
        → Holding v fd w
        → has_error d ≡ true
        → Ends ResultOf (close_and_fail sys fuel fd d w)
    unfolding close_and_fail
    close_and_fail-MapResult d w h e =
        let (kept, same) = closed v fd d w h in
        ends (error refl (has_error-close sys opened mapped ledger fuel patient fd d w e) kept same)

  pub opened_since :
      (fd : Option ℕ) (v w w' : W)
      → opened w ≡ opened v
      → mapped w ≡ mapped v
      → Opened sys opened mapped ledger fuel patient w fd w'
      → Opened sys opened mapped ledger fuel patient v fd w'
  opened_since none v w w' o m (o', m') = (o' ∙ o, m' ∙ m)
  opened_since (some fd) v w w' o m (o', m') = (o' ∙ ap (λ l. fd ∷ l) o, m' ∙ m)

  -- What `open` gave is no descriptor and an error, or a descriptor to map.
  map_read_only-MapResult :
      (path : List ℕ) (want_size want_path : Bool) (v w : W) (size : ℕ) (fd : Option ℕ)
      (d : Diagnostics)
      → WholeFile sys path v size
      → Opened sys opened mapped ledger fuel patient v fd w
      → ((fd ≢ none) ⊎ (has_error d ≡ true))
      → Ends
          (MapResult opened mapped (NothingThere sys path v) (WholeFile sys path v) want_size v)
          (map_read_only sys fuel fd path want_size want_path size d w)
  unfolding map_read_only
  map_read_only-MapResult path want_size want_path v w size none d sized (o, m) (inl some_fd) =
      absurd (some_fd refl)
  map_read_only-MapResult path want_size want_path v w size none d sized (o, m) (inr e) =
      ends (error refl e o m)
  map_read_only-MapResult path want_size want_path v w size (some fd) d sized o e =
      map_fd-MapResult (NothingThere sys path v) (WholeFile sys path v) path want_size want_path v
        fd read_private size d w sized o

  pub mmap_read_only-MapResult :
      (path : List ℕ) (want_size want_path : Bool) (d : Diagnostics) (w : W)
      → Ends
          (MapResult opened mapped (NothingThere sys path w) (WholeFile sys path w) want_size w)
          (mmap_read_only sys fuel path want_size want_path d w)
  unfolding mmap_read_only
  mmap_read_only-MapResult path want_size want_path d w =
      Ends-bind (stat-StatResult sys opened mapped ledger fuel patient path d w) λ (buf, d₁, w₁) s.
        Ends-if (has_error d₁) (λ e. ends (error refl e s.0.0 s.0.1))
          λ fine. mapped_file buf d₁ w₁ s fine
    where
      mapped_file :
          (buf : Option Stat) (d₁ : Diagnostics) (w₁ : W)
          → StatResult sys opened mapped ledger fuel patient path w (buf, d₁, w₁)
          → has_error d₁ ≡ false
          → Ends
              (MapResult opened mapped (NothingThere sys path w) (WholeFile sys path w) want_size w)
              (do
                statbuf ← present buf
                let map_some : Run (Mapped × Diagnostics × W) = do
                  (fd, d₂, w₂) ← open_fd sys fuel path 0 0 d₁ w₁
                  map_read_only sys fuel fd path want_size want_path (to_size statbuf.size) d₂ w₂
                if at_most_zero statbuf.size
                    then ok (unmapped (set_size want_size 0), d₁, w₁)
                    else map_some)
      mapped_file none d₁ w₁ (s, inl (told, e, _, _)) fine = absurd cc
      mapped_file none d₁ w₁ (s, inr e) fine = absurd (cc)
      mapped_file (some statbuf) d₁ w₁ (s, inr e) fine = absurd (cc)
      mapped_file (some statbuf) d₁ w₁ ((o, m), inl (told, e, n, answer)) fine =
          let same : told ≡ statbuf = cc in
          let size : FileSize sys path w statbuf.size =
            subst (λ (s : Stat). FileSize sys path w s.size) same (reported answer) in
          Ends-if (at_most_zero statbuf.size)
            (λ at_most.
              let none_there = at_most_zero-NotPositive statbuf.size at_most in
              ends (empty_file (statbuf.size, size, none_there) refl (ground arith) o m))
            λ some_there.
              let whole : WholeFile sys path w (to_size statbuf.size) =
                (statbuf.size, size, at_most_zero-IsPositive statbuf.size some_there, refl) in
              Ends-bind (open_fd-OpenResult sys opened mapped ledger fuel patient path 0 0 d₁ w₁)
                λ (fd, d₂, w₂) (h, e).
                  map_read_only-MapResult path want_size want_path w w₂ (to_size statbuf.size) fd d₂
                    whole (opened_since fd w w₁ w₂ o m h) e
