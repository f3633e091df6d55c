-- ===== src/Sys/Mappings/ReadWrite.antt =====
-- `mmapReadWrite` and `withMmapReadOnly`: the descriptor is closed on every path, and the handler's mapping
-- is taken away again.
use noctisplanet_foundation.Prelude.{
  ℕ, ◌≡◌, ◌≢◌, refl, ◌∙◌, ◌⊎◌, inl, inr, Bool, true, false, List, ◌∷◌, Option, none, some,
  if◌then◌else◌, ◌>>=◌, present, Ends, ends, Ends-bind, Ends-if, Bool-cases,
}
use noctisplanet_foundation.Diagnostics.{Diagnostics, has_error}
use noctisplanet_foundation.Sys.{
  ℤ, at_most_zero, Errno, Result, value, failed, Stat, read_write_shared, System, report_error,
  munmap_failed,
}
use noctisplanet_foundation.Sys.Mapping.{
  Mapped, or_empty, size_to_map, map_sized, map_read_write, mmap_read_write, munmap, handle,
  with_mmap_read_only,
}
use noctisplanet_foundation.Sys.Retry.{Answers}
use noctisplanet_foundation.Sys.Ledger.{Takes, Ledger, Patient, has_error-append}
use noctisplanet_foundation.Sys.Descriptors.{
  Same, Opened, open_fd-OpenResult, stat-StatResult, ftruncate-Same,
}
use noctisplanet_foundation.Sys.Mappings.Size.{
  at_most_zero-IsPositive, at_most_zero-NotPositive, FileSize, reported, NothingThere, WholeFile,
  SizeFor, whole, page,
}
use noctisplanet_foundation.Sys.Mappings.{
  MapResult, one_more, error, empty_file, Holding, map_fd-MapResult, close_and_fail-MapResult,
  mmap_read_only-MapResult,
}

module _ {W : Type 0} (sys : System W) (opened : W → List ℕ) (mapped : W → List (ℕ × ℕ))
    (ledger : Ledger sys opened mapped) (fuel : ℕ) (patient : Patient sys fuel) where
  abbrev Kept : W → W → Type 0
  Kept = Same sys opened mapped ledger fuel patient

  -- That of what `stat` gives for the file, in the state in which it is asked.
  abbrev pub Extent : List ℕ → ℕ → Type 0
  Extent path size = (v : W) × (z : ℤ) × FileSize sys path v z × SizeFor z size

  -- `mmap_read_write` has no case of its own for an empty file.
  abbrev pub Mapping : List ℕ → Bool → W → Mapped × Diagnostics × W → Type 0
  Mapping path want_size w = MapResult opened mapped ⊥ (Extent path) want_size w

  abbrev SizeResult : ℤ → W → Option ℕ × Diagnostics × W → Type 0
  SizeResult z w (none, d, w') = Kept w w' × (has_error d ≡ true)
  SizeResult z w (some size, d, w') = Kept w w' × SizeFor z size

  size_to_map-SizeResult :
      (fd : ℕ) (statbuf : Stat) (d : Diagnostics) (w : W)
      → Ends (SizeResult statbuf.size w) (size_to_map sys fuel fd statbuf d w)
  unfolding size_to_map
  size_to_map-SizeResult fd statbuf d w =
      Ends-if (at_most_zero statbuf.size)
        (λ at_most.
          Ends-bind (ftruncate-Same sys opened mapped ledger fuel patient fd 4096 d w)
            λ (d', w') s. ends (extended d' w' at_most s (Bool-cases (has_error d'))))
        λ some_there. ends ((refl, refl), whole (at_most_zero-IsPositive statbuf.size some_there))
    where
      extended :
          (d' : Diagnostics) (w' : W)
          → at_most_zero statbuf.size ≡ true
          → Kept w w'
          → (has_error d' ≡ true) ⊎ (has_error d' ≡ false)
          → let size : Option ℕ = if has_error d' then none else some 4096 in
            SizeResult statbuf.size w (size, d', w')
      extended d' w' at_most s (inl e) = rw e (s, e)
      extended d' w' at_most s (inr e) =
          rw e (s, page (at_most_zero-NotPositive statbuf.size at_most))

  map_sized-MapResult :
      (path : List ℕ) (want_size want_path : Bool) (v u w : W) (fd : ℕ) (z : ℤ) (size : Option ℕ)
      (d : Diagnostics)
      → opened u ≡ fd ∷ opened v
      → mapped u ≡ mapped v
      → FileSize sys path w z
      → (res : W) → SizeResult z u (size, d, res)
      → Ends (Mapping path want_size v) (map_sized sys fuel size path want_size want_path fd d res)
  unfolding map_sized
  map_sized-MapResult path want_size want_path v u w fd z none d o m told res ((o', m'), e) =
      close_and_fail-MapResult sys opened mapped ledger fuel patient ⊥ (Extent path) path want_size
        want_path v fd d res (o' ∙ o, m' ∙ m) e
  map_sized-MapResult path want_size want_path v u w fd z (some size) d o m told res ((o', m'), e) =
      map_fd-MapResult sys opened mapped ledger fuel patient ⊥ (Extent path) path want_size
        want_path v fd read_write_shared size d res (w, z, told, e) (o' ∙ o, m' ∙ m)

  module _ (path : List ℕ) (want_size want_path : Bool) (v : W) where
    abbrev ResultOf : Mapped × Diagnostics × W → Type 0
    ResultOf = Mapping path want_size v

    filled-MapResult :
        (fd : ℕ) (statbuf : Stat) (d : Diagnostics) (u w : W)
        → Holding sys opened mapped ledger fuel patient v fd w
        → FileSize sys path u statbuf.size
        → Ends ResultOf (do
          (size, d', w') ← size_to_map sys fuel fd statbuf d w
          map_sized sys fuel size path want_size want_path fd d' w')
    filled-MapResult fd statbuf d u w (o, m) told =
        Ends-bind (size_to_map-SizeResult fd statbuf d w) λ (size, d', w') s.
          map_sized-MapResult path want_size want_path v w u fd statbuf.size size d' o m told w' s

    stated-MapResult :
        (fd : ℕ) (buf : Option Stat) (d : Diagnostics) (u w : W)
        → Holding sys opened mapped ledger fuel patient v fd w
        → ((s : Stat) × (buf ≡ some s) × (n : ℕ) × Answers (sys.stat path) n u (value s) w)
        → Ends ResultOf (do
          statbuf ← present buf
          (size, d', w') ← size_to_map sys fuel fd statbuf d w
          map_sized sys fuel size path want_size want_path fd d' w')
    stated-MapResult fd _ d u w h (s, e, n, answer) =
        rw e (filled-MapResult fd s d u w h (reported answer))

    map_read_write-MapResult :
        (fd : Option ℕ) (d : Diagnostics) (w : W)
        → Opened sys opened mapped ledger fuel patient v fd w
        → ((fd ≢ none) ⊎ (has_error d ≡ true))
        → Ends ResultOf (map_read_write sys fuel fd path want_size want_path d w)
    unfolding map_read_write
    map_read_write-MapResult none d w h (inl found) = absurd (found refl)
    map_read_write-MapResult none d w (o, m) (inr e) = ends (error refl e o m)
    map_read_write-MapResult (some fd) d w (o, m) _ =
        Ends-bind (stat-StatResult sys opened mapped ledger fuel patient path d w)
          λ (buf, d', w') ((o', m'), filled).
            Ends-if (has_error d')
              (λ e.
                close_and_fail-MapResult sys opened mapped ledger fuel patient ⊥ (Extent path) path
                  want_size want_path v fd d' w' (o' ∙ o, m' ∙ m) e)
              λ fine.
                stated-MapResult fd buf d' w w' (o' ∙ o, m' ∙ m)
                  (elim filled [ inl told ↦ told | inr e ↦ absurd cc ])

  -- Let the system calls change the open descriptors and the mappings as `Ledger` says, and let no
  -- call be interrupted `fuel` times in a row. Then `mmap_read_write` ends with the same descriptors
  -- open as before, and either with one mapping more, whose address it returns, and whose size if
  -- that is wanted; or with no address, an error, and the same mappings as before. The size is one
  -- that the system's `stat` answers for the file if that is positive, and otherwise 4096.
  pub mmap_read_write-MapResult :
      (flag : ℕ) (path : List ℕ) (want_size want_path : Bool) (d : Diagnostics) (w : W)
      → Ends (Mapping path want_size w) (mmap_read_write sys fuel flag path want_size want_path d w)
  unfolding mmap_read_write
  mmap_read_write-MapResult flag path want_size want_path d w =
      Ends-bind (open_fd-OpenResult sys opened mapped ledger fuel patient path flag 438 d w)
        λ (fd, d', w') (h, e). map_read_write-MapResult path want_size want_path w fd d' w' h e

  module _ (path : List ℕ) (handler : ℕ → ℕ → List ℕ → W → W)
      (neutral : (address size : ℕ) (realer_path : List ℕ) (w : W)
        → Kept w (handler address size realer_path w)) where
    -- How a run of the handler ends: there was nothing to map, or an error before it was mapped; or the
    -- handler ran on the file's mapping, and then that was taken away again; or `munmap` failed, which is
    -- reported, and the mapping is still there.
    pub data Unmapped (w : W) : Diagnostics × W → Type 0 where
      not_run :
          {d : Diagnostics} {w' : W}
          → NothingThere sys path w ⊎ (has_error d ≡ true)
          → opened w' ≡ opened w
          → mapped w' ≡ mapped w
          → Unmapped w (d, w')
      taken_away :
          {d : Diagnostics} {v w' : W} (address size : ℕ) (realer_path : List ℕ)
          → WholeFile sys path w size
          → mapped v ≡ (address, size) ∷ mapped w
          → sys.unmap address size (handler address size realer_path v) ≡ (value tt, w')
          → opened w' ≡ opened w
          → mapped w' ≡ mapped w
          → Unmapped w (d, w')
      still_mapped :
          {d : Diagnostics} {v w' : W} {e : Errno} (address size : ℕ) (realer_path : List ℕ)
          → WholeFile sys path w size
          → mapped v ≡ (address, size) ∷ mapped w
          → sys.unmap address size (handler address size realer_path v) ≡ (failed e, w')
          → has_error d ≡ true
          → opened w' ≡ opened w
          → mapped w' ≡ (address, size) ∷ mapped w
          → Unmapped w (d, w')

    munmap-Unmapped :
        (address size : ℕ) (realer_path : List ℕ) (d : Diagnostics) (w v : W)
        → WholeFile sys path w size
        → opened v ≡ opened w
        → mapped v ≡ (address, size) ∷ mapped w
        → Unmapped w (munmap sys fuel address size d (handler address size realer_path v))
    unfolding munmap
    munmap-Unmapped address size realer_path d w v sized o m =
        let (o', m') = neutral address size realer_path v in
        let at_end = handler address size realer_path v in
        let (o'', m'') = ledger.unmaps address size (mapped w) at_end (m' ∙ m) in
        gone (sys.unmap address size at_end).0 (sys.unmap address size at_end).1 refl
          (o'' ∙ (o' ∙ o)) m'' (m' ∙ m)
      where
        gone :
            (r : Result (Unit {0})) (w' : W)
            → sys.unmap address size (handler address size realer_path v) ≡ (r, w')
            → opened w' ≡ opened w
            → Takes (mapped w) (mapped (handler address size realer_path v)) r (mapped w')
            → mapped (handler address size realer_path v) ≡ (address, size) ∷ mapped w
            → Unmapped w (elim r [
              | value _ ↦ (d, w')
              | failed e ↦ (report_error munmap_failed (sys.text e) d, w')
            ])
        gone (value _) w' called o' m' there =
            taken_away address size realer_path sized m called o' m'
        gone (failed e) w' called o' m' there =
            still_mapped address size realer_path sized m called (has_error-append _ _ d) o'
              (m' ∙ there)

    handle-Unmapped :
        (mapping : Mapped) (d : Diagnostics) (w w' : W)
        → MapResult opened mapped
            (NothingThere sys path w)
            (WholeFile sys path w)
            true
            w
            (mapping, d, w')
        → Unmapped w (handle sys fuel mapping handler d w')
    unfolding handle
    handle-Unmapped mapping d w w' (one_more address size sized at size_set o m) =
        rw (at, size_set)
          (munmap-Unmapped address size (or_empty mapping.realer_path) d w w' sized o m)
    handle-Unmapped mapping d w w' (error at e o m) = rw at (not_run (inr e) o m)
    handle-Unmapped mapping d w w' (empty_file nothing at _ o m) = rw at (not_run (inl nothing) o m)

    -- Let the system calls change the open descriptors and the mappings as `Ledger` says, let no call
    -- be interrupted `fuel` times in a row, and let the handler leave the descriptors and the
    -- mappings as they are. Then `with_mmap_read_only` ends with the same descriptors open as before,
    -- in one of three ways. The file is empty or there is an error, and the mappings are the same as
    -- before. Or a mapping of the whole file was added, the handler ran with its address and size,
    -- and the call of munmap with these, in the state that the handler left, is the last and
    -- succeeds; the mappings are the same as before. Or that last call of munmap fails; then there is
    -- an error, and the mapping is still there.
    pub with_mmap_read_only-Unmapped :
        (d : Diagnostics) (w : W)
        → Ends (Unmapped w) (with_mmap_read_only sys fuel path handler d w)
    unfolding with_mmap_read_only
    with_mmap_read_only-Unmapped d w =
        Ends-bind
          (mmap_read_only-MapResult sys opened mapped ledger fuel patient path true true d w)
          λ (mapping, d', w') h. ends (handle-Unmapped mapping d' w w' h)
