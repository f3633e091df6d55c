-- ===== src/Sys/Mapping.antt =====
-- The memory mappings of Sources/NPFoundation/sys.cpp.
use noctisplanet_foundation.Prelude.{
  ℕ, Bool, true, false, List, [], Option, none, some, if◌then◌else◌, Run, ok, ◌>>=◌, present,
}
use noctisplanet_foundation.Diagnostics.{Diagnostics, new_diagnostics, has_error}
use noctisplanet_foundation.Sys.{
  Result, value, failed, Stat, at_most_zero, to_size, Protection, read_private, read_write_shared,
  System, report_error, mmap_failed, munmap_failed, open_fd, close, stat, ftruncate, realpath,
}

-- What the two functions return: the address, null if there is none; what `*size` is set to, if it is; and
-- what `realerPath` holds then, if there is such a buffer.
pub record Mapped : Type 0 where
  pub address : Option ℕ
  pub size : Option ℕ
  pub realer_path : Option (List ℕ)

abbrev pub unmapped : Option ℕ → Mapped
unmapped size = record { address = none; size = size; realer_path = none }

-- `if (size != nullptr) *size = n`
abbrev pub set_size : Bool → ℕ → Option ℕ
set_size wanted n = if wanted then some n else none

abbrev pub or_zero : Option ℕ → ℕ
or_zero none = 0
or_zero (some n) = n

abbrev pub or_empty : Option (List ℕ) → List ℕ
or_empty none = []
or_empty (some path) = path

module _ {W : Type 0} (sys : System W) (fuel : ℕ) where
  -- `resolveRealerPath`; the buffer is left empty if the path cannot be resolved.
  unfoldable pub resolve_realer_path : Bool → List ℕ → W → Run (Option (List ℕ) × W)
  unfolding realpath
  resolve_realer_path wanted path w =
      let resolve : Run (Option (List ℕ) × W) = do
        (output, d, w') ← realpath sys fuel path (new_diagnostics false []) w
        ok (some (elim output [ none ↦ [] | some p ↦ p ]), w')
      in if wanted then resolve else ok (none, w)

  -- What both functions do from the result of `::mmap` on.
  unfoldable pub finish_map :
      Result ℕ → List ℕ → Bool → Bool → ℕ → ℕ → Diagnostics → W → Run (Mapped × Diagnostics × W)
  unfolding resolve_realer_path close
  finish_map (failed e) path want_size want_path fd mapped_size d w =
      let d' = report_error mmap_failed (sys.map_text mapped_size e) d in
      let (d'', w') = close sys fuel fd d' w in ok (unmapped none, d'', w')
  finish_map (value address) path want_size want_path fd mapped_size d w = do
    (realer_path, w') ← resolve_realer_path want_path path w
    let (d', w'') = close sys fuel fd d w'
    let mapped : Mapped = record {
      address = some address;
      size = set_size want_size mapped_size;
      realer_path = realer_path;
    }
    ok (mapped, d', w'')

  unfoldable pub map_fd :
      Protection → List ℕ → Bool → Bool → ℕ → ℕ → Diagnostics → W → Run (Mapped × Diagnostics × W)
  unfolding finish_map
  map_fd protection path want_size want_path fd mapped_size d w =
      let (result, w') = sys.map fd mapped_size protection w in
      finish_map result path want_size want_path fd mapped_size d w'

  unfoldable pub map_read_only :
      Option ℕ → List ℕ → Bool → Bool → ℕ → Diagnostics → W → Run (Mapped × Diagnostics × W)
  unfolding map_fd
  map_read_only none path want_size want_path size d w = ok (unmapped none, d, w)
  map_read_only (some fd) path want_size want_path size d w =
      map_fd read_private path want_size want_path fd size d w

  -- A buffer that `stat` has not filled is not read: then there is an error.
  unfoldable pub mmap_read_only :
      List ℕ → Bool → Bool → Diagnostics → W → Run (Mapped × Diagnostics × W)
  unfolding stat has_error open_fd map_read_only
  mmap_read_only path want_size want_path d w = do
    (buf, d₁, w₁) ← stat sys fuel path d w
    let map_file : Run (Mapped × Diagnostics × W) = do
      statbuf ← present buf
      let map_some : Run (Mapped × Diagnostics × W) = do
        (fd, d₂, w₂) ← open_fd sys fuel path 0 0 d₁ w₁
        map_read_only fd path want_size want_path (to_size statbuf.size) d₂ w₂
      if at_most_zero statbuf.size then ok (unmapped (set_size want_size 0), d₁, w₁) else map_some
    if has_error d₁ then ok (unmapped none, d₁, w₁) else map_file

  -- The size to map once `stat` has been called: that of the file, or, of an empty file, one page that the
  -- file is extended to. `none` if there is an error.
  unfoldable pub size_to_map : ℕ → Stat → Diagnostics → W → Run (Option ℕ × Diagnostics × W)
  unfolding ftruncate has_error
  size_to_map fd statbuf d w =
      let extend : Run (Option ℕ × Diagnostics × W) = do
        (d', w') ← ftruncate sys fuel fd 4096 d w
        ok (if has_error d' then none else some 4096, d', w')
      in if at_most_zero statbuf.size then extend else ok (some (to_size statbuf.size), d, w)

  unfoldable pub close_and_fail : ℕ → Diagnostics → W → Run (Mapped × Diagnostics × W)
  unfolding close
  close_and_fail fd d w = let (d', w') = close sys fuel fd d w in ok (unmapped none, d', w')

  unfoldable pub map_sized :
      Option ℕ → List ℕ → Bool → Bool → ℕ → Diagnostics → W → Run (Mapped × Diagnostics × W)
  unfolding close_and_fail map_fd
  map_sized none path want_size want_path fd d w = close_and_fail fd d w
  map_sized (some size) path want_size want_path fd d w =
      map_fd read_write_shared path want_size want_path fd size d w

  unfoldable pub map_read_write :
      Option ℕ → List ℕ → Bool → Bool → Diagnostics → W → Run (Mapped × Diagnostics × W)
  unfolding stat has_error size_to_map map_sized close_and_fail
  map_read_write none path want_size want_path d w = ok (unmapped none, d, w)
  map_read_write (some fd) path want_size want_path d w = do
    (buf, d₁, w₁) ← stat sys fuel path d w
    let map_file : Run (Mapped × Diagnostics × W) = do
      statbuf ← present buf
      (size, d₂, w₂) ← size_to_map fd statbuf d₁ w₁
      map_sized size path want_size want_path fd d₂ w₂
    if has_error d₁ then close_and_fail fd d₁ w₁ else map_file

  -- `flag` is `O_RDWR | O_CREAT`, and 438 is 0666.
  unfoldable pub mmap_read_write :
      ℕ → List ℕ → Bool → Bool → Diagnostics → W → Run (Mapped × Diagnostics × W)
  unfolding open_fd map_read_write
  mmap_read_write flag path want_size want_path d w = do
    (opened, d', w') ← open_fd sys fuel path flag 438 d w
    map_read_write opened path want_size want_path d' w'

  unfoldable pub munmap : ℕ → ℕ → Diagnostics → W → Diagnostics × W
  munmap address size d w =
      let (r, w') = sys.unmap address size w in
      elim r [ value _ ↦ (d, w') | failed e ↦ (report_error munmap_failed (sys.text e) d, w') ]

  unfoldable pub handle : Mapped → (ℕ → ℕ → List ℕ → W → W) → Diagnostics → W → Diagnostics × W
  unfolding munmap
  handle mapped handler d w = elim mapped.address [
    | none ↦ (d, w)
    | some address ↦
        let size = or_zero mapped.size in
        munmap address size d (handler address size (or_empty mapped.realer_path) w)
  ]

  -- `mappedSize` and `realerPath` are zero until they are set.
  unfoldable pub with_mmap_read_only :
      List ℕ → (ℕ → ℕ → List ℕ → W → W) → Diagnostics → W → Run (Diagnostics × W)
  unfolding mmap_read_only handle
  with_mmap_read_only path handler d w = do
    (mapped, d', w') ← mmap_read_only path true true d w
    ok (handle mapped handler d' w')
