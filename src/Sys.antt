-- ===== src/Sys.antt =====
-- Sources/NPFoundation/sys.cpp: system calls that are tried again when they are interrupted, and that
-- report their errors to a `Diagnostics`. The system is a parameter: what each call returns, and the state
-- it goes to. A `do ... while` loop runs on fuel.
pub mod Mapping
pub mod Retry
pub mod Ledger
pub mod Descriptors
pub mod Mappings
mod Examples
use noctisplanet_foundation.Prelude.{
  ℕ, zero, suc, ◌-◌, ◌%◌, ◌^◌, ◌==◌, Bool, true, false, not, List, [], ◌∷◌, ◌++◌, Option, none,
  some, if◌then◌else◌, Run, ok, out_of_fuel, ◌>>=◌,
}
use noctisplanet_foundation.Diagnostics.{Diagnostics, new_diagnostics, append, error, has_error}

pub data Errno : Type 0 where
  eagain : Errno
  eintr : Errno
  other_errno : ℕ → Errno

-- What a call returns: its value, or -1 and what is then in `errno`.
pub data Result {ℓ} (A : Type ℓ) : Type ℓ where
  value : A → Result A
  failed : Errno → Result A

-- An `off_t`, which has a sign.
pub data ℤ : Type 0 where
  pos : ℕ → ℤ
  negsuc : ℕ → ℤ

-- `n <= 0`
abbrev pub at_most_zero : ℤ → Bool
at_most_zero (pos n) = n == 0
at_most_zero (negsuc n) = true

-- `(size_t)n`
abbrev pub to_size : ℤ → ℕ
to_size (pos n) = n % 2 ^ 64
to_size (negsuc n) = (2 ^ 64 - suc n % 2 ^ 64) % 2 ^ 64

-- `st_mode`, of which the type is tested, and `st_size`.
pub data FileType : Type 0 where
  directory : FileType
  regular : FileType
  other_type : FileType

pub record Stat : Type 0 where
  pub file_type : FileType
  pub size : ℤ

-- `PROT_READ` and `MAP_PRIVATE`, or `PROT_READ | PROT_WRITE` and `MAP_SHARED`.
pub data Protection : Type 0 where
  read_private : Protection
  read_write_shared : Protection

-- A path is its characters; `text` and `map_text` are what "%d, %s" is formatted to for an errno, and what
-- "%0lX) failed with errno=%d, %s" is for a size and an errno.
pub record System (W : Type 0) : Type 0 where
  pub open_call : List ℕ → ℕ → ℕ → W → Result ℕ × W
  pub close : ℕ → W → Result (Unit {0}) × W
  pub stat : List ℕ → W → Result Stat × W
  pub truncate : List ℕ → ℕ → W → Result (Unit {0}) × W
  pub ftruncate : ℕ → ℕ → W → Result (Unit {0}) × W
  pub get_path : ℕ → W → Result (List ℕ) × W
  pub fstatat : ℕ → List ℕ → ℕ → W → Result Stat × W
  pub map : ℕ → ℕ → Protection → W → Result ℕ × W
  pub unmap : ℕ → ℕ → W → Result (Unit {0}) × W
  pub text : Errno → List ℕ
  pub map_text : ℕ → Errno → List ℕ

abbrev pub again {ℓ} : {A : Type ℓ} → Result A → Bool
again (failed eagain) = true
again (failed eintr) = true
again _ = false

abbrev pub is_eintr : Errno → Bool
is_eintr eintr = true
is_eintr _ = false

module _ {W : Type 0} where
  -- `do { ... } while (failed && (errno == EAGAIN || errno == EINTR))`
  pub retry {ℓ} : {A : Type ℓ} → ℕ → (W → Result A × W) → W → Run (Result A × W)
  retry zero call w = out_of_fuel
  retry (suc fuel) call w =
      let (r, w') = call w in let rest = retry fuel call w' in if again r then rest else ok (r, w')

-- `diag.error(...)`: the text of the format, and what its arguments are formatted to. The lines that a
-- stream is sent are not kept here.
abbrev pub report_error : List ℕ → List ℕ → Diagnostics → Diagnostics
report_error heading details d = (append error (some (heading ++ details)) d).1

abbrev pub open_failed : List ℕ
open_failed =
    b'o' ∷ b'p' ∷ b'e' ∷ b'n' ∷ b'(' ∷ b')' ∷ b' ' ∷ b'f' ∷ b'a' ∷ b'i' ∷ b'l' ∷ b'e' ∷ b'd' ∷ b' '
    ∷ b'w' ∷ b'i' ∷ b't' ∷ b'h' ∷ b' ' ∷ b'e' ∷ b'r' ∷ b'r' ∷ b'n' ∷ b'o' ∷ b'=' ∷ []

abbrev pub close_failed : List ℕ
close_failed =
    b'c' ∷ b'l' ∷ b'o' ∷ b's' ∷ b'e' ∷ b'(' ∷ b')' ∷ b' ' ∷ b'f' ∷ b'a' ∷ b'i' ∷ b'l' ∷ b'e' ∷ b'd'
    ∷ b' ' ∷ b'w' ∷ b'i' ∷ b't' ∷ b'h' ∷ b' ' ∷ b'e' ∷ b'r' ∷ b'r' ∷ b'n' ∷ b'o' ∷ b'=' ∷ []

abbrev pub stat_failed : List ℕ
stat_failed =
    b's' ∷ b't' ∷ b'a' ∷ b't' ∷ b'(' ∷ b')' ∷ b' ' ∷ b'f' ∷ b'a' ∷ b'i' ∷ b'l' ∷ b'e' ∷ b'd' ∷ b' '
    ∷ b'w' ∷ b'i' ∷ b't' ∷ b'h' ∷ b' ' ∷ b'e' ∷ b'r' ∷ b'r' ∷ b'n' ∷ b'o' ∷ b'=' ∷ []

abbrev pub fstatat_failed : List ℕ
fstatat_failed =
    b'f' ∷ b's' ∷ b't' ∷ b'a' ∷ b't' ∷ b'a' ∷ b't' ∷ b'(' ∷ b')' ∷ b' ' ∷ b'f' ∷ b'a' ∷ b'i' ∷ b'l'
    ∷ b'e' ∷ b'd' ∷ b' ' ∷ b'w' ∷ b'i' ∷ b't' ∷ b'h' ∷ b' ' ∷ b'e' ∷ b'r' ∷ b'r' ∷ b'n' ∷ b'o'
    ∷ b'=' ∷ []

abbrev pub truncate_failed : List ℕ
truncate_failed =
    b't' ∷ b'r' ∷ b'u' ∷ b'n' ∷ b'c' ∷ b'a' ∷ b't' ∷ b'e' ∷ b'(' ∷ b')' ∷ b' ' ∷ b'f' ∷ b'a' ∷ b'i'
    ∷ b'l' ∷ b'e' ∷ b'd' ∷ b' ' ∷ b'w' ∷ b'i' ∷ b't' ∷ b'h' ∷ b' ' ∷ b'e' ∷ b'r' ∷ b'r' ∷ b'n'
    ∷ b'o' ∷ b'=' ∷ []

abbrev pub ftruncate_failed : List ℕ
ftruncate_failed =
    b'f' ∷ b't' ∷ b'r' ∷ b'u' ∷ b'n' ∷ b'c' ∷ b'a' ∷ b't' ∷ b'e' ∷ b'(' ∷ b')' ∷ b' ' ∷ b'f' ∷ b'a'
    ∷ b'i' ∷ b'l' ∷ b'e' ∷ b'd' ∷ b' ' ∷ b'w' ∷ b'i' ∷ b't' ∷ b'h' ∷ b' ' ∷ b'e' ∷ b'r' ∷ b'r'
    ∷ b'n' ∷ b'o' ∷ b'=' ∷ []

abbrev pub fcntl_failed : List ℕ
fcntl_failed =
    b'f' ∷ b'c' ∷ b'n' ∷ b't' ∷ b'l' ∷ b'(' ∷ b'F' ∷ b'_' ∷ b'G' ∷ b'E' ∷ b'T' ∷ b'P' ∷ b'A' ∷ b'T'
    ∷ b'H' ∷ b')' ∷ b' ' ∷ b'f' ∷ b'a' ∷ b'i' ∷ b'l' ∷ b'e' ∷ b'd' ∷ b' ' ∷ b'w' ∷ b'i' ∷ b't'
    ∷ b'h' ∷ b' ' ∷ b'e' ∷ b'r' ∷ b'r' ∷ b'n' ∷ b'o' ∷ b'=' ∷ []

abbrev pub mmap_failed : List ℕ
mmap_failed = b'm' ∷ b'm' ∷ b'a' ∷ b'p' ∷ b'(' ∷ b's' ∷ b'i' ∷ b'z' ∷ b'e' ∷ b'=' ∷ b'0' ∷ b'x' ∷ []

abbrev pub munmap_failed : List ℕ
munmap_failed =
    b'm' ∷ b'u' ∷ b'n' ∷ b'm' ∷ b'a' ∷ b'p' ∷ b'(' ∷ b')' ∷ b' ' ∷ b'f' ∷ b'a' ∷ b'i' ∷ b'l' ∷ b'e'
    ∷ b'd' ∷ b' ' ∷ b'w' ∷ b'i' ∷ b't' ∷ b'h' ∷ b' ' ∷ b'e' ∷ b'r' ∷ b'r' ∷ b'n' ∷ b'o' ∷ b'=' ∷ []

module _ {W : Type 0} (sys : System W) (fuel : ℕ) where
  unfoldable pub open_fd : List ℕ → ℕ → ℕ → Diagnostics → W → Run (Option ℕ × Diagnostics × W)
  open_fd path flag other d w = do
    (r, w') ← retry fuel (sys.open_call path flag other) w
    ok (elim r [
      | value fd ↦ (some fd, d, w')
      | failed e ↦ (none, report_error open_failed (sys.text e) d, w')
    ])

  unfoldable pub close_error : Result (Unit {0}) → Diagnostics → Diagnostics
  close_error (value _) d = d
  close_error (failed e) d = if is_eintr e then d else report_error close_failed (sys.text e) d

  -- Not tried again: the descriptor is gone also when the call was interrupted.
  unfoldable pub close : ℕ → Diagnostics → W → Diagnostics × W
  unfolding close_error
  close fd d w = let (r, w') = sys.close fd w in (close_error r d, w')

  unfoldable pub stat : List ℕ → Diagnostics → W → Run (Option Stat × Diagnostics × W)
  stat path d w = do
    (r, w') ← retry fuel (sys.stat path) w
    ok (elim r [
      | value s ↦ (some s, d, w')
      | failed e ↦ (none, report_error stat_failed (sys.text e) d, w')
    ])

  unfoldable pub fstatat : ℕ → List ℕ → ℕ → Diagnostics → W → Run (Option Stat × Diagnostics × W)
  fstatat fd path flag d w = do
    (r, w') ← retry fuel (sys.fstatat fd path flag) w
    ok (elim r [
      | value s ↦ (some s, d, w')
      | failed e ↦ (none, report_error fstatat_failed (sys.text e) d, w')
    ])

  unfoldable pub truncate : List ℕ → ℕ → Diagnostics → W → Run (Diagnostics × W)
  truncate path size d w = do
    (r, w') ← retry fuel (sys.truncate path size) w
    ok (elim r [ value _ ↦ (d, w') | failed e ↦ (report_error truncate_failed (sys.text e) d, w') ])

  unfoldable pub ftruncate : ℕ → ℕ → Diagnostics → W → Run (Diagnostics × W)
  ftruncate fd size d w = do
    (r, w') ← retry fuel (sys.ftruncate fd size) w
    ok (elim r [
      | value _ ↦ (d, w')
      | failed e ↦ (report_error ftruncate_failed (sys.text e) d, w')
    ])

  -- The descriptor is closed whatever `fcntl(fd, F_GETPATH, output)` returned.
  unfoldable pub finish : Result (List ℕ) → ℕ → Diagnostics → W → Option (List ℕ) × Diagnostics × W
  unfolding close
  finish (value output) fd d w = let (d', w') = close fd d w in (some output, d', w')
  finish (failed e) fd d w =
      let (d', w') = close fd (report_error fcntl_failed (sys.text e) d) w in (none, d', w')

  unfoldable pub path_and_close : ℕ → Diagnostics → W → Option (List ℕ) × Diagnostics × W
  unfolding finish
  path_and_close fd d w = let (r, w') = sys.get_path fd w in finish r fd d w'

  -- The common body of `cwd` and `realpath`: the path of what is opened, if there is one.
  unfoldable pub path_of : List ℕ → ℕ → Diagnostics → W → Run (Option (List ℕ) × Diagnostics × W)
  unfolding open_fd path_and_close
  path_of input flag d w = do
    (fd, d', w') ← open_fd input flag 0 d w
    ok (elim fd [ none ↦ (none, d', w') | some n ↦ path_and_close n d' w' ])

  -- `cwd` opens "." with `O_RDONLY | O_DIRECTORY`, here `directory_flag`.
  unfoldable pub cwd : ℕ → Diagnostics → W → Run (Option (List ℕ) × Diagnostics × W)
  unfolding path_of
  cwd directory_flag d w = path_of (46 ∷ []) directory_flag d w

  -- `O_RDONLY` is 0.
  unfoldable pub realpath : List ℕ → Diagnostics → W → Run (Option (List ℕ) × Diagnostics × W)
  unfolding path_of
  realpath input d w = path_of input 0 d w

  abbrev is_directory : Option Stat → Bool
  is_directory none = false
  is_directory (some s) = elim s.file_type [ directory ↦ true | _ ↦ false ]

  abbrev is_regular : Option Stat → Bool
  is_regular none = false
  is_regular (some s) = elim s.file_type [ regular ↦ true | _ ↦ false ]

  unfoldable pub dir_exists : List ℕ → W → Run (Bool × W)
  unfolding stat has_error
  dir_exists path w = do
    (buf, d, w') ← stat path (new_diagnostics false []) w
    ok (if has_error d then false else is_directory buf, w')

  unfoldable pub file_exists : List ℕ → W → Run (Bool × W)
  unfolding stat has_error
  file_exists path w = do
    (buf, d, w') ← stat path (new_diagnostics false []) w
    ok (if has_error d then false else is_regular buf, w')
