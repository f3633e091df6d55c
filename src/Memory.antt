-- ===== src/Memory.antt =====
-- The memory that the buffers live in: allocated regions of bytes, pointers into them, and
-- `memmove`. An access outside a live region is undefined behaviour.
pub mod Laws
pub mod Arena
use Prim.Native.Nat.{min}
use noctisplanet_foundation.Prelude.{
  ℕ, ◌+◌, ◌≤◌, ◌≡◌, ◌⊎◌, List, ◌++◌, Option, none, some, leb, ◌==◌, if◌then◌else◌, length, take,
  drop, Run, ok, undefined, assert_failed, ◌>>=◌, present,
}

-- The bytes of each live region by its number, and the bookkeeping of whoever hands regions out.
pub record Memory : Type 0 where
  pub regions : ℕ → Option (List ℕ)
  pub book : ℕ

pub record Pointer : Type 0 where
  pub region : ℕ
  pub offset : ℕ

abbrev pub pointer : ℕ → ℕ → Pointer
pointer region offset = record { region = region; offset = offset }

-- `base + count`
abbrev pub advance : Pointer → ℕ → Pointer
advance p count = record p { offset = p.offset + count }

abbrev pub update : (ℕ → Option (List ℕ)) → ℕ → Option (List ℕ) → ℕ → Option (List ℕ)
update regions r content q = if r == q then content else regions q

-- The bytes of `ys` with those from `at` on overwritten by `bytes`.
abbrev pub splice : ℕ → List ℕ → List ℕ → List ℕ
splice at bytes ys = take at ys ++ (bytes ++ drop (at + length bytes) ys)

unfoldable pub load : Pointer → ℕ → Memory → Run (List ℕ)
load p count m = do
  xs ← present (m.regions p.region)
  if leb (p.offset + count) (length xs) then ok (take count (drop p.offset xs)) else undefined

unfoldable pub store : Pointer → List ℕ → Memory → Run Memory
store p bytes m = do
  ys ← present (m.regions p.region)
  if leb (p.offset + length bytes) (length ys)
      then ok (record m { regions = update m.regions p.region (some (splice p.offset bytes ys)) })
      else undefined

-- All the bytes are read before the first is written, so the ranges may overlap.
unfoldable pub memmove : Pointer → Pointer → ℕ → Memory → Run Memory
unfolding load store
memmove destination source count m = do bytes ← load source count m; store destination bytes m

-- The four hooks of `ByteBufferAllocator`. A region is known by its number, and `none` is the null
-- pointer by which an allocation fails.
pub record ByteBufferAllocator : Type 0 where
  pub allocate : ℕ → Memory → Option ℕ × Memory
  pub reallocate : ℕ → ℕ → Memory → Option ℕ × Memory
  pub deallocate : ℕ → ℕ → Memory → Memory
  pub copybytes : Pointer → Pointer → ℕ → Memory → Run Memory

-- The constructor of `ByteBufferAllocator` that takes the hooks, `none` being a null function pointer: it
-- asserts that there are all four.
unfoldable pub custom_allocator :
    Option (ℕ → Memory → Option ℕ × Memory)
    → Option (ℕ → ℕ → Memory → Option ℕ × Memory)
    → Option (ℕ → ℕ → Memory → Memory)
    → Option (Pointer → Pointer → ℕ → Memory → Run Memory)
    → Run ByteBufferAllocator
custom_allocator (some allocate) (some reallocate) (some deallocate) (some copybytes) = ok (record {
  allocate = allocate;
  reallocate = reallocate;
  deallocate = deallocate;
  copybytes = copybytes;
})
custom_allocator _ _ _ _ = assert_failed

-- What an allocation leaves: a region that was not live before, of the size asked for, and every
-- other region as it was; or, when it fails, every region as it was.
abbrev pub Allocated : ℕ → Memory → Option ℕ × Memory → Type 0
Allocated n m (none, m') = (q : ℕ) → m'.regions q ≡ m.regions q
Allocated n m (some r, m') =
    (m.regions r ≡ none)
    × (xs : List ℕ) × (length xs ≡ n)
    × ((q : ℕ) → m'.regions q ≡ update m.regions r (some xs) q)

-- What a reallocation of the region `r`, with the bytes `xs`, leaves: a region of the new size, the
-- old one grown in place or another that was not live, that begins with the old bytes.
abbrev pub Reallocated : ℕ → List ℕ → ℕ → Memory → Option ℕ × Memory → Type 0
Reallocated r xs n m (none, m') = (q : ℕ) → m'.regions q ≡ m.regions q
Reallocated r xs n m (some r', m') =
    ((r' ≡ r) ⊎ (m.regions r' ≡ none))
    × (ys : List ℕ) × (length ys ≡ n)
    × (take (min (length xs) n) ys ≡ take (min (length xs) n) xs)
    × ((q : ℕ) → m'.regions q ≡ update (update m.regions r none) r' (some ys) q)

-- "All four hooks must be non-null and consistent with each other": what malloc, realloc, free and
-- memmove are documented to do, and what a custom allocator has to do.
pub record IsLawful (a : ByteBufferAllocator) : Type 0 where
  pub allocates : (n : ℕ) (m : Memory) → Allocated n m (a.allocate n m)
  pub reallocates :
      (r n : ℕ) (m : Memory) (xs : List ℕ)
      → m.regions r ≡ some xs
      → Reallocated r xs n m (a.reallocate r n m)
  pub deallocates :
      (r n : ℕ) (m : Memory) (xs : List ℕ)
      → m.regions r ≡ some xs
      → (q : ℕ) → (a.deallocate r n m).regions q ≡ update m.regions r none q
  pub copies :
      (destination source : Pointer) (n : ℕ) (m : Memory)
      → a.copybytes destination source n m ≡ memmove destination source n m
