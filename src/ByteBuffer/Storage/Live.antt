-- ===== src/ByteBuffer/Storage/Live.antt =====
-- What a storage block holds, and what an operation on it leaves alone.
use noctisplanet_foundation.Prelude.{ℕ, ◌≤◌, ◌≡◌, ◌≢◌, List, [], Option, none, some, length}
use noctisplanet_foundation.Memory.{Memory, ByteBufferAllocator, IsLawful}
use noctisplanet_foundation.ByteBuffer.Capacity.{size_max}
use noctisplanet_foundation.ByteBuffer.Storage.{ByteBufferStorage}

-- The block's bytes; a storage without a block has none.
abbrev pub contents : Memory → Option ℕ → Option (List ℕ)
contents m none = some []
contents m (some r) = m.regions r

pub record IsLive (m : Memory) (s : ByteBufferStorage) (xs : List ℕ) : Type 0 where
  pub held : contents m s.bytes ≡ some xs
  pub size : length xs ≡ s.capacity
  pub bounded : s.capacity ≤ size_max
  pub lawful : IsLawful s.allocator

-- From `m`, where `s` owns its block, to `m'`, where `s'` owns its own: every other live region is as
-- it was, and is not the block of `s'`.
abbrev pub Keeps : Memory → Option ℕ → Memory → Option ℕ → Type 0
Keeps m b m' b' =
    (q : ℕ) (zs : List ℕ)
    → m.regions q ≡ some zs
    → b ≢ some q
    → (m'.regions q ≡ some zs) × (b' ≢ some q)

abbrev pub storage : Option ℕ → ℕ → ByteBufferAllocator → ByteBufferStorage
storage b c a = record { bytes = b; capacity = c; allocator = a }
