-- ===== src/ByteBuffer/Storage.antt =====
-- `ByteBufferAllocator` and `ByteBufferStorage` of Sources/NPFoundation/ByteBuffer.cpp and its header:
-- the heap block behind a buffer. A method that changes `this` returns the new storage; memory is
-- passed along. Freeing or reallocating a region that is not live is undefined behaviour.
pub mod Live
pub mod Reserve
pub mod Life
pub mod Write
pub mod Read
mod Examples
use noctisplanet_foundation.Prelude.{
  ℕ, ◌+◌, ◌-◌, ◌≤◌, ◌≡◌, Bool, true, false, not, ◌&&◌, Option, none, some, ltb, leb, ◌==◌,
  if◌then◌else◌, is_none, Run, ok, ◌>>=◌, ◌>>◌, present,
}
use noctisplanet_foundation.Memory.{Memory, Pointer, pointer, advance, ByteBufferAllocator}
use noctisplanet_foundation.ByteBuffer.Capacity.{
  size_max, next_power_of_2_clamped_to_max, minimum_of,
}

-- The four functions of the C library that the default hooks forward to.
pub record CLibrary : Type 0 where
  pub malloc : ℕ → Memory → Option ℕ × Memory
  pub realloc : ℕ → ℕ → Memory → Option ℕ × Memory
  pub free : ℕ → Memory → Memory
  pub move : Pointer → Pointer → ℕ → Memory → Run Memory

-- `ByteBufferAllocator()` with `defaultAllocate` and the other three; `free` is given no length.
unfoldable pub default_allocator : CLibrary → ByteBufferAllocator
default_allocator c = record {
  allocate = c.malloc;
  reallocate = c.realloc;
  deallocate = λ bytes len. c.free bytes;
  copybytes = c.move;
}

pub record ByteBufferStorage : Type 0 where
  pub bytes : Option ℕ
  pub capacity : ℕ
  pub allocator : ByteBufferAllocator

abbrev pub empty_storage : ByteBufferAllocator → ByteBufferStorage
empty_storage allocator = record { bytes = none; capacity = 0; allocator = allocator }

-- `ByteBufferStorage(allocator, capacity)`
unfoldable pub new_storage : ByteBufferAllocator → ℕ → Memory → ByteBufferStorage × Memory
new_storage allocator capacity m =
    let rounded = next_power_of_2_clamped_to_max capacity in
    let (allocated, m') = allocator.allocate rounded m in
    elim allocated [
      | none ↦ (empty_storage allocator, m')
      | some r ↦ (record { bytes = some r; capacity = rounded; allocator = allocator }, m')
    ]

-- `ByteBufferStorage(const ByteBufferStorage &)`
unfoldable pub copy_storage : ByteBufferStorage → Memory → Run (ByteBufferStorage × Memory)
copy_storage storage m = elim storage.bytes [
  | none ↦ ok (empty_storage storage.allocator, m)
  | some source ↦
      let (allocated, m') = storage.allocator.allocate storage.capacity m in
      elim allocated [
        | none ↦ ok (empty_storage storage.allocator, m')
        | some r ↦ do
          m'' ← storage.allocator.copybytes (pointer r 0) (pointer source 0) storage.capacity m'
          ok (record storage { bytes = some r }, m'')
      ]
]

-- `~ByteBufferStorage()`
unfoldable pub destroy_storage : ByteBufferStorage → Memory → Run Memory
destroy_storage storage m = elim storage.bytes [
  | none ↦ ok m
  | some r ↦ present (m.regions r) >>= λ _. ok (storage.allocator.deallocate r storage.capacity m)
]

-- The choice of `reserve` between the two hooks.
unfoldable pub grown : ByteBufferStorage → ℕ → Memory → Run (Option ℕ × Memory)
grown storage new_capacity m = elim storage.bytes [
  | none ↦ ok (storage.allocator.allocate new_capacity m)
  | some r ↦ present (m.regions r) >>= λ _. ok (storage.allocator.reallocate r new_capacity m)
]

unfoldable pub reserve : ByteBufferStorage → ℕ → Memory → Run (Bool × ByteBufferStorage × Memory)
unfolding grown
reserve storage minimum_needed_capacity m =
    let new_capacity = next_power_of_2_clamped_to_max minimum_needed_capacity in
    let grow : Run (Bool × ByteBufferStorage × Memory) = do
      (new_bytes, m') ← grown storage new_capacity m
      elim new_bytes [
        | none ↦ ok (false, storage, m')
        | some r ↦ ok (true, record storage { bytes = some r; capacity = new_capacity }, m')
      ]
    in if not (is_none storage.bytes) && leb minimum_needed_capacity storage.capacity
      then ok (true, storage, m)
      else if ltb new_capacity minimum_needed_capacity
      then ok (false, storage, m)
      else grow

-- `copybytes(this->bytes + atIndex, bytes, size)`; after `reserve` has succeeded there is a block.
unfoldable pub set_reserved :
    ByteBufferStorage → Pointer → ℕ → ℕ → Memory → Run (ℕ × ByteBufferStorage × Memory)
set_reserved storage source size at_index m = do
  r ← present storage.bytes
  m' ← storage.allocator.copybytes (pointer r at_index) source size m
  ok (size, storage, m')

unfoldable pub set_bytes :
    ByteBufferStorage → Option Pointer → ℕ → ℕ → Memory → Run (ℕ × ByteBufferStorage × Memory)
unfolding reserve set_reserved
set_bytes storage bytes size at_index m = elim bytes [
  | none ↦ ok (0, storage, m)
  | some source ↦
      if size == 0
      then ok (0, storage, m)
      else if ltb (size_max - size) at_index
      then ok (0, storage, m)
      else do
        (reserved, s, m') ← reserve storage (at_index + size) m
        if reserved then set_reserved s source size at_index m' else ok (0, s, m')
]

-- The copy that `copyBytesTo` makes once the null pointers are ruled out.
unfoldable pub copy_from : ByteBufferAllocator → ℕ → ℕ → Pointer → ℕ → ℕ → Memory → Run (ℕ × Memory)
unfolding minimum_of
copy_from allocator r capacity destination size from_index m =
    let count = minimum_of size (capacity - from_index) in
    let copy : Run (ℕ × Memory) = do
      m' ← allocator.copybytes destination (pointer r from_index) count m
      ok (count, m')
    in if leb capacity from_index then ok (0, m) else if count == 0 then ok (0, m) else copy

unfoldable pub copy_bytes_to :
    ByteBufferStorage → Option Pointer → ℕ → ℕ → Memory → Run (ℕ × Memory)
unfolding copy_from
copy_bytes_to storage destination size from_index m = elim destination [
  | none ↦ ok (0, m)
  | some d ↦ elim storage.bytes [
    | none ↦ ok (0, m)
    | some r ↦ copy_from storage.allocator r storage.capacity d size from_index m
  ]
]
