-- ===== src/ByteBuffer/Storage/Reserve.antt =====
-- `ByteBufferStorage::reserve` grows the block or leaves everything as it is.
use Prim.Native.Nat.{min}
use noctisplanet_foundation.Prelude.{
  take-all, ℕ, ◌≤◌, ◌<◌, ◌≡◌, refl, sym, ◌∙◌, ◌⊎◌, inl, inr, Bool, true, false, List, [], Option,
  none, some, arith, ltb, leb, length, take, Run, ok, Ends, ends, Ends-if,
}
use noctisplanet_foundation.Memory.{Memory, ByteBufferAllocator, Allocated, Reallocated}
use noctisplanet_foundation.ByteBuffer.Capacity.{size_max, next_power_of_2_clamped_to_max}
use noctisplanet_foundation.ByteBuffer.Capacity.Bounds.{next_power_of_2_bounds}
use noctisplanet_foundation.ByteBuffer.Storage.{ByteBufferStorage, reserve}
use noctisplanet_foundation.ByteBuffer.Storage.Live.{IsLive, Keeps, storage}

-- The allocator has no memory for the block of `capacity` bytes that the storage is to have.
abbrev pub NoMemory : ByteBufferStorage → ℕ → Memory → Option ℕ → Type 0
NoMemory s capacity m none = (s.allocator.allocate capacity m).0 ≡ none
NoMemory s capacity m (some r) = (s.allocator.reallocate r capacity m).0 ≡ none

-- What `reserve` does of the three: it is refused the memory and changes no region, it finds room enough, or
-- it moves to a block of the next power of two that begins with the old bytes.
pub data Reserved (s : ByteBufferStorage) (m : Memory) (xs : List ℕ) (n : ℕ)
    : Bool × ByteBufferStorage × Memory → Type 0 where
  refused :
      {m' : Memory}
      → (s.bytes ≡ none) ⊎ (s.capacity < n)
      → NoMemory s (next_power_of_2_clamped_to_max n) m s.bytes
      → ((q : ℕ) → m'.regions q ≡ m.regions q)
      → Reserved s m xs n (false, s, m')
  enough : {r : ℕ} → s.bytes ≡ some r → n ≤ s.capacity → Reserved s m xs n (true, s, m)
  moved :
      {s' : ByteBufferStorage} {m' : Memory} {r : ℕ} (ys : List ℕ)
      → (s.bytes ≡ none) ⊎ (s.capacity < n)
      → s'.bytes ≡ some r
      → s'.capacity ≡ next_power_of_2_clamped_to_max n
      → n ≤ s'.capacity
      → IsLive m' s' ys
      → take (length xs) ys ≡ xs
      → Keeps m s.bytes m' s'.bytes
      → s'.allocator ≡ s.allocator
      → Reserved s m xs n (true, s', m')

take-of_min :
    (a b : ℕ) (xs ys : List ℕ)
    → a ≤ b
    → take (min a b) ys ≡ take (min a b) xs
    → take a ys ≡ take a xs
take-of_min a b xs ys h e = let least : min a b ≡ a = omega arith in rw (sym least) e

module _ (c n : ℕ) (a : ByteBufferAllocator) (m : Memory) (xs : List ℕ) (small : n ≤ size_max) where
  abbrev new_capacity : ℕ
  new_capacity = next_power_of_2_clamped_to_max n

  abbrev finish : Option ℕ → Option ℕ × Memory → Run (Bool × ByteBufferStorage × Memory)
  finish b (new_bytes, m') = elim new_bytes [
    | none ↦ ok (false, storage b c a, m')
    | some r ↦ ok (true, storage (some r) new_capacity a, m')
  ]

  Allocated-Reserved :
      (res : Option ℕ × Memory)
      → (a.allocate new_capacity m).0 ≡ res.0
      → IsLive m (storage none c a) xs
      → Allocated new_capacity m res
      → Ends (Reserved (storage none c a) m xs n) (finish none res)
  Allocated-Reserved (none, m') failed l got = ends (refused (inl refl) failed got)
  Allocated-Reserved (some r, m') made l (fresh, ys, size, regions) =
      let bounds = next_power_of_2_bounds n small in
      let nothing : xs ≡ [] = cc (l.held) in
      ends (
        moved ys (inl refl) refl refl bounds.0
          (record {
            held = ground (arith, regions r);
            size = size;
            bounded = bounds.1;
            lawful = l.lawful;
          })
          (rw nothing) (λ q zs e ne. ground (arith, regions q)) refl)

  Reallocated-Reserved :
      (r : ℕ) (res : Option ℕ × Memory)
      → (a.reallocate r new_capacity m).0 ≡ res.0
      → IsLive m (storage (some r) c a) xs
      → c < n
      → Reallocated r xs new_capacity m res
      → Ends (Reserved (storage (some r) c a) m xs n) (finish (some r) res)
  Reallocated-Reserved r (none, m') failed l lt got = ends (refused (inr lt) failed got)
  Reallocated-Reserved r (some r', m') made l lt (place, ys, size, prefix, regions) =
      let bounds = next_power_of_2_bounds n small in
      ends (
        moved ys (inr lt) refl refl bounds.0
          (record {
            held = ground (arith, regions r');
            size = size;
            bounded = bounds.1;
            lawful = l.lawful;
          })
          (take-of_min (length xs) new_capacity xs ys (omega (arith, l.size, bounds)) prefix
            ∙ take-all xs)
          (λ q zs e ne. ground (arith, regions q)) refl)

  reserve-Reserved_at :
      (b : Option ℕ)
      → IsLive m (storage b c a) xs
      → Ends (Reserved (storage b c a) m xs n) (reserve (storage b c a) n m)
  unfolding reserve
  reserve-Reserved_at none l =
      Ends-if (ltb new_capacity n) (λ e. absurd (ground (arith, next_power_of_2_bounds n small)))
        λ _.
          Allocated-Reserved (a.allocate new_capacity m) refl l (l.lawful.allocates new_capacity m)
  reserve-Reserved_at (some r) l =
      Ends-if (leb n c) (λ e. ends (enough refl (ground arith)))
        λ more.
          Ends-if (ltb new_capacity n)
            (λ e. absurd (ground (arith, next_power_of_2_bounds n small)))
            λ _. rw (l.held) (
              Reallocated-Reserved r (a.reallocate r new_capacity m) refl l (ground arith)
                (l.lawful.reallocates r new_capacity m xs l.held))

-- On a live storage that holds `xs`, `reserve` of at most 2 ^ 64 - 1 bytes ends without undefined
-- behaviour: it returns true with nothing changed, and there is a block of enough capacity; or there
-- is no block or one of too small a capacity, and it returns true with a live storage that begins
-- with `xs`, whose capacity is what `next_power_of_2_clamped_to_max` gives, and enough, every other
-- live region as it was; or there is no block or one of too small a capacity, the allocator gives no
-- memory for a block of that capacity, and it returns false and changes neither the storage nor any
-- region.
pub reserve-Reserved :
    (s : ByteBufferStorage) (n : ℕ) (m : Memory) (xs : List ℕ)
    → n ≤ size_max
    → IsLive m s xs
    → Ends (Reserved s m xs n) (reserve s n m)
reserve-Reserved s n m xs small l =
    reserve-Reserved_at s.capacity n s.allocator m xs small s.bytes l
