-- ===== src/ByteBuffer/Storage/Life.antt =====
-- The constructors and the destructor of `ByteBufferStorage`.
use noctisplanet_foundation.Prelude.{
  ℕ, ◌+◌, ◌≤◌, ◌≡◌, ◌≢◌, refl, ap, sym, ◌∙◌, ◌⊎◌, inl, inr, List, [], ◌∷◌, Option, none, some,
  arith, length, ok, ◌>>=◌, Ends, ends, drop, take-all,
}
use noctisplanet_foundation.Memory.{
  Memory, pointer, splice, ByteBufferAllocator, Allocated, IsLawful, memmove,
}
use noctisplanet_foundation.Memory.Laws.{Readable, memmove_lem, written}
use noctisplanet_foundation.ByteBuffer.Capacity.{size_max, next_power_of_2_clamped_to_max}
use noctisplanet_foundation.ByteBuffer.Capacity.Bounds.{next_power_of_2_bounds}
use noctisplanet_foundation.ByteBuffer.Storage.{
  ByteBufferStorage, empty_storage, new_storage, copy_storage, destroy_storage,
}
use mathlib.Core.List.{append-nil}
use noctisplanet_foundation.ByteBuffer.Storage.Live.{IsLive, Keeps, storage}

-- A new storage is live; it has no block, or one with room for what was asked for.
pub record Made (n : ℕ) (m : Memory) (made : ByteBufferStorage × Memory) : Type 0 where
  pub bytes : List ℕ
  pub live : IsLive made.1 made.0 bytes
  pub keeps : Keeps m none made.1 made.0.bytes
  pub room : (made.0.bytes ≡ none) ⊎ (n ≤ made.0.capacity)

pub new_storage-Made :
    (a : ByteBufferAllocator) (n : ℕ) (m : Memory)
    → IsLawful a
    → n ≤ size_max
    → Made n m (new_storage a n m)
unfolding new_storage
new_storage-Made a n m lawful small =
    made (a.allocate (next_power_of_2_clamped_to_max n) m)
      (lawful.allocates (next_power_of_2_clamped_to_max n) m)
  where
    made :
        (res : Option ℕ × Memory)
        → Allocated (next_power_of_2_clamped_to_max n) m res
        → Made n m (elim res.0 [
          | none ↦ (empty_storage a, res.1)
          | some r ↦ (storage (some r) (next_power_of_2_clamped_to_max n) a, res.1)
        ])
    made (none, m') got = record {
      bytes = [];
      live = record { held = refl; size = refl; bounded = omega arith; lawful = lawful };
      keeps = λ q zs e ne. ground (arith, got q);
      room = inl refl;
    }
    made (some r, m') (fresh, ys, size, regions) =
        let bounds = next_power_of_2_bounds n small in
        record {
          bytes = ys;
          live = record {
            held = ground (arith, regions r);
            size = size;
            bounded = bounds.1;
            lawful = lawful;
          };
          keeps = λ q zs e ne. ground (arith, regions q);
          room = inr bounds.0;
        }

drop-all : (xs : List ℕ) → drop (length xs) xs ≡ []
drop-all [] = refl
drop-all (x ∷ xs) = drop-all xs

-- Overwriting the whole of a block.
splice-whole : (bytes ys : List ℕ) → length bytes ≡ length ys → splice 0 bytes ys ≡ bytes
splice-whole bytes ys e =
    let start : 0 + length bytes ≡ length ys = omega arith in
    rw (start, drop-all ys) (append-nil bytes)

-- What the copy constructor leaves: the source and all other regions as they were, and a storage
-- with a block of its own of the same bytes, or, if the allocation failed, one without a block.
pub record Copied (s : ByteBufferStorage) (m : Memory) (xs : List ℕ)
    (made : ByteBufferStorage × Memory) : Type 0 where
  pub bytes : List ℕ
  pub live : IsLive made.1 made.0 bytes
  pub keeps : Keeps m none made.1 made.0.bytes
  pub same :
      (((s.bytes ≡ none) ⊎ ((s.allocator.allocate s.capacity m).0 ≡ none)) × (made.0.bytes ≡ none))
      ⊎ ((bytes ≡ xs) × (made.0.capacity ≡ s.capacity))

module _ (c : ℕ) (a : ByteBufferAllocator) (m : Memory) (xs : List ℕ) (source : ℕ)
    (l : IsLive m (storage (some source) c a) xs) where
  copied :
      (res : Option ℕ × Memory)
      → (a.allocate c m).0 ≡ res.0
      → Allocated c m res
      → Ends (Copied (storage (some source) c a) m xs) (elim res.0 [
        | none ↦ ok (empty_storage a, res.1)
        | some r ↦ a.copybytes (pointer r 0) (pointer source 0) c res.1 >>= λ m''.
            ok (storage (some r) c a, m'')
      ])
  copied (none, m') failed got = ends (record {
    bytes = [];
    live = record { held = refl; size = refl; bounded = omega arith; lawful = l.lawful };
    keeps = λ q zs e ne. ground (arith, got q);
    same = inl (inr failed, refl);
  })
  copied (some r, m') succeeded (fresh, ys, size, regions) =
      let kept : m'.regions source ≡ some xs = ground (arith, regions source, l.held) in
      let mine : m'.regions r ≡ some ys = ground (arith, regions r) in
      let readable : Readable m' (pointer source 0) xs = record {
        all = xs;
        live = kept;
        within = omega arith;
        bytes_there = take-all xs;
      } in
      let copy : a.copybytes (pointer r 0) (pointer source 0) c m'
          ≡ ok (written (pointer r 0) (pointer source 0) xs ys m') =
        l.lawful.copies (pointer r 0) (pointer source 0) c m'
        ∙ (ap (λ n. memmove (pointer r 0) (pointer source 0) n m') (sym l.size)
            ∙ memmove_lem (pointer r 0) (pointer source 0) xs ys m' readable mine
                (omega (arith, l.size, size))) in
      let overwritten : splice 0 xs ys ≡ xs = splice-whole xs ys (l.size ∙ sym size) in
      rw copy (
        ends (record {
          bytes = xs;
          live = record {
            held = ground (arith, overwritten);
            size = l.size;
            bounded = l.bounded;
            lawful = l.lawful;
          };
          keeps = λ q zs e ne. ground (arith, regions q);
          same = inr (refl, refl);
        }))

-- Copying a live storage ends without undefined behaviour, with a live storage whose memory is none
-- of the regions that were live, which are all as they were. The copy has the same bytes and
-- capacity, unless the original has no memory or the allocation failed; then the copy has no memory.
pub copy_storage-Copied :
    (s : ByteBufferStorage) (m : Memory) (xs : List ℕ)
    → IsLive m s xs
    → Ends (Copied s m xs) (copy_storage s m)
unfolding copy_storage
copy_storage-Copied s m xs l = copied_at s.bytes s.capacity s.allocator l
  where
    copied_at :
        (b : Option ℕ) (c : ℕ) (a : ByteBufferAllocator)
        → IsLive m (storage b c a) xs
        → Ends (Copied (storage b c a) m xs) (copy_storage (storage b c a) m)
    copied_at none c a l = ends (record {
      bytes = [];
      live = record { held = refl; size = refl; bounded = omega arith; lawful = l.lawful };
      keeps = λ q zs e ne. (e, λ h. cc);
      same = inl (inl refl, refl);
    })
    copied_at (some r) c a l = copied c a m xs r l (a.allocate c m) refl (l.lawful.allocates c m)

-- What the destructor leaves: the block is gone, every other region is as it was.
pub record Destroyed (s : ByteBufferStorage) (m m' : Memory) : Type 0 where
  pub keeps : (q : ℕ) → s.bytes ≢ some q → m'.regions q ≡ m.regions q
  pub gone : (r : ℕ) → s.bytes ≡ some r → m'.regions r ≡ none

-- Destroying a live storage ends without undefined behaviour; its region is gone and every other
-- region is as it was.
pub destroy_storage-Destroyed :
    (s : ByteBufferStorage) (m : Memory) (xs : List ℕ)
    → IsLive m s xs
    → Ends (Destroyed s m) (destroy_storage s m)
unfolding destroy_storage
destroy_storage-Destroyed s m xs l = destroyed_at s.bytes s.capacity s.allocator l
  where
    destroyed_at :
        (b : Option ℕ) (c : ℕ) (a : ByteBufferAllocator)
        → IsLive m (storage b c a) xs
        → Ends (Destroyed (storage b c a) m) (destroy_storage (storage b c a) m)
    destroyed_at none c a l = ends (record { keeps = λ q ne. refl; gone = λ r e. cc })
    destroyed_at (some r) c a l =
        let freed = l.lawful.deallocates r c m xs l.held in
        rw (l.held) (
          ends (record {
            keeps = λ q ne. ground (arith, freed q);
            gone = λ q e. ground (arith, freed q);
          }))
