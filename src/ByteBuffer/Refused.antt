-- ===== src/ByteBuffer/Refused.antt =====
-- The run of `writeBytes` in which the allocator refuses the memory for the copy of a shared block.
use noctisplanet_foundation.Prelude.{
  ℕ, ◌+◌, ◌%◌, ◌^◌, ◌<◌, ◌≡◌, refl, sym, ap, ◌∙◌, inl, inr, List, ◌∷◌, Option, none, some, length,
  arith, leb, false, assert_failed, ok, Ends, ends, Ends-weaken, Ends-value, Option-cases, subst,
}
use noctisplanet_foundation.Memory.{Memory, Pointer}
use noctisplanet_foundation.CopyOnWriteBacked.{put, assign, unique}
use noctisplanet_foundation.CopyOnWriteBacked.Counted.{references, Counted, element_at}
use noctisplanet_foundation.CopyOnWriteBacked.Unique.{Unshared, already, split, unique-Unshared}
use noctisplanet_foundation.ByteBuffer.{
  World, ByteBuffer, storage_element, set_unique, move_writer_index_forward_by, write_bytes,
}
use noctisplanet_foundation.ByteBuffer.Storage.{
  ByteBufferStorage, empty_storage, copy_storage, set_bytes,
}
use noctisplanet_foundation.ByteBuffer.Capacity.{next_power_of_2_clamped_to_max}
use noctisplanet_foundation.ByteBuffer.Sound.{some_eq}
use noctisplanet_foundation.ByteBuffer.Put.{read_lem}

-- Assigning to a block that is there.
assigned :
    (q : ℕ) (t u : ByteBufferStorage) (m : Memory) (w : World)
    → element_at (w.blocks q) ≡ some t
    → (w' : World) × (assign (some q) u m w ≡ ok w') × (element_at (w'.blocks q) ≡ some u)
unfolding assign
assigned q t u m w e = elim (Option-cases (w.blocks q)) [
  | inl absent ↦ absurd (ground (arith, absent))
  | inr (b, there) ↦
      let after = put w.blocks q (some (record b { element = u })) in
      (record w { blocks = after; world = m }, rw there refl, ground arith)
]

module _ (s : ByteBufferStorage)
    (refuses : (n : ℕ) (m : Memory) → s.allocator.allocate n m ≡ (none, m)) where
  abbrev lost : ByteBufferStorage
  lost = empty_storage s.allocator

  refused : (n : ℕ) (m : Memory) → (s.allocator.allocate n m).0 ≡ none
  refused n m = ap (λ (x : Option ℕ × Memory). x.0) (refuses n m)

  same_memory : (n : ℕ) (m : Memory) → (s.allocator.allocate n m).1 ≡ m
  same_memory n m = ap (λ (x : Option ℕ × Memory). x.1) (refuses n m)

  copy_storage-lost : (m : Memory) → copy_storage s m ≡ ok (lost, m)
  unfolding copy_storage
  copy_storage-lost m = elim (Option-cases s.bytes) [
    | inl e ↦ rw e refl
    | inr (r, e) ↦ rw (e, refused s.capacity m, same_memory s.capacity m) refl
  ]

  set_bytes-lost :
      (source : Option Pointer) (size at : ℕ) (m : Memory)
      → set_bytes lost source size at m ≡ ok (0, lost, m)
  unfolding set_bytes
  set_bytes-lost none size at m = refl
  set_bytes-lost (some source) size at m =
      let n = next_power_of_2_clamped_to_max (at + size) in
      rw (refused n m, same_memory n m) (ground arith)

  -- The index of the writer does not fit into a storage without memory.
  move-lost :
      (q : ℕ) (b : ByteBuffer) (w : World)
      → element_at (w.blocks q) ≡ some lost
      → b.storage ≡ some q
      → 0 < b.writer_index
      → b.writer_index < 2 ^ 64
      → move_writer_index_forward_by b 0 w ≡ assert_failed
  unfolding move_writer_index_forward_by
  move-lost q b w there is some_shown word =
      let past : leb ((b.writer_index + 0) % 2 ^ 64) 0 ≡ false = ground arith in
      rw (is, read_lem w q lost there, past) refl

  module _ (w : World) (p : ℕ) (hs : List (Option ℕ)) (few : length hs + 2 < 2 ^ 32)
      (counted : Counted w (some p ∷ hs)) (found : element_at (w.blocks p) ≡ some s)
      (shared : 0 < references p hs) where
    -- `unique` gives a block whose storage has no memory.
    record Lost (res : Option ℕ × World) : Type 0 where
      is : res.0 ≡ some w.next
      there : element_at (res.1.blocks w.next) ≡ some lost
      world : res.1.world ≡ w.world

    unique-Lost : Ends Lost (unique storage_element (some p) w)
    unique-Lost =
        Ends-weaken
          (unique-Unshared storage_element (λ res. res ≡ (lost, w.world)) w p hs few counted copies)
          unshared
      where
        copies :
            (t : ByteBufferStorage)
            → element_at (w.blocks p) ≡ some t
            → 0 < references p hs
            → Ends (λ res. res ≡ (lost, w.world)) (copy_storage t w.world)
        copies t e more =
            let same : s ≡ t = some_eq (sym found ∙ e) in
            subst
              (λ (u : ByteBufferStorage).
                Ends (λ res. res ≡ (lost, w.world)) (copy_storage u w.world))
              same (rw (copy_storage-lost w.world) (ends refl))

        unshared :
            (res : Option ℕ × World)
            → Unshared storage_element (λ res. res ≡ (lost, w.world)) w p hs res
            → Lost res
        unshared res (already none_left) = absurd (omega arith)
        unshared res (split more same there world counts alone others) = record {
          is = refl;
          there = there ∙ ap (λ (made : ByteBufferStorage × Memory). some made.0) same;
          world = world ∙ ap (λ (made : ByteBufferStorage × Memory). made.1) same;
        }

    -- Let the counts be right for a buffer's reference and the others that are held, fewer than 2 ^
    -- 32 - 2, let another of them point to the same block, and let the allocator of its storage
    -- refuse every request for new memory. Then `write_bytes` to the buffer fails an assertion,
    -- whatever it is to write, if the index of its writer is not 0.
    pub write_bytes-refused :
        (b : ByteBuffer) (source : Option Pointer) (size : ℕ)
        → b.storage ≡ some p
        → 0 < b.writer_index
        → b.writer_index < 2 ^ 64
        → write_bytes b source size w ≡ assert_failed
    unfolding write_bytes set_unique
    write_bytes-refused b source size is some_shown word =
        let (res, e, l) = Ends-value unique-Lost in
        let (w', assigns, there) = assigned w.next lost lost w.world res.1 l.there in
        let fails =
          move-lost w.next (record b { storage = some w.next }) w' there refl some_shown word in
        rw
          (
            is,
            e,
            l.is,
            read_lem res.1 w.next lost l.there,
            l.world,
            set_bytes-lost source size b.writer_index w.world,
            assigns,
            fails,
          )
          refl
