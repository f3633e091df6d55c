-- ===== src/ByteBuffer/Storage/Write.antt =====
-- `ByteBufferStorage::setBytes` overwrites a range of the block, which it first grows if it has to.
use noctisplanet_foundation.Prelude.{
  take-all, ℕ, ◌+◌, ◌-◌, ◌≤◌, ◌<◌, ◌≡◌, ◌≢◌, refl, ◌∙◌, ◌⊎◌, inl, inr, Bool, List, none, some,
  arith, ltb, ◌==◌, if◌then◌else◌, length, take, ok, Ends, ends, Ends-bind, Ends-if, Bool-cases,
}
use noctisplanet_foundation.Memory.{Memory, Pointer, pointer, splice}
use noctisplanet_foundation.Memory.Laws.{Readable, memmove_lem, written, length-splice}
use noctisplanet_foundation.ByteBuffer.Capacity.{size_max}
use noctisplanet_foundation.ByteBuffer.Storage.{ByteBufferStorage, set_reserved, set_bytes}
use noctisplanet_foundation.ByteBuffer.Storage.Live.{IsLive, Keeps}
use noctisplanet_foundation.ByteBuffer.Storage.Reserve.{
  Reserved, refused, enough, moved, reserve-Reserved,
}

-- Either nothing is written and no region is changed, for want of bytes, of a block or of room in it;
-- or all the bytes stand at `at`, in a block that begins with the old bytes but for those overwritten.
pub data Written (s : ByteBufferStorage) (m : Memory) (xs : List ℕ) (at : ℕ) (bytes : List ℕ)
    : ℕ × ByteBufferStorage × Memory → Type 0 where
  nothing :
      {m' : Memory}
      → (length bytes ≡ 0) ⊎ ((s.bytes ≡ none) ⊎ (s.capacity < at + length bytes))
      → ((q : ℕ) → m'.regions q ≡ m.regions q)
      → Written s m xs at bytes (0, s, m')
  everything :
      {s' : ByteBufferStorage} {m' : Memory} (base : List ℕ)
      → 0 < length bytes
      → at + length bytes ≤ length base
      → take (length xs) base ≡ xs
      → IsLive m' s' (splice at bytes base)
      → Keeps m s.bytes m' s'.bytes
      → s'.allocator ≡ s.allocator
      → Written s m xs at bytes (length bytes, s', m')

module _ (s : ByteBufferStorage) (m : Memory) (ys : List ℕ) (r : ℕ) (source : Pointer)
    (bytes : List ℕ) (at : ℕ) (e : s.bytes ≡ some r) (l : IsLive m s ys)
    (fits : at + length bytes ≤ length ys) where
  here : m.regions r ≡ some ys
  here = rw e at l.held

  set_reserved-ok :
      Readable m source bytes
      → set_reserved s source (length bytes) at m
        ≡ ok (length bytes, s, written (pointer r at) source bytes ys m)
  unfolding set_reserved
  set_reserved-ok readable = rw (
    e,
    l.lawful.copies (pointer r at) source (length bytes) m,
    memmove_lem (pointer r at) source bytes ys m readable here fits,
  )

  written-IsLive : IsLive (written (pointer r at) source bytes ys m) s (splice at bytes ys)
  written-IsLive = record {
    held = rw e (ground arith);
    size = length-splice at bytes ys fits ∙ l.size;
    bounded = l.bounded;
    lawful = l.lawful;
  }

  written-keeps :
      (q : ℕ) (zs : List ℕ)
      → m.regions q ≡ some zs
      → s.bytes ≢ some q
      → (written (pointer r at) source bytes ys m).regions q ≡ some zs
  written-keeps q zs h ne = ground (arith, e)

module _ (s : ByteBufferStorage) (m : Memory) (xs : List ℕ) (at : ℕ) (source : Pointer)
    (bytes : List ℕ) (l : IsLive m s xs) (readable : Readable m source bytes)
    (apart : (at + length bytes ≤ s.capacity) ⊎ (s.bytes ≢ some source.region))
    (some_bytes : 0 < length bytes) (word : length bytes ≤ size_max) where
  after_reserve :
      (reserved : Bool) (s' : ByteBufferStorage) (m' : Memory)
      → Reserved s m xs (at + length bytes) (reserved, s', m')
      → Ends
          (Written s m xs at bytes)
          (if reserved then set_reserved s' source (length bytes) at m' else ok (0, s', m'))
  after_reserve reserved s' m' (refused why failed same) = ends (nothing (inr why) same)
  after_reserve reserved s' m' (enough {r} e room) =
      let fits : at + length bytes ≤ length xs = omega (arith, l.size) in
      rw (set_reserved-ok s m xs r source bytes at e l fits readable) (
        ends (
          everything xs some_bytes fits (take-all xs)
            (written-IsLive s m xs r source bytes at e l fits)
            (λ q zs h ne. (written-keeps s m xs r source bytes at e l fits q zs h ne, ne)) refl))
  after_reserve reserved s' m' (moved {r} ys why e rounded room l' prefix keeps same) =
      let fits : at + length bytes ≤ length ys = omega (arith, l'.size) in
      let outside : s.bytes ≢ some source.region = ground arith in
      let there : Readable m' source bytes = record {
        all = readable.all;
        live = (keeps source.region readable.all readable.live outside).0;
        within = readable.within;
        bytes_there = readable.bytes_there;
      } in
      rw (set_reserved-ok s' m' ys r source bytes at e l' fits there) (
        ends (
          everything ys some_bytes fits prefix (written-IsLive s' m' ys r source bytes at e l' fits)
            (λ q zs h ne.
              let (kept, other) = keeps q zs h ne in
              (written-keeps s' m' ys r source bytes at e l' fits q zs kept other, other))
            same))

  set_bytes-Written-some :
      Ends (Written s m xs at bytes) (set_bytes s (some source) (length bytes) at m)
  unfolding set_bytes
  set_bytes-Written-some =
      Ends-if (length bytes == 0) (λ none_given. absurd (ground arith))
        λ _.
          Ends-if (ltb (size_max - length bytes) at)
            (λ wraps. ends (nothing (inr (inr (ground (arith, l.bounded)))) (λ q. refl)))
            λ no_wrap.
              Ends-bind (reserve-Reserved s (at + length bytes) m xs (ground arith) l)
                λ (reserved, s', m') got. after_reserve reserved s' m' got

-- Let a storage be live and hold `xs`, let `bytes` be readable at the source, at most 2 ^ 64 - 1 of
-- them, and let them fit into the capacity at `at` or the source lie outside the storage's block.
-- Then `set_bytes` ends without undefined behaviour. Either it returns 0 and changes neither the
-- storage nor any region, which only happens if `bytes` is empty, there is no block or the capacity
-- is too small; or it returns the number of bytes, and the storage is live and holds bytes that begin
-- with `xs` but for `bytes` at `at`, with the same allocator, every other live region as it was.
pub set_bytes-Written :
    (s : ByteBufferStorage) (m : Memory) (xs : List ℕ) (at : ℕ) (source : Pointer) (bytes : List ℕ)
    → IsLive m s xs
    → Readable m source bytes
    → length bytes ≤ size_max
    → (at + length bytes ≤ s.capacity) ⊎ (s.bytes ≢ some source.region)
    → Ends (Written s m xs at bytes) (set_bytes s (some source) (length bytes) at m)
unfolding set_bytes
set_bytes-Written s m xs at source bytes l readable word apart =
    elim (Bool-cases (length bytes == 0)) [
      | inl none_given ↦ rw none_given (ends (nothing (inl (ground arith)) λ q. refl))
      | inr some_given ↦
          set_bytes-Written-some s m xs at source bytes l readable apart (ground arith) word
    ]
