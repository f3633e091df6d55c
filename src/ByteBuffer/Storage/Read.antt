-- ===== src/ByteBuffer/Storage/Read.antt =====
-- `ByteBufferStorage::copyBytesTo` copies out as many of the bytes asked for as the block has.
use noctisplanet_foundation.Prelude.{
  take-nil, take-past, drop-past, ℕ, ◌+◌, ◌-◌, ◌≤◌, ◌<◌, ◌≡◌, refl, ap, sym, ◌∙◌, inl, inr, List,
  [], Option, none, some, arith, ltb, leb, ◌==◌, length, ok, Ends, ends, Ends-if, subst, Bool-cases,
  drop, zero, suc, take-append-drop, nil_of_length, ==_iff, length-drop,
}
use noctisplanet_foundation.Memory.{
  Memory, Pointer, pointer, update, splice, ByteBufferAllocator, memmove,
}
use noctisplanet_foundation.Memory.Laws.{Readable, memmove_lem, slice, written, length-slice}
use noctisplanet_foundation.ByteBuffer.Storage.{ByteBufferStorage, copy_bytes_to}
use noctisplanet_foundation.ByteBuffer.Storage.Live.{IsLive, storage}
use noctisplanet_foundation.ByteBuffer.Capacity.{minimum_of}

pub splice-nil : (at : ℕ) (ys : List ℕ) → splice at [] ys ≡ ys
splice-nil at ys = let same : at + 0 ≡ at = omega arith in rw same (take-append-drop at ys)

slice-nil : (from count : ℕ) → slice from count [] ≡ []
slice-nil zero count = take-nil count
slice-nil (suc from) count = take-nil count

-- Asking for no more than there is gives the same bytes.
slice-minimum :
    (from size : ℕ) (xs : List ℕ)
    → slice from (minimum_of size (length xs - from)) xs ≡ slice from size xs
unfolding minimum_of
slice-minimum from size xs = elim (Bool-cases (ltb size (length xs - from))) [
  | inl fewer ↦ rw fewer
  | inr all ↦
      let rest : length (drop from xs) ≡ length xs - from = length-drop from xs in
      rw (all, take-past (length xs - from) (drop from xs) (omega (arith, rest)))
        (sym (take-past size (drop from xs) (ground (arith, rest))))
]

minimum_of-le : (a b : ℕ) → minimum_of a b ≤ b
unfolding minimum_of
minimum_of-le a b = ground arith

-- What `copyBytesTo` leaves: the bytes of the range that the block has, at the destination.
pub record CopiedOut (m : Memory) (d : Pointer) (out zs : List ℕ) (res : ℕ × Memory) : Type 0 where
  pub count : res.0 ≡ length out
  pub regions :
      (q : ℕ) → res.1.regions q ≡ update m.regions d.region (some (splice d.offset out zs)) q

module _ (c : ℕ) (a : ByteBufferAllocator) (m : Memory) (xs : List ℕ) (d : Pointer) (size from : ℕ)
    (zs : List ℕ) (live : m.regions d.region ≡ some zs)
    (fits : d.offset + length (slice from size xs) ≤ length zs) where
  nothing_out : slice from size xs ≡ [] → CopiedOut m d (slice from size xs) zs (0, m)
  nothing_out e =
      rw e (record { count = refl; regions = λ q. ground (arith, live, splice-nil d.offset zs) })

  module _ (r : ℕ) (l : IsLive m (storage (some r) c a) xs) (more : from < c) where
    abbrev count : ℕ
    count = minimum_of size (c - from)

    out-eq : slice from count xs ≡ slice from size xs
    out-eq =
        subst (λ (t : ℕ). slice from (minimum_of size (t - from)) xs ≡ slice from size xs) l.size
          (slice-minimum from size xs)

    length-out : length (slice from size xs) ≡ count
    length-out =
        ap length (sym out-eq)
        ∙ length-slice from count xs (omega (arith, minimum_of-le size (c - from), l.size))

    readable : Readable m (pointer r from) (slice from size xs)
    readable = record {
      all = xs;
      live = l.held;
      within = omega (arith, length-out, minimum_of-le size (c - from), l.size);
      bytes_there = rw length-out out-eq;
    }

    copybytes-ok :
        a.copybytes d (pointer r from) count m
        ≡ ok (written d (pointer r from) (slice from size xs) zs m)
    copybytes-ok =
        l.lawful.copies d (pointer r from) count m
        ∙ (ap (λ n. memmove d (pointer r from) n m) (sym length-out)
            ∙ memmove_lem d (pointer r from) (slice from size xs) zs m readable live fits)

  copy_bytes_to-CopiedOut_at :
      (b : Option ℕ)
      → IsLive m (storage b c a) xs
      → Ends
          (CopiedOut m d (slice from size xs) zs)
          (copy_bytes_to (storage b c a) (some d) size from m)
  unfolding copy_bytes_to minimum_of
  copy_bytes_to-CopiedOut_at none l =
      let no_bytes : xs ≡ [] = cc (l.held) in ends (nothing_out (rw no_bytes (slice-nil from size)))
  copy_bytes_to-CopiedOut_at (some r) l =
      Ends-if (leb c from)
        (λ past.
          ends (nothing_out (rw (drop-past from xs (ground (arith, l.size))) (take-nil size))))
        λ within.
          let more : from < c = ground arith in
          let length-eq = length-out r l more in
          Ends-if (count r l more == 0)
            (λ none_asked.
              ends (nothing_out (nil_of_length _ (length-eq ∙ (==_iff _ 0).0 none_asked))))
            λ _.
              rw (copybytes-ok r l more)
                (ends (record { count = sym length-eq; regions = λ q. refl }))

-- Let a storage be live and hold `xs`, and let the destination be in a live region with room for the
-- bytes of `xs` in the range asked for. Then `copy_bytes_to` ends without undefined behaviour,
-- returns the number of those bytes and writes them at the destination, and changes no other region.
pub copy_bytes_to-CopiedOut :
    (s : ByteBufferStorage) (m : Memory) (xs : List ℕ) (d : Pointer) (size from : ℕ) (zs : List ℕ)
    → IsLive m s xs
    → m.regions d.region ≡ some zs
    → d.offset + length (slice from size xs) ≤ length zs
    → Ends (CopiedOut m d (slice from size xs) zs) (copy_bytes_to s (some d) size from m)
copy_bytes_to-CopiedOut s m xs d size from zs l live fits =
    copy_bytes_to-CopiedOut_at s.capacity s.allocator m xs d size from zs live fits s.bytes l
