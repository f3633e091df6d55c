-- ===== src/ByteBuffer/Consume/Out.antt =====
-- `ByteBuffer::readBytes` copies bytes off the front of what is shown to a destination.
use noctisplanet_foundation.Prelude.{
  ℕ, ◌+◌, ◌≤◌, ◌≡◌, ◌≢◌, refl, sym, ap, ◌∙◌, List, Option, none, some, length, take, drop, arith,
  ok, ◌>>=◌, ◌==◌, Ends, ends, Ends-bind, Ends-if, subst,
}
use noctisplanet_foundation.Memory.{Memory, Pointer, splice, update}
use noctisplanet_foundation.Memory.Laws.{slice}
use noctisplanet_foundation.ByteBuffer.{World, ByteBuffer, move_reader_index_forward_by, read_bytes}
use noctisplanet_foundation.ByteBuffer.Storage.{ByteBufferStorage}
use noctisplanet_foundation.ByteBuffer.Storage.Live.{contents}
use noctisplanet_foundation.ByteBuffer.Storage.Read.{splice-nil, CopiedOut, copy_bytes_to-CopiedOut}
use noctisplanet_foundation.ByteBuffer.Sound.{At, Shows}
use noctisplanet_foundation.ByteBuffer.Consume.{
  move_reader_lem, readable_bytes-length, asked, asked-le, asked-length, rest-Shows, none_taken,
  asked-slice, storage_read,
}

contents-elsewhere :
    (m m' : Memory) (r : ℕ) (new : Option (List ℕ)) (o : Option ℕ)
    → ((q : ℕ) → m'.regions q ≡ update m.regions r new q)
    → o ≢ some r
    → contents m' o ≡ contents m o
contents-elsewhere m m' r new none e ne = refl
contents-elsewhere m m' r new (some q) e ne = ground (arith, e q)

module _ (w : World) (b : ByteBuffer) (v : List ℕ) (sh : Shows w b v) (n : ℕ) where
  -- What `readBytes` leaves: the bytes at the destination, the rest still to be read, and every block
  -- as it was.
  pub record TakenOut (d : Pointer) (zs : List ℕ) (res : ℕ × ByteBuffer × World) : Type 0 where
    pub same : res.1.storage ≡ b.storage
    pub writer : res.1.writer_index ≡ b.writer_index
    pub store : (res.2.blocks ≡ w.blocks) × (res.2.next ≡ w.next)
    pub count : res.0 ≡ length (take n v)
    pub shows : Shows res.2 res.1 (drop n v)
    pub blocks :
        (q : ℕ) (t : ByteBufferStorage) (xs : List ℕ)
        → t.bytes ≢ some d.region
        → At w q t xs
        → At res.2 q t xs
    pub there :
        (q : ℕ)
        → res.2.world.regions q
          ≡ update w.world.regions d.region (some (splice d.offset (take n v) zs)) q

  module _ (d : Pointer) (zs : List ℕ) (apart : sh.storage.bytes ≢ some d.region) (res : ℕ × Memory)
      (out : CopiedOut w.world d (slice b.reader_index (asked w b v sh n) sh.all) zs res) where
    kept :
        (q : ℕ) (t : ByteBufferStorage) (xs : List ℕ)
        → t.bytes ≢ some d.region
        → At w q t xs
        → At (record w { world = res.1 }) q t xs
    kept q t xs ne a = record {
      found = a.found;
      live = record {
        held = contents-elsewhere w.world res.1 d.region _ t.bytes out.regions ne ∙ a.live.held;
        size = a.live.size;
        bounded = a.live.bounded;
        lawful = a.live.lawful;
      };
    }

    copied_out :
        Ends (TakenOut d zs) (
          move_reader_index_forward_by b res.0 >>= λ b'. ok (res.0, b', record w { world = res.1 }))
    copied_out =
        let count : res.0 ≡ asked w b v sh n =
          out.count ∙ (ap length (asked-slice w b v sh n) ∙ sym (asked-length w b v sh n)) in
        rw (count, move_reader_lem w b v sh (asked w b v sh n) (asked-le w b v sh n))
          (ends (record {
            same = refl;
            writer = refl;
            store = (refl, refl);
            count = asked-length w b v sh n;
            shows =
                rest-Shows w b v sh n (record w { world = res.1 })
                  (kept sh.block sh.storage sh.all apart sh.there);
            blocks = kept;
            there = λ q. rw (sym (asked-slice w b v sh n)) (out.regions q);
          }))

  -- Let a buffer show `v`, and let the destination be a live region with room for the first `n` bytes
  -- of `v`, other than the buffer's block. Then `read_bytes` ends without undefined behaviour or a
  -- failed assertion and returns the number of those bytes; they are at the destination and every
  -- other region is as it was; the buffer shows the rest, in the same block and with its writer
  -- cursor where it was; the store of blocks is the same, and every block whose memory is not the
  -- destination is and holds what it was and held.
  pub read_bytes-TakenOut :
      (d : Pointer) (zs : List ℕ)
      → w.world.regions d.region ≡ some zs
      → d.offset + length (take n v) ≤ length zs
      → sh.storage.bytes ≢ some d.region
      → Ends (TakenOut d zs) (read_bytes b (some d) n w)
  unfolding read_bytes
  read_bytes-TakenOut d zs held fits apart = rw (readable_bytes-length w b v sh) (
      Ends-if ((asked w b v sh n) == 0)
        (λ zero_asked.
          let (nothing, all) = none_taken w b v sh n (ground arith) in
          ends (record {
            same = refl;
            writer = refl;
            store = (refl, refl);
            count = rw nothing;
            shows = subst (Shows w b) (sym all) sh;
            blocks = λ q t xs _ a. a;
            there = λ q. rw nothing (ground (arith, held, splice-nil d.offset zs));
          }))
        (λ some_asked. rw (storage_read w b v sh) (
          Ends-bind
            (copy_bytes_to-CopiedOut sh.storage w.world sh.all d (asked w b v sh n) b.reader_index
              zs sh.there.live held (rw (asked-slice w b v sh n) fits))
            λ res out. copied_out d zs apart res out)))
