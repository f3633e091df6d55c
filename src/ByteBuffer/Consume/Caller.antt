-- ===== src/ByteBuffer/Consume/Caller.antt =====
-- `ByteBuffer::readBytes` to a region of the caller's changes no block of any buffer.
use noctisplanet_foundation.Prelude.{
  ℕ, ◌+◌, ◌≤◌, ◌≡◌, sym, ap, ◌∙◌, List, ◌∷◌, Option, some, length, take, drop, length-take, arith,
  Ends, Ends-weaken,
}
use noctisplanet_foundation.Memory.{pointer, splice}
use noctisplanet_foundation.Memory.Laws.{length-splice}
use noctisplanet_foundation.CopyOnWriteBacked.Counted.{element_at}
use noctisplanet_foundation.ByteBuffer.{World, ByteBuffer, read_bytes}
use noctisplanet_foundation.ByteBuffer.Storage.{ByteBufferStorage}
use noctisplanet_foundation.ByteBuffer.Sound.{Sound, At, Shows, Foreign}
use noctisplanet_foundation.ByteBuffer.Consume.Out.{TakenOut, read_bytes-TakenOut}

module _ (hs : List (Option ℕ)) (region : ℕ) (user : List ℕ) (w : World) (b : ByteBuffer)
    (v : List ℕ) (sound : Sound w (b.storage ∷ hs)) (sh : Shows w b v)
    (foreign : Foreign w region user) (offset count : ℕ) where
  pub record ReadTo (res : ℕ × ByteBuffer × World) : Type 0 where
    pub same : res.1.storage ≡ b.storage
    pub writer : res.1.writer_index ≡ b.writer_index
    pub store : res.2.blocks ≡ w.blocks
    pub count_read : res.0 ≡ length (take count v)
    pub shows : Shows res.2 res.1 (drop count v)
    pub sound_after : Sound res.2 (res.1.storage ∷ hs)
    pub foreign_after : Foreign res.2 region (splice offset (take count v) user)
    pub extent : length (splice offset (take count v) user) ≡ length user
    pub there : (p : ℕ) (t : ByteBufferStorage) (xs : List ℕ) → At w p t xs → At res.2 p t xs

  module _ (within : offset + length (take count v) ≤ length user) (n : ℕ) (b' : ByteBuffer)
      (w' : World) (out : TakenOut w b v sh count (pointer region offset) user (n, b', w')) where
    still_there : (p : ℕ) (t : ByteBufferStorage) (xs : List ℕ) → At w p t xs → At w' p t xs
    still_there p t xs a = out.blocks p t xs (foreign.outside p t a.found) a

    store_same : w'.blocks ≡ w.blocks
    store_same = out.store.0

    same_at : (p : ℕ) → w'.blocks p ≡ w.blocks p
    same_at p = rw store_same

    before :
        (p : ℕ) (t : ByteBufferStorage)
        → element_at (w'.blocks p) ≡ some t
        → element_at (w.blocks p) ≡ some t
    before p t e = ap element_at (sym (same_at p)) ∙ e

    out-Sound : Sound w' (b'.storage ∷ hs)
    out-Sound =
        let c = sound.counted in
        rw out.same (record {
          counted = record {
            counts = λ p x e. c.counts p x (sym (same_at p) ∙ e);
            absent = λ p e. c.absent p (sym (same_at p) ∙ e);
            fresh = λ p h. same_at p ∙ c.fresh p (omega (arith, out.store.1));
            few = c.few;
          };
          live = λ p t e.
              let (xs, l) = sound.live p t (before p t e) in
              (xs, (still_there p t xs (record { found = before p t e; live = l })).live);
          apart =
              λ i j x t u et eu bt bu. sound.apart i j x t u (before i t et) (before j u eu) bt bu;
        })

    out-ReadTo : ReadTo (n, b', w')
    out-ReadTo = record {
      same = out.same;
      writer = out.writer;
      store = store_same;
      count_read = out.count;
      shows = out.shows;
      sound_after = out-Sound;
      foreign_after = record {
        held = ground (arith, out.there region);
        outside = λ p t e. foreign.outside p t (before p t e);
      };
      extent = length-splice offset (take count v) user within;
      there = still_there;
    }

  pub read_bytes-ReadTo :
      offset + count ≤ length user
      → Ends ReadTo (read_bytes b (some (pointer region offset)) count w)
  read_bytes-ReadTo fits =
      let within : offset + length (take count v) ≤ length user =
        omega (arith, length-take count v) in
      Ends-weaken
        (read_bytes-TakenOut w b v sh count (pointer region offset) user foreign.held within
          (foreign.outside sh.block sh.storage sh.there.found))
        λ (n, b', w') out. out-ReadTo within n b' w' out
