-- ===== src/ByteBuffer/Discard.antt =====
-- `ByteBuffer::discardReadBytes` moves what is shown to the front of the block.
use noctisplanet_foundation.Prelude.{
  ℕ, ◌+◌, ◌-◌, ◌^◌, ◌≤◌, ◌<◌, ◌≡◌, refl, sym, ap, ◌∙◌, inl, inr, List, [], ◌∷◌, Option, none, some,
  length, length-take, arith, Run, ok, ◌>>=◌, present, ltb, ◌==◌, Ends, ends, Ends-bind, Ends-if,
  subst, nil_of_length, Option-cases, ==_iff,
}
use noctisplanet_foundation.Memory.{Pointer, pointer, splice}
use noctisplanet_foundation.Memory.Laws.{slice, slice-splice, length-splice}
use noctisplanet_foundation.ByteBuffer.{World, ByteBuffer, set_unique, capacity, discard_read_bytes}
use noctisplanet_foundation.ByteBuffer.Storage.{ByteBufferStorage}
use noctisplanet_foundation.ByteBuffer.Storage.Live.{contents}
use noctisplanet_foundation.ByteBuffer.Sound.{
  some_eq, Sound, Shows, Undisturbed, Alone, Foreign, Foreign-Undisturbed,
}
use noctisplanet_foundation.ByteBuffer.Append.{capacity_lem}
use noctisplanet_foundation.ByteBuffer.Unshare.{CanSplit}
use noctisplanet_foundation.ByteBuffer.Put.{Holding, unchanged, put_all, Put, Given, set_unique-Put}
use noctisplanet_foundation.ByteBuffer.Consume.{length-shown, readable_bytes-length}

-- What a discard leaves: the same bytes are shown, now from the front of the block.
pub record Discarded (w : World) (b : ByteBuffer) (c : ℕ) (hs : List (Option ℕ)) (v : List ℕ)
    (res : ByteBuffer × World) : Type 0 where
  pub sound : Sound res.1 (res.0.storage ∷ hs)
  pub undisturbed : Undisturbed hs w res.1
  pub shows : Shows res.1 res.0 v
  pub reader : res.0.reader_index ≡ 0
  pub writer : res.0.writer_index ≡ length v
  pub room : (n : ℕ) × (c ≤ n) × (capacity res.0 res.1 ≡ ok n)
  pub alone : Alone hs b → Alone hs res.0
  pub foreign : (r : ℕ) (zs : List ℕ) → Foreign w r zs → Foreign res.1 r zs

abbrev region_of : Option ℕ → ℕ
region_of none = 0
region_of (some r) = r

module _ (w : World) (b : ByteBuffer) (hs : List (Option ℕ)) (v : List ℕ) (sh : Shows w b v) where
  abbrev view : ByteBufferStorage → Pointer
  view s = pointer (region_of s.bytes) b.reader_index

  abbrev view_source : ByteBufferStorage → Run (Option Pointer)
  view_source s = present s.bytes >>= λ r. ok (some (pointer r b.reader_index))

  -- The buffer at the front of the block `h`.
  abbrev front : Option ℕ → ByteBuffer
  front h = record { reader_index = 0; writer_index = length v; storage = h }

  given : 0 < length v → Given w hs sh.block sh.storage sh.all view_source view v 0
  given more res o = elim (Option-cases o.storage.bytes) [
    | inl no_block ↦
        let empty : sh.all ≡ [] =
          some_eq (sym o.at.live.held ∙ ap (contents res.1.world) no_block) in
        absurd (omega (arith, ap length empty, length-shown w b v sh, sh.within))
    | inr (r, e) ↦
        let size = length-shown w b v sh in
        let held : res.1.world.regions r ≡ some sh.all =
          subst (λ (t : Option ℕ). contents res.1.world t ≡ some sh.all) e o.at.live.held in
        let same : region_of o.storage.bytes ≡ r = ap region_of e in
        (
          rw e,
          record {
            all = sh.all;
            live = rw same held;
            within = omega (arith, size, sh.within, sh.ordered);
            bytes_there = rw size sh.shown;
          },
          inl (omega (arith, size, sh.within, o.at.live.size)),
        )
  ]

  module _ (more : 0 < length v) where
    -- The block has room for what it shows, so all of it is put at the front.
    front_shown :
        (n : ℕ) (all : List ℕ)
        → Holding sh.storage.capacity sh.all 0 v n all
        → (length sh.all ≤ length all) × (length v ≤ length all) × (slice 0 (length v - 0) all ≡ v)
    front_shown n all (unchanged (inl empty)) = absurd (omega arith)
    front_shown n all (unchanged (inr small)) =
        absurd (omega (arith, sh.there.live.size, sh.within, length-shown w b v sh))
    front_shown n all (put_all base fits prefix) =
        let start : 0 + length v ≡ length v = omega arith in
        let size = length-splice 0 v base fits in
        (
          omega (arith, size, ap length prefix, length-take (length sh.all) base),
          omega (arith, size),
          subst (λ c. slice 0 (c - 0) (splice 0 v base) ≡ v) start
              (slice-splice 0 0 v base (omega arith) (omega arith)),
        )

  moved_front :
      (res : ℕ × Option ℕ × World)
      → Sound w (b.storage ∷ hs)
      → 0 < length v
      → Put w sh.storage sh.all hs 0 v res
      → Discarded w b sh.storage.capacity hs v (front res.1, res.2)
  moved_front res sound more r = record {
    sound = subst (λ (h : Option ℕ). Sound res.2 (h ∷ hs)) (sym r.is) r.sound;
    undisturbed = r.undisturbed;
    shows = record {
      block = r.block;
      storage = r.storage;
      all = r.all;
      is = r.is;
      there = r.there;
      ordered = omega arith;
      within = (front_shown more res.0 r.all r.holding).1;
      shown = (front_shown more res.0 r.all r.holding).2;
    };
    reader = refl;
    writer = refl;
    room = (
      r.storage.capacity,
      omega (
        arith,
        (front_shown more res.0 r.all r.holding).0,
        r.there.live.size,
        sh.there.live.size,
      ),
      capacity_lem (front res.1) res.2 r.block r.storage r.all r.is r.there,
    );
    alone = λ _ q e. rw (some_eq (sym e ∙ r.is)) r.alone;
    foreign = λ x zs f.
        let own = f.outside sh.block sh.storage sh.there.found in
        let (held, ne) = r.regions x zs f.held own in
        Foreign-Undisturbed w res.2 b.storage hs r.block r.storage r.all sound r.sound r.there
          r.undisturbed x zs f held ne;
  }

  -- A buffer that shows nothing only moves its cursors.
  nothing_left :
      Sound w (b.storage ∷ hs)
      → length v ≡ 0
      → Discarded w b sh.storage.capacity hs v (front b.storage, w)
  nothing_left sound e = record {
    sound = sound;
    undisturbed = λ q t zs _ a. a;
    shows = record {
      block = sh.block;
      storage = sh.storage;
      all = sh.all;
      is = sh.is;
      there = sh.there;
      ordered = omega arith;
      within = omega arith;
      shown = rw (nil_of_length v e);
    };
    reader = refl;
    writer = refl;
    room = (
      sh.storage.capacity,
      omega arith,
      capacity_lem (front b.storage) w sh.block sh.storage sh.all sh.is sh.there,
    );
    alone = λ a. a;
    foreign = λ x zs f. f;
  }

  -- In a sound world, let a buffer show `v`, let fewer than 2 ^ 32 - 2 other references be held, and
  -- if the buffer's block is shared, let the block have no memory or the allocation for the copy
  -- succeed. Then `discard_read_bytes` ends without undefined behaviour; the buffer shows `v` again,
  -- its reader cursor is 0 and its writer cursor the length of `v`, its capacity is no smaller, and
  -- if no other reference pointed to its block none does now; the world is sound, a region that
  -- belonged to no block still holds what it did and belongs to none, and every block that another
  -- reference points to is and holds what it was and held.
  pub discard_read_bytes-Discarded :
      Sound w (b.storage ∷ hs)
      → length hs + 2 < 2 ^ 32
      → CanSplit w sh.block sh.storage hs
      → Ends (Discarded w b sh.storage.capacity hs v) (discard_read_bytes b w)
  unfolding discard_read_bytes
  discard_read_bytes-Discarded sound few can =
      let size = length-shown w b v sh in
      let put = λ (more : 0 < length v).
        subst
          (λ (h : Option ℕ).
            Ends (Put w sh.storage sh.all hs 0 v) (set_unique h view_source (length v) 0 w))
          (sym sh.is)
          (set_unique-Put w hs sh.block sh.storage sh.all
            (subst (λ (h : Option ℕ). Sound w (h ∷ hs)) sh.is sound) sh.there few can view_source
            view v 0 (omega (arith, size, sh.within, sh.there.live.size, sh.there.live.bounded))
            (given more)) in
      rw (readable_bytes-length w b v sh) (
        Ends-if (b.reader_index == 0)
          (λ at_front. ends (record {
            sound = sound;
            undisturbed = λ q t zs _ a. a;
            shows = sh;
            reader = (==_iff b.reader_index 0).0 at_front;
            writer = ground (arith, size, sh.ordered);
            room = (
              sh.storage.capacity,
              omega arith,
              capacity_lem b w sh.block sh.storage sh.all sh.is sh.there,
            );
            alone = λ a. a;
            foreign = λ x zs f. f;
          }))
          λ _.
            Ends-bind {P = λ (h, w'). Discarded w b sh.storage.capacity hs v (front h, w')}
              (Ends-if (ltb 0 (length v))
                (λ more.
                  Ends-bind (put (ground arith))
                    λ res r. ends (moved_front res sound (ground arith) r))
                (λ nothing. ends (nothing_left sound (ground arith))))
              λ res d. ends d)
