-- ===== src/ByteBuffer/Append.antt =====
-- `ByteBuffer::writeBytes` and the two writers of strings append to what the buffer shows.
use noctisplanet_foundation.Prelude.{
  ℕ, ◌+◌, ◌-◌, ◌^◌, ◌≤◌, ◌<◌, ◌≡◌, ◌≢◌, refl, sym, ap, ◌∙◌, ◌⊎◌, inr, List, ◌∷◌, ◌++◌, Option, some,
  length, take, length-take, arith, ok, ◌>>=◌, leb, true, Ends, ends, Ends-bind, subst,
}
use noctisplanet_foundation.Memory.{Pointer}
use noctisplanet_foundation.Memory.Laws.{Readable, slice-splice, slice-prefix, length-splice}
use noctisplanet_foundation.ByteBuffer.{
  World, ByteBuffer, set_unique, capacity, size_t, move_writer_index_forward_by, write_bytes,
}
use noctisplanet_foundation.ByteBuffer.Capacity.{size_max}
use noctisplanet_foundation.ByteBuffer.Storage.{ByteBufferStorage}
use noctisplanet_foundation.ByteBuffer.Sound.{
  Sound, At, Shows, Undisturbed, Alone, Foreign, Foreign-Undisturbed, some_eq,
}
use noctisplanet_foundation.ByteBuffer.Unshare.{CanSplit}
use noctisplanet_foundation.ByteBuffer.Put.{
  Holding, unchanged, put_all, Put, set_unique-Put, read_lem,
}

-- What the count `n` says of the view after an append of `bytes` to a buffer that showed `v`: nothing
-- is written, because there is nothing or the capacity is too small, or all of the bytes are, and the
-- capacity has not become smaller.
pub data Outcome (c at : ℕ) (v bytes : List ℕ) (w' : World) (b' : ByteBuffer) : ℕ → Type 0 where
  nothing_written :
      (length bytes ≡ 0) ⊎ (c < at + length bytes)
      → Shows w' b' v
      → capacity b' w' ≡ ok c
      → Outcome c at v bytes w' b' 0
  all_written :
      (room : ℕ)
      → c ≤ room
      → at + length bytes ≤ room
      → Shows w' b' (v ++ bytes)
      → capacity b' w' ≡ ok room
      → Outcome c at v bytes w' b' (length bytes)

pub record Appended (w : World) (b : ByteBuffer) (c : ℕ) (hs : List (Option ℕ)) (v bytes : List ℕ)
    (res : ℕ × ByteBuffer × World) : Type 0 where
  pub sound : Sound res.2 (res.1.storage ∷ hs)
  pub undisturbed : Undisturbed hs w res.2
  pub reader : res.1.reader_index ≡ b.reader_index
  pub writer : res.1.writer_index ≡ b.writer_index + res.0
  pub outcome : Outcome c b.writer_index v bytes res.2 res.1 res.0
  pub alone : Alone hs res.1
  pub foreign : (r : ℕ) (zs : List ℕ) → Foreign w r zs → Foreign res.2 r zs

pub capacity_lem :
    (b : ByteBuffer) (w : World) (p : ℕ) (s : ByteBufferStorage) (xs : List ℕ)
    → b.storage ≡ some p
    → At w p s xs
    → capacity b w ≡ ok s.capacity
unfolding capacity
capacity_lem b w p s xs e a = rw (e, read_lem w p s a.found)

-- The writer moves to any place within the block.
pub move_writer_lem :
    (b : ByteBuffer) (n : ℕ) (w : World) (p : ℕ) (s : ByteBufferStorage) (xs : List ℕ)
    → b.storage ≡ some p
    → At w p s xs
    → b.writer_index + n ≤ length xs
    → move_writer_index_forward_by b n w ≡ ok (record b { writer_index = b.writer_index + n })
unfolding move_writer_index_forward_by capacity
move_writer_lem b n w p s xs e a h =
    let word : size_t (b.writer_index + n) ≡ b.writer_index + n =
      omega (arith, a.live.size, a.live.bounded) in
    let within : leb (b.writer_index + n) s.capacity ≡ true = ground (arith, a.live.size) in
    rw (e, read_lem w p s a.found, word, within)

module _ (w : World) (b : ByteBuffer) (hs : List (Option ℕ)) (v bytes : List ℕ)
    (sh : Shows w b v) where
  same_room :
      (t : ByteBufferStorage) (w' : World) (q : ℕ)
      → At w' q t sh.all
      → t.capacity ≡ sh.storage.capacity
  same_room t w' q a = omega (arith, a.live.size, sh.there.live.size)

  abbrev advanced : Option ℕ → ℕ → ByteBuffer
  advanced h n = record b { storage = h; writer_index = b.writer_index + n }

  longer : (base : List ℕ) → take (length sh.all) base ≡ sh.all → length sh.all ≤ length base
  longer base prefix = omega (arith, ap length prefix, length-take (length sh.all) base)

  -- The writer moves past what was put, and the buffer shows it.
  shows_put :
      (w' : World) (h : Option ℕ) (n q : ℕ) (t : ByteBufferStorage) (all : List ℕ)
      → h ≡ some q
      → At w' q t all
      → Holding sh.storage.capacity sh.all b.writer_index bytes n all
      → (move_writer_index_forward_by (record b { storage = h }) n w' ≡ ok (advanced h n))
        × Outcome sh.storage.capacity b.writer_index v bytes w' (advanced h n) n
  shows_put w' h n q t all e a (unchanged why) =
      let same : b.writer_index + 0 ≡ b.writer_index = omega arith in
      (
        move_writer_lem (record b { storage = h }) 0 w' q t all e a (omega (arith, sh.within)),
        nothing_written why
            (record {
              block = q;
              storage = t;
              all = all;
              is = e;
              there = a;
              ordered = omega (arith, sh.ordered);
              within = omega (arith, sh.within);
              shown = rw same sh.shown;
            })
            (capacity_lem (advanced h 0) w' q t all e a ∙ ap ok (same_room t w' q a)),
      )
  shows_put w' h n q t all e a (put_all base fits prefix) =
      let size = length-splice b.writer_index bytes base fits in
      (
        move_writer_lem (record b { storage = h }) n w' q t all e a (omega (arith, size)),
        all_written t.capacity
            (omega (arith, a.live.size, size, sh.there.live.size, longer base prefix))
            (omega (arith, a.live.size, size))
            (record {
              block = q;
              storage = t;
              all = all;
              is = e;
              there = a;
              ordered = omega (arith, sh.ordered);
              within = omega (arith, size);
              shown =
                  slice-splice b.reader_index b.writer_index bytes base sh.ordered (omega arith)
                  ∙ ap (λ (xs : List ℕ). xs ++ bytes)
                      (slice-prefix b.reader_index (b.writer_index - b.reader_index) sh.all base
                          prefix (omega (arith, sh.ordered, sh.within))
                        ∙ sh.shown);
            })
            (capacity_lem (advanced h n) w' q t all e a),
      )

  append-Put :
      (res : ℕ × Option ℕ × World)
      → Sound w (b.storage ∷ hs)
      → Put w sh.storage sh.all hs b.writer_index bytes res
      → Ends (Appended w b sh.storage.capacity hs v bytes) (
          move_writer_index_forward_by (record b { storage = res.1 }) res.0 res.2 >>= λ b'.
          ok (res.0, b', res.2))
  append-Put res sound r =
      let (moved, outcome) =
        shows_put res.2 res.1 res.0 r.block r.storage r.all r.is r.there r.holding in
      rw moved (
        ends (record {
          sound = subst (λ (h : Option ℕ). Sound res.2 (h ∷ hs)) (sym r.is) r.sound;
          undisturbed = r.undisturbed;
          reader = refl;
          writer = refl;
          outcome = outcome;
          alone = λ q e. rw (some_eq (sym e ∙ r.is)) r.alone;
          foreign = λ x zs f.
              let own = f.outside sh.block sh.storage sh.there.found in
              let (held, ne) = r.regions x zs f.held own in
              Foreign-Undisturbed w res.2 b.storage hs r.block r.storage r.all sound r.sound r.there
                r.undisturbed x zs f held ne;
        }))

  -- In a sound world, let a buffer show `v` and let fewer than 2 ^ 32 - 2 other references be held;
  -- if its block is shared, let the block have no memory or the allocation for the copy succeed; let
  -- the source be readable, of at most 2 ^ 64 - 1 bytes, and lie outside the buffer's own block. Then
  -- `write_bytes` ends without undefined behaviour or a failed assertion. Either it returns 0 and the
  -- buffer still shows `v` and has the capacity it had, which only happens if there are no bytes to
  -- write or they do not fit into that capacity; or it returns their number and the buffer shows `v`
  -- followed by them, in a capacity that is no smaller. The world is sound again, the reader cursor
  -- has not moved, the writer cursor has moved by the number returned, no other reference points to
  -- the buffer's block, a region that belonged to no block still holds what it did and belongs to
  -- none, and every block that another reference points to is and holds what it was and held.
  pub write_bytes-Appended :
      (from : Pointer)
      → Sound w (b.storage ∷ hs)
      → length hs + 2 < 2 ^ 32
      → CanSplit w sh.block sh.storage hs
      → Readable w.world from bytes
      → length bytes ≤ size_max
      → sh.storage.bytes ≢ some from.region
      → Ends
          (Appended w b sh.storage.capacity hs v bytes)
          (write_bytes b (some from) (length bytes) w)
  unfolding write_bytes
  write_bytes-Appended from sound few can readable word apart =
      let sound' = subst (λ (h : Option ℕ). Sound w (h ∷ hs)) sh.is sound in
      let put =
        set_unique-Put w hs sh.block sh.storage sh.all sound' sh.there few can (λ _. ok (some from))
          (λ _. from) bytes b.writer_index word
          λ res o.
            let (kept, outside) = o.regions from.region readable.all readable.live apart in
            (
              refl,
              record {
                all = readable.all;
                live = kept;
                within = readable.within;
                bytes_there = readable.bytes_there;
              },
              inr outside,
            ) in
      Ends-bind
        (subst
          (λ (h : Option ℕ).
            Ends (Put w sh.storage sh.all hs b.writer_index bytes)
              (set_unique h (λ _. ok (some from)) (length bytes) b.writer_index w))
          (sym sh.is) put)
        λ res r. append-Put res sound r
