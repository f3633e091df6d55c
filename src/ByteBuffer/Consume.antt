-- ===== src/ByteBuffer/Consume.antt =====
-- `ByteBuffer::readString` and `skipBytes` take bytes off the front of what is shown.
pub mod Out
pub mod Caller
use noctisplanet_foundation.Prelude.{
  ℕ, ◌+◌, ◌-◌, ◌≤◌, ◌<◌, ◌≡◌, ◌≢◌, refl, sym, ap, ◌∙◌, inl, inr, List, [], Option, none, some,
  length, take, drop, arith, ok, ◌>>=◌, ltb, leb, ◌==◌, true, Ends, ends, Ends-bind, Ends-if, subst,
  take-past, drop-past, take-take, drop-take, drop-drop, length-take, Option-cases, Bool-cases,
}
use noctisplanet_foundation.Memory.{Memory, Pointer, pointer, advance, splice, update, load}
use noctisplanet_foundation.Memory.Laws.{slice, length-slice}
use noctisplanet_foundation.CopyOnWriteBacked.{read}
use noctisplanet_foundation.ByteBuffer.{
  World, ByteBuffer, size_t, readable_bytes, move_reader_index_forward_by, skip_bytes, read_string,
  read_bytes, readable_bytes_view,
}
use noctisplanet_foundation.ByteBuffer.Capacity.{minimum_of}
use noctisplanet_foundation.ByteBuffer.Storage.{ByteBufferStorage}
use noctisplanet_foundation.ByteBuffer.Storage.Live.{contents}
use noctisplanet_foundation.ByteBuffer.Storage.Read.{splice-nil, CopiedOut, copy_bytes_to-CopiedOut}
use noctisplanet_foundation.ByteBuffer.Sound.{some_eq, At, Shows}
use noctisplanet_foundation.ByteBuffer.Put.{read_lem}

-- Asking for more than there is takes all there is.
take-minimum : (n : ℕ) (v : List ℕ) → take (minimum_of n (length v)) v ≡ take n v
unfolding minimum_of
take-minimum n v = elim (Bool-cases (ltb n (length v))) [
  | inl less ↦ rw less
  | inr more ↦ rw more (take-past (length v) v (omega arith) ∙ sym (take-past n v (ground arith)))
]

drop-minimum : (n : ℕ) (v : List ℕ) → drop (minimum_of n (length v)) v ≡ drop n v
unfolding minimum_of
drop-minimum n v = elim (Bool-cases (ltb n (length v))) [
  | inl less ↦ rw less
  | inr more ↦ rw more (drop-past (length v) v (omega arith) ∙ sym (drop-past n v (ground arith)))
]

minimum_of-le : (a b : ℕ) → minimum_of a b ≤ b
unfolding minimum_of
minimum_of-le a b = ground arith

-- Of a buffer whose reader has moved, `v` is left; it has the same block, and the writer is where it was.
pub record Left (w : World) (b : ByteBuffer) (v : List ℕ) (b' : ByteBuffer) : Type 0 where
  pub shows : Shows w b' v
  pub same : b'.storage ≡ b.storage
  pub writer : b'.writer_index ≡ b.writer_index

module _ (w : World) (b : ByteBuffer) (v : List ℕ) (sh : Shows w b v) where
  pub length-shown : length v ≡ b.writer_index - b.reader_index
  length-shown =
      ap length (sym sh.shown)
      ∙ length-slice b.reader_index (b.writer_index - b.reader_index) sh.all
          (omega (arith, sh.ordered, sh.within))

  -- `readableBytes` counts the bytes shown.
  pub readable_bytes-length : readable_bytes b ≡ length v
  unfolding readable_bytes
  readable_bytes-length = ground (arith, length-shown)

  abbrev pub past : ℕ → ByteBuffer
  past c = record b { reader_index = b.reader_index + c }

  pub move_reader_lem : (c : ℕ) → c ≤ length v → move_reader_index_forward_by b c ≡ ok (past c)
  unfolding move_reader_index_forward_by
  move_reader_lem c h =
      let word : size_t (b.reader_index + c) ≡ b.reader_index + c =
        omega
          (arith, sh.there.live.size, sh.there.live.bounded, sh.within, length-shown, sh.ordered) in
      let within : leb (b.reader_index + c) b.writer_index ≡ true =
        ground (arith, length-shown, sh.ordered) in
      rw (word, within)

  past-Shows :
      (w' : World) (c : ℕ)
      → At w' sh.block sh.storage sh.all
      → c ≤ length v
      → Shows w' (past c) (drop c v)
  past-Shows w' c there h = record {
    block = sh.block;
    storage = sh.storage;
    all = sh.all;
    is = sh.is;
    there = there;
    ordered = omega (arith, length-shown, sh.ordered);
    within = sh.within;
    shown =
        let fewer : b.writer_index - (b.reader_index + c) ≡ b.writer_index - b.reader_index - c =
          omega arith in
        rw (fewer, drop-drop b.reader_index c sh.all)
          (sym (drop-take c (b.writer_index - b.reader_index) (drop b.reader_index sh.all))
            ∙ ap (drop c) sh.shown);
  }

  pub storage_read : read b.storage w ≡ ok sh.storage
  storage_read = rw sh.is (read_lem w sh.block sh.storage sh.there.found)

  view_lem :
      (r : ℕ)
      → sh.storage.bytes ≡ some r
      → readable_bytes_view b w ≡ ok (some (advance (pointer r 0) b.reader_index))
  unfolding readable_bytes_view
  view_lem r e = rw (storage_read, e)

  module _ (n : ℕ) where
    abbrev pub asked : ℕ
    asked = minimum_of n (length v)

    pub asked-le : asked ≤ length v
    asked-le = minimum_of-le n (length v)

    pub asked-length : asked ≡ length (take n v)
    unfolding minimum_of
    asked-length = ground (arith, length-take n v)

    pub rest-Shows :
        (w' : World) → At w' sh.block sh.storage sh.all → Shows w' (past asked) (drop n v)
    rest-Shows w' there =
        subst (Shows w' (past asked)) (drop-minimum n v) (past-Shows w' asked there asked-le)

    rest-Left : Left w b (drop n v) (past asked)
    rest-Left = record { shows = rest-Shows w sh.there; same = refl; writer = refl }

    -- When none are taken, none were asked for or none are left.
    pub none_taken : asked ≡ 0 → (take n v ≡ []) × (drop n v ≡ v)
    none_taken e = (
      sym (take-minimum n v) ∙ ap (λ c. take c v) e,
      sym (drop-minimum n v) ∙ ap (λ c. drop c v) e,
    )

    pub asked-slice : slice b.reader_index asked sh.all ≡ take n v
    asked-slice =
        sym (
          take-take asked (b.writer_index - b.reader_index) (drop b.reader_index sh.all)
            (omega (arith, length-shown, asked-le)))
        ∙ (ap (take asked) sh.shown ∙ take-minimum n v)

    load-asked :
        (r : ℕ)
        → sh.storage.bytes ≡ some r
        → load (advance (pointer r 0) b.reader_index) asked w.world ≡ ok (take n v)
    unfolding load
    load-asked r e =
        let held : w.world.regions r ≡ some sh.all =
          subst (λ (o : Option ℕ). contents w.world o ≡ some sh.all) e sh.there.live.held in
        let within : leb (b.reader_index + asked) (length sh.all) ≡ true =
          ground (arith, asked-le, length-shown, sh.ordered, sh.within) in
        let start : 0 + b.reader_index ≡ b.reader_index = omega arith in
        rw (held, start, within, asked-slice)

    -- A buffer that shows bytes has memory.
    region : 0 < length v → (r : ℕ) × (sh.storage.bytes ≡ some r)
    region more = elim (Option-cases sh.storage.bytes) [
      | inl no_block ↦
          let empty : sh.all ≡ [] =
            some_eq (sym sh.there.live.held ∙ ap (contents w.world) no_block) in
          absurd (omega (arith, ap length empty, length-shown, sh.within, sh.ordered))
      | inr found ↦ found
    ]

    -- `skip_bytes` drops the first bytes shown, and returns how many.
    pub skip_bytes-drop :
        Ends (λ (count, b'). (count ≡ length (take n v)) × Left w b (drop n v) b') (skip_bytes b n)
    unfolding skip_bytes
    skip_bytes-drop =
        rw (readable_bytes-length, move_reader_lem asked asked-le) (ends (asked-length, rest-Left))

    -- If a buffer shows `v`, then `read_string` of `n` ends without undefined behaviour or a failed
    -- assertion, returns the first `n` bytes of `v`, all of them if there are fewer, and the buffer
    -- then shows the rest, in the same block and with its writer cursor where it was.
    pub read_string-take :
        Ends (λ (string, b'). (string ≡ take n v) × Left w b (drop n v) b') (read_string b n w)
    unfolding read_string
    read_string-take = rw readable_bytes-length (
        Ends-if (asked == 0)
          (λ zero_asked.
            let (nothing, all) = none_taken (ground arith) in
            ends (
              sym nothing,
              record { shows = subst (Shows w b) (sym all) sh; same = refl; writer = refl },
            ))
          (λ some_asked.
            let (r, e) = region (ground (arith, asked-le)) in
            rw (view_lem r e, load-asked r e, move_reader_lem asked asked-le)
              (ends (refl, rest-Left))))
