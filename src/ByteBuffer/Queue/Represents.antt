-- ===== src/ByteBuffer/Queue/Represents.antt =====
-- When a buffer is a queue, and that a write does what the queue allows.
use noctisplanet_foundation.Prelude.{
  ℕ, ◌+◌, ◌^◌, ◌≤◌, ◌<◌, ◌≡◌, ◌≢◌, refl, sym, ap, ◌∙◌, inl, inr, false, List, ◌∷◌, ◌++◌, drop,
  Option, some, length, length-drop, arith, ◌==◌, ok, Ends, ends, Ends-bind, subst,
}
use noctisplanet_foundation.Memory.{pointer}
use noctisplanet_foundation.Memory.Laws.{slice, length-slice, Readable}
use noctisplanet_foundation.CopyOnWriteBacked.{read}
use noctisplanet_foundation.ByteBuffer.{
  World, ByteBuffer, write_bytes, write_string, string_length, strlen, write_c_string, capacity,
}
use noctisplanet_foundation.ByteBuffer.Capacity.{size_max}
use noctisplanet_foundation.ByteBuffer.Sound.{Sound, Shows, Undisturbed, Alone, Foreign}
use noctisplanet_foundation.ByteBuffer.Unshare.{CanSplit}
use noctisplanet_foundation.ByteBuffer.Append.{
  Outcome, nothing_written, all_written, Appended, capacity_lem, write_bytes-Appended,
}
use noctisplanet_foundation.ByteBuffer.Queue.{
  Operation, write_from, write_text, write_c, CString, nul, char, Writes, as_bytes, as_string,
  as_c_string, Answer, number, perform, Queue, Step, none_written,
}

-- The buffer `b` is the queue `q`: the world is sound, with `hs` for the other references, none of them to
-- the block of `b`, and the caller's region, of `size` bytes, belongs to no block.
pub record Represents (hs : List (Option ℕ)) (region size : ℕ) (w : World) (b : ByteBuffer)
    (q : Queue) : Type 0 where
  pub sound : Sound w (b.storage ∷ hs)
  pub shows : Shows w b q.shown
  pub alone : Alone hs b
  pub used : b.writer_index ≡ q.used
  pub room : capacity b w ≡ ok q.room
  pub user : Foreign w region q.user
  pub extent : length q.user ≡ size

module _ (hs : List (Option ℕ)) (region size : ℕ) where
  -- What a call of `op` ends with.
  pub record Follows (w : World) (op : Operation) (q : Queue) (res : Answer × ByteBuffer × World)
      : Type 0 where
    pub queue : Queue
    pub step : Step op q res.0 queue
    pub represents : Represents hs region size res.2 res.1 queue
    pub undisturbed : Undisturbed hs w res.2

string_length-CString : (n : ℕ) (cs : List ℕ) → CString n cs → string_length cs ≡ ok n
unfolding string_length
string_length-CString _ _ nul = refl
string_length-CString _ _ (char {n} {c} {cs} ne s) =
    let rest = string_length-CString n cs s in
    let more : c == 0 ≡ false = ground arith in rw (more, rest) refl

CString-length : (n : ℕ) (cs : List ℕ) → CString n cs → n < length cs
CString-length _ _ (nul {cs}) = omega arith
CString-length _ _ (char {n} {c} {cs} ne s) = omega (arith, CString-length n cs s)

module _ (hs : List (Option ℕ)) (region size : ℕ) (few : length hs + 2 < 2 ^ 32)
    (word : size ≤ size_max) (w : World) (b : ByteBuffer) (q : Queue)
    (r : Represents hs region size w b q) where
  pub capacity_same :
      (b' : ByteBuffer) (w' : World)
      → b'.storage ≡ b.storage
      → w'.blocks ≡ w.blocks
      → capacity b' w' ≡ capacity b w
  unfolding capacity read
  capacity_same b' w' e e' = rw (e, e')

  pub storage_room : r.shows.storage.capacity ≡ q.room
  storage_room =
      let known =
        capacity_lem b w r.shows.block r.shows.storage r.shows.all r.shows.is r.shows.there in
      let same = sym known ∙ r.room in cc

  pub can_split : CanSplit w r.shows.block r.shows.storage hs
  can_split shared = absurd (omega (arith, r.alone r.shows.block r.shows.is))

  pub user_apart : r.shows.storage.bytes ≢ some region
  user_apart = r.user.outside r.shows.block r.shows.storage r.shows.there.found

  module _ (offset count : ℕ) (fits : offset + count ≤ size) where
    abbrev sent : List ℕ
    sent = slice offset count q.user

    length-sent : length sent ≡ count
    length-sent = length-slice offset count q.user (omega (arith, r.extent))

    sent-Readable : Readable w.world (pointer region offset) sent
    sent-Readable = record {
      all = q.user;
      live = r.user.held;
      within = omega (arith, length-sent, r.extent);
      bytes_there = rw length-sent;
    }

    appended :
        (op : Operation) (n : ℕ) (b' : ByteBuffer) (w' : World)
        → Appended w b r.shows.storage.capacity hs q.shown sent (n, b', w')
        → Outcome r.shows.storage.capacity b.writer_index q.shown sent w' b' n
        → Writes offset count q op
        → Follows hs region size w op q (number n, b', w')
    appended op n b' w' a (nothing_written why shows same) writes = record {
      queue = q;
      step = none_written writes (elim why [
        | inl e ↦ inl (omega (arith, length-sent))
        | inr e ↦ inr (omega (arith, length-sent, storage_room, r.used))
      ]);
      represents = record {
        sound = a.sound;
        shows = shows;
        alone = a.alone;
        used = omega (arith, a.writer, r.used);
        room = same ∙ ap ok storage_room;
        user = a.foreign region q.user r.user;
        extent = r.extent;
      };
      undisturbed = a.undisturbed;
    }
    appended op n b' w' a (all_written room more enough shows same) writes = record {
      queue = record q { shown = q.shown ++ sent; used = q.used + count; room = room };
      step = rw length-sent (
          Step.all_written room writes (omega (arith, storage_room))
            (omega (arith, length-sent, r.used)));
      represents = record {
        sound = a.sound;
        shows = shows;
        alone = a.alone;
        used = omega (arith, a.writer, r.used, length-sent);
        room = same;
        user = a.foreign region q.user r.user;
        extent = r.extent;
      };
      undisturbed = a.undisturbed;
    }

    written :
        Ends
          (Appended w b r.shows.storage.capacity hs q.shown sent)
          (write_bytes b (some (pointer region offset)) count w)
    written =
        subst
          (λ (n : ℕ).
            Ends (Appended w b r.shows.storage.capacity hs q.shown sent)
              (write_bytes b (some (pointer region offset)) n w))
          length-sent
          (write_bytes-Appended w b hs q.shown sent r.shows (pointer region offset) r.sound few
            can_split sent-Readable (omega (arith, length-sent)) user_apart)

    pub write_bytes-Follows :
        Ends
          (Follows hs region size w (write_from offset count) q)
          (perform region (write_from offset count) b w)
    write_bytes-Follows =
        Ends-bind written
          λ (n, b', w') a. ends (appended (write_from offset count) n b' w' a a.outcome as_bytes)

    pub write_string-Follows :
        Ends
          (Follows hs region size w (write_text offset count) q)
          (perform region (write_text offset count) b w)
    unfolding write_string
    write_string-Follows =
        Ends-bind written
          λ (n, b', w') a. ends (appended (write_text offset count) n b' w' a a.outcome as_string)

  pub write_c_string-Follows :
      (offset count : ℕ)
      → CString count (drop offset q.user)
      → Ends (Follows hs region size w (write_c offset) q) (perform region (write_c offset) b w)
  unfolding write_c_string strlen
  write_c_string-Follows offset count string =
      let known = string_length-CString count (drop offset q.user) string in
      let bound = CString-length count (drop offset q.user) string in
      let fits : offset + count ≤ size =
        omega (arith, bound, length-drop offset q.user, r.extent) in
      rw (r.user.held, known)
        (Ends-bind (written offset count fits) λ (n, b', w') a.
          ends
            (appended offset count fits (write_c offset) n b' w' a a.outcome (as_c_string string)))
