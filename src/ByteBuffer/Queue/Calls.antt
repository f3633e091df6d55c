-- ===== src/ByteBuffer/Queue/Calls.antt =====
-- Each operation of a buffer does what the queue allows.
use noctisplanet_foundation.Prelude.{
  ℕ, ◌+◌, ◌-◌, ◌^◌, ◌≤◌, ◌<◌, ◌≡◌, refl, sym, ap, ◌∙◌, List, [], ◌∷◌, Option, length, take, drop,
  arith, ltb, ok, ◌>>=◌, subst, if◌then◌else◌, Ends, ends, Ends-bind,
}
use noctisplanet_foundation.CopyOnWriteBacked.{read}
use noctisplanet_foundation.ByteBuffer.{
  World, ByteBuffer, capacity, clear, mutable_bytes, base_of, writable_bytes,
}
use noctisplanet_foundation.ByteBuffer.Capacity.{size_max}
use noctisplanet_foundation.ByteBuffer.Sound.{Sound, some_eq, Foreign-Undisturbed}
use noctisplanet_foundation.ByteBuffer.Unshare.{Own, unique-Own}
use noctisplanet_foundation.ByteBuffer.Put.{read_lem}
use noctisplanet_foundation.ByteBuffer.Append.{capacity_lem}
use noctisplanet_foundation.ByteBuffer.Consume.{
  Left, read_string-take, skip_bytes-drop, readable_bytes-length,
}
use noctisplanet_foundation.ByteBuffer.Discard.{discard_read_bytes-Discarded}
use noctisplanet_foundation.ByteBuffer.Queue.{
  Operation, write_from, write_text, write_c, read_to, take_string, skip, discard, reset,
  ask_readable, ask_writable, Answer, number, text, nothing, perform, Queue, Step, string_taken,
  skipped, discarded, emptied, make_mutable, made_mutable, told_readable, told_writable, Fits,
}
use noctisplanet_foundation.ByteBuffer.Queue.Represents.{
  Represents, Follows, storage_room, can_split, user_apart, write_bytes-Follows,
  write_string-Follows, write_c_string-Follows,
}
use noctisplanet_foundation.ByteBuffer.Queue.Represents.{capacity_same}
use noctisplanet_foundation.ByteBuffer.Queue.Reading.{read_bytes-Follows}

module _ (hs : List (Option ℕ)) (region size : ℕ) (few : length hs + 2 < 2 ^ 32)
    (word : size ≤ size_max) (w : World) (b : ByteBuffer) (q : Queue)
    (r : Represents hs region size w b q) where
  -- A call that only moves the reader.
  Left-Follows :
      (op : Operation) (answer : Answer) (v : List ℕ) (b' : ByteBuffer)
      → Left w b v b'
      → Step op q answer (record q { shown = v })
      → Follows hs region size w op q (answer, b', w)
  Left-Follows op answer v b' l step = record {
    queue = record q { shown = v };
    step = step;
    represents = record {
      sound = rw l.same r.sound;
      shows = l.shows;
      alone = rw l.same r.alone;
      used = l.writer ∙ r.used;
      room = capacity_same hs region size few word w b q r b' w l.same refl ∙ r.room;
      user = r.user;
      extent = r.extent;
    };
    undisturbed = λ p t zs _ a. a;
  }

  read_string-Follows :
      (n : ℕ)
      → Ends (Follows hs region size w (take_string n) q) (perform region (take_string n) b w)
  read_string-Follows n =
      Ends-bind (read_string-take w b q.shown r.shows n) λ (string, b') (same, l). ends (
        rw same
          (Left-Follows (take_string n) (text (take n q.shown)) (drop n q.shown) b' l string_taken))

  skip_bytes-Follows :
      (n : ℕ) → Ends (Follows hs region size w (skip n) q) (perform region (skip n) b w)
  skip_bytes-Follows n = Ends-bind (skip_bytes-drop w b q.shown r.shows n) λ (count, b') (same, l).
      ends (
        rw same
          (Left-Follows (skip n) (number (length (take n q.shown))) (drop n q.shown) b' l skipped))

  discard_read_bytes-Follows :
      Ends (Follows hs region size w discard q) (perform region discard b w)
  discard_read_bytes-Follows =
      Ends-bind
        (discard_read_bytes-Discarded w b hs q.shown r.shows r.sound few
          (can_split hs region size few word w b q r))
        λ (b', w') d. ends (record {
          queue = record q { used = length q.shown; room = d.room.0 };
          step =
              discarded d.room.0
                (omega (arith, d.room.1, (storage_room hs region size few word w b q r)));
          represents = record {
            sound = d.sound;
            shows = d.shows;
            alone = d.alone r.alone;
            used = d.writer;
            room = d.room.2;
            user = d.foreign region q.user r.user;
            extent = r.extent;
          };
          undisturbed = d.undisturbed;
        })

  clear-Follows : Follows hs region size w reset q (nothing, clear b, w)
  unfolding clear capacity
  clear-Follows = record {
    queue = record q { shown = []; used = 0 };
    step = emptied;
    represents = record {
      sound = r.sound;
      shows = record {
        block = r.shows.block;
        storage = r.shows.storage;
        all = r.shows.all;
        is = r.shows.is;
        there = r.shows.there;
        ordered = omega arith;
        within = omega arith;
        shown = refl;
      };
      alone = r.alone;
      used = refl;
      room = r.room;
      user = r.user;
      extent = r.extent;
    };
    undisturbed = λ p t zs _ a. a;
  }

  -- What `unique` leaves is the same queue.
  owned-Follows :
      (res : Option ℕ × World)
      → Own w r.shows.block r.shows.storage r.shows.all hs res
      → Follows hs region size w make_mutable q (nothing, record b { storage = res.0 }, res.1)
  owned-Follows res o =
      let (held, ne) =
        o.regions region q.user r.user.held (user_apart hs region size few word w b q r) in
      record {
        queue = q;
        step = made_mutable;
        represents = record {
          sound = rw o.is o.sound;
          shows = record {
            block = o.block;
            storage = o.storage;
            all = r.shows.all;
            is = o.is;
            there = o.at;
            ordered = r.shows.ordered;
            within = r.shows.within;
            shown = r.shows.shown;
          };
          alone = λ p e. rw (some_eq (sym e ∙ o.is)) o.alone;
          used = r.used;
          room =
              capacity_lem (record b { storage = res.0 }) res.1 o.block o.storage r.shows.all o.is
                o.at
              ∙ ap ok (o.room ∙ storage_room hs region size few word w b q r);
          user =
              Foreign-Undisturbed w res.1 b.storage hs o.block o.storage r.shows.all r.sound o.sound
                o.at o.undisturbed region q.user r.user held ne;
          extent = r.extent;
        };
        undisturbed = o.undisturbed;
      }

  mutable_bytes-owned :
      Ends
        (λ (bytes, b', w'). Follows hs region size w make_mutable q (nothing, b', w'))
        (mutable_bytes b w)
  unfolding mutable_bytes
  mutable_bytes-owned =
      let sound = subst (λ (h : Option ℕ). Sound w (h ∷ hs)) r.shows.is r.sound in
      rw r.shows.is (
        Ends-bind
          (unique-Own w hs r.shows.block r.shows.storage r.shows.all sound r.shows.there few
            (can_split hs region size few word w b q r))
          λ res o.
            subst
              (λ (h : Option ℕ).
                Ends (λ (bytes, b', w'). Follows hs region size w make_mutable q (nothing, b', w'))
                  (read h res.1 >>= λ s. ok (base_of s, record b { storage = res.0 }, res.1)))
              (sym o.is)
              (rw (read_lem res.1 o.block o.storage o.at.found) (ends (owned-Follows res o))))

  mutable_bytes-Follows :
      Ends (Follows hs region size w make_mutable q) (perform region make_mutable b w)
  mutable_bytes-Follows = Ends-bind mutable_bytes-owned λ (bytes, b', w') f. ends f

  -- A call that changes nothing.
  asked-Follows :
      (op : Operation) (answer : Answer)
      → Step op q answer q
      → Follows hs region size w op q (answer, b, w)
  asked-Follows op answer step = record {
    queue = q;
    step = step;
    represents = r;
    undisturbed = λ p t zs _ a. a;
  }

  writable_bytes-Follows :
      Ends (Follows hs region size w ask_writable q) (perform region ask_writable b w)
  unfolding writable_bytes
  writable_bytes-Follows =
      let left : (if ltb b.writer_index q.room then q.room - b.writer_index else 0)
          ≡ q.room - q.used =
        ground (arith, r.used) in
      rw (r.room, left) (ends (asked-Follows ask_writable (number (q.room - q.used)) told_writable))

  -- Every call follows the queue.
  pub perform-Follows :
      (op : Operation)
      → Fits size q op
      → Ends (Follows hs region size w op q) (perform region op b w)
  perform-Follows (write_from offset count) fits =
      (write_bytes-Follows hs region size few word w b q r) offset count fits
  perform-Follows (write_text offset count) fits =
      (write_string-Follows hs region size few word w b q r) offset count fits
  perform-Follows (write_c offset) (count, string) =
      write_c_string-Follows hs region size few word w b q r offset count string
  perform-Follows (read_to offset count) fits =
      read_bytes-Follows hs region size few word w b q r offset count fits
  perform-Follows (take_string n) fits = read_string-Follows n
  perform-Follows (skip n) fits = skip_bytes-Follows n
  perform-Follows discard fits = discard_read_bytes-Follows
  perform-Follows reset fits = ends clear-Follows
  perform-Follows make_mutable fits = mutable_bytes-Follows
  perform-Follows ask_readable fits =
      rw (readable_bytes-length w b q.shown r.shows)
        (ends (asked-Follows ask_readable (number (length q.shown)) told_readable))
  perform-Follows ask_writable fits = writable_bytes-Follows
