-- ===== src/ByteBuffer/Queue/Reading.antt =====
-- Reading to the caller's region does what the queue allows.
use noctisplanet_foundation.Prelude.{
  ℕ, ◌+◌, ◌^◌, ◌≤◌, ◌<◌, ◌∙◌, List, Option, length, take, drop, arith, Ends, ends, Ends-bind,
}
use noctisplanet_foundation.Memory.{splice}
use noctisplanet_foundation.ByteBuffer.{World, ByteBuffer}
use noctisplanet_foundation.ByteBuffer.Capacity.{size_max}
use noctisplanet_foundation.ByteBuffer.Consume.Caller.{ReadTo, read_bytes-ReadTo}
use noctisplanet_foundation.ByteBuffer.Queue.{read_to, number, perform, Queue, bytes_read}
use noctisplanet_foundation.ByteBuffer.Queue.Represents.{Represents, Follows, capacity_same}

module _ (hs : List (Option ℕ)) (region size : ℕ) (few : length hs + 2 < 2 ^ 32)
    (word : size ≤ size_max) (w : World) (b : ByteBuffer) (q : Queue)
    (r : Represents hs region size w b q) (offset count : ℕ) where
  out-Follows :
      (n : ℕ) (b' : ByteBuffer) (w' : World)
      → ReadTo hs region q.user w b q.shown r.sound r.shows r.user offset count (n, b', w')
      → Follows hs region size w (read_to offset count) q (number n, b', w')
  out-Follows n b' w' out = record {
    queue = record q {
      shown = drop count q.shown;
      user = splice offset (take count q.shown) q.user;
    };
    step = rw out.count_read bytes_read;
    represents = record {
      sound = out.sound_after;
      shows = out.shows;
      alone = rw out.same r.alone;
      used = out.writer ∙ r.used;
      room = capacity_same hs region size few word w b q r b' w' out.same out.store ∙ r.room;
      user = out.foreign_after;
      extent = out.extent ∙ r.extent;
    };
    undisturbed = λ p t zs _ a. out.there p t zs a;
  }

  pub read_bytes-Follows :
      offset + count ≤ size
      → Ends
          (Follows hs region size w (read_to offset count) q)
          (perform region (read_to offset count) b w)
  read_bytes-Follows fits =
      Ends-bind
        (read_bytes-ReadTo hs region q.user w b q.shown r.sound r.shows r.user offset count
          (omega (arith, r.extent)))
        λ (n, b', w') out. ends (out-Follows n b' w' out)
