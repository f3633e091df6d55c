-- ===== src/ByteBuffer/Queue/Refines.antt =====
-- Any sequence of calls does to a buffer what the queue allows, and what is written is read back.
use noctisplanet_foundation.Prelude.{
  ℕ, ◌+◌, ◌^◌, ◌≤◌, ◌<◌, List, [], ◌∷◌, Option, length, Ends, ends, Ends-bind,
}
use noctisplanet_foundation.ByteBuffer.{World, ByteBuffer}
use noctisplanet_foundation.ByteBuffer.Capacity.{size_max}
use noctisplanet_foundation.ByteBuffer.Sound.{Undisturbed}
use noctisplanet_foundation.ByteBuffer.Queue.{
  Operation, Answer, perform_all, Queue, Steps, done, next, FitsAll,
}
use noctisplanet_foundation.ByteBuffer.Queue.Calls.{perform-Follows}
use noctisplanet_foundation.ByteBuffer.Queue.Represents.{Represents}

-- What a sequence of calls ends with.
pub record FollowsAll (hs : List (Option ℕ)) (region size : ℕ) (w : World) (ops : List Operation)
    (q : Queue) (res : List Answer × ByteBuffer × World) : Type 0 where
  pub queue : Queue
  pub steps : Steps ops q res.0 queue
  pub represents : Represents hs region size res.2 res.1 queue
  pub undisturbed : Undisturbed hs w res.2

module _ (hs : List (Option ℕ)) (region size : ℕ) (few : length hs + 2 < 2 ^ 32)
    (word : size ≤ size_max) where
  -- Let a buffer of a sound world represent a queue, no other reference point to its block, fewer
  -- than 2 ^ 32 - 2 other references be held, and the caller's region belong to no block; and let
  -- each write and each read stay within that region, and each C string have its NUL there when its
  -- turn comes. Then any sequence of writes of bytes, of strings and of C strings, reads to the
  -- region, reads as a string, skips, discards, clears, requests of the mutable bytes, and queries
  -- ends without undefined behaviour or a failed assertion; its answers are answers that `Step`
  -- allows the queue one after the other, a write being refused only for want of room; the buffer
  -- represents the queue that results, and every block that another reference points to is and holds
  -- what it was and held.
  pub perform_all-FollowsAll :
      (ops : List Operation) (w : World) (b : ByteBuffer) (q : Queue)
      → Represents hs region size w b q
      → FitsAll size ops q
      → Ends (FollowsAll hs region size w ops q) (perform_all region ops b w)
  perform_all-FollowsAll [] w b q r fits =
      ends (record { queue = q; steps = done; represents = r; undisturbed = λ p t zs _ a. a })
  perform_all-FollowsAll (op ∷ ops) w b q r (fit, fits) =
      Ends-bind (perform-Follows hs region size few word w b q r op fit) λ (answer, b', w') f.
        Ends-bind
          (perform_all-FollowsAll ops w' b' f.queue f.represents (fits answer f.queue f.step))
          λ (answers, b'', w'') g. ends (record {
            queue = g.queue;
            steps = next f.step g.steps;
            represents = g.represents;
            undisturbed = λ p t zs more a. g.undisturbed p t zs more (f.undisturbed p t zs more a);
          })
