-- ===== src/ByteBuffer/Queue/RoundTrip.antt =====
-- What is written to a buffer is read back, after what it showed before.
use noctisplanet_foundation.Prelude.{
  ℕ, ◌+◌, ◌^◌, ◌≤◌, ◌<◌, ◌≡◌, refl, List, [], ◌∷◌, Option, length, arith, Ends, Ends-weaken, inl,
  inr, sym, ap, ◌∙◌, take, take-take, drop, ◌++◌,
}
use noctisplanet_foundation.Memory.Laws.{slice, take-length_append}
use noctisplanet_foundation.ByteBuffer.{World, ByteBuffer}
use noctisplanet_foundation.ByteBuffer.Capacity.{size_max}
use noctisplanet_foundation.ByteBuffer.Queue.{
  write_from, skip, take_string, Answer, number, text, perform_all, Queue, Steps, next, done, Step,
  as_bytes, all_written, none_written, skipped, string_taken,
}
use noctisplanet_foundation.ByteBuffer.Queue.Represents.{Represents}
use noctisplanet_foundation.ByteBuffer.Queue.Refines.{perform_all-FollowsAll}

append_nil : (xs : List ℕ) → xs ++ [] ≡ xs
append_nil [] = refl
append_nil (x ∷ xs) = rw (append_nil xs)

drop-length_append : (xs ys : List ℕ) → drop (length xs) (xs ++ ys) ≡ ys
drop-length_append [] ys = refl
drop-length_append (x ∷ xs) ys = drop-length_append xs ys

Step-write :
    {offset count : ℕ} {q r : Queue} {answer : Answer}
    → q.used + count ≤ q.room
    → Step (write_from offset count) q answer r
    → (answer ≡ number count) × (r.shown ≡ q.shown ++ slice offset count q.user)
Step-write room (all_written _ as_bytes _ _) = (refl, refl)
Step-write {count = count} {q} room (none_written as_bytes why) =
    let nothing : count ≡ 0 = elim why [ inl e ↦ e | inr small ↦ absurd (omega arith) ] in
    rw nothing (refl, sym (append_nil q.shown))

Step-skip :
    {n : ℕ} {q r : Queue} {answer : Answer}
    → Step (skip n) q answer r
    → (answer ≡ number (length (take n q.shown))) × (r.shown ≡ drop n q.shown)
Step-skip skipped = (refl, refl)
Step-skip (all_written room writes _ _) = elim writes [ ]
Step-skip (none_written writes _) = elim writes [ ]

Step-take_string :
    {n : ℕ} {q r : Queue} {answer : Answer}
    → Step (take_string n) q answer r
    → answer ≡ text (take n q.shown)
Step-take_string string_taken = refl
Step-take_string (all_written room writes _ _) = elim writes [ ]
Step-take_string (none_written writes _) = elim writes [ ]

module _ (hs : List (Option ℕ)) (region size : ℕ) (few : length hs + 2 < 2 ^ 32)
    (word : size ≤ size_max) (w : World) (b : ByteBuffer) (q : Queue)
    (r : Represents hs region size w b q) (offset count : ℕ) where
  abbrev sent : List ℕ
  sent = slice offset count q.user

  read_back :
      (v rest : List ℕ) (a a' : Answer)
      → v ≡ q.shown ++ sent
      → (a ≡ number (length (take (length q.shown) v))) × (rest ≡ drop (length q.shown) v)
      → a' ≡ text (take count rest)
      → (a ≡ number (length q.shown)) × (a' ≡ text sent)
  read_back v rest a a' e (skip_answer, left) string_answer =
      let old = take-length_append q.shown sent in
      let new = drop-length_append q.shown sent in
      let whole = take-take count count (drop offset q.user) (omega arith) in
      (
        skip_answer ∙ ap (λ (xs : List ℕ). number (length xs)) (ap (take (length q.shown)) e ∙ old),
        string_answer
            ∙ ap (λ (xs : List ℕ). text (take count xs))
                (left ∙ (ap (drop (length q.shown)) e ∙ new))
            ∙ ap text whole,
      )

  steps_lem :
      (answers : List Answer) (r' : Queue)
      → q.used + count ≤ q.room
      → Steps
          (write_from offset count ∷ skip (length q.shown) ∷ take_string count ∷ [])
          q
          answers
          r'
      → answers ≡ number count ∷ number (length q.shown) ∷ text sent ∷ []
  steps_lem answers r' room (next write (next pass (next string done))) =
      let (written, shown) = Step-write room write in
      let (passed, got) = read_back _ _ _ _ shown (Step-skip pass) (Step-take_string string) in
      rw (written, passed, got)

  -- Let a buffer of a sound world represent a queue, no other reference point to its block, fewer
  -- than 2 ^ 32 - 2 other references be held, and the caller's region belong to no block. If `count`
  -- bytes of that region fit into the room that the buffer has, then writing `count` bytes of the
  -- caller's region, skipping as many bytes as were shown before, and reading a string of `count`
  -- bytes answers with `count`, with the number of bytes shown before, and with the bytes written.
  pub write_bytes-read_string :
      offset + count ≤ size
      → q.used + count ≤ q.room
      → Ends
          (λ (answers, b', w'). answers ≡ number count ∷ number (length q.shown) ∷ text sent ∷ [])
          (perform_all region
            (write_from offset count ∷ skip (length q.shown) ∷ take_string count ∷ [])
            b
            w)
  write_bytes-read_string fits room =
      Ends-weaken
        (perform_all-FollowsAll hs region size few word
          (write_from offset count ∷ skip (length q.shown) ∷ take_string count ∷ []) w b q r
          (fits, λ _ _ _. (tt, λ _ _ _. (tt, λ _ _ _. tt))))
        λ (answers, b', w') f. steps_lem answers f.queue room f.steps
