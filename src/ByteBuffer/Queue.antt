-- ===== src/ByteBuffer/Queue.antt =====
-- What a `ByteBuffer` promises to its user, as an abstract queue of bytes, for any sequence of calls of
-- its operations. The source of the writes and the destination of the reads is one region of the caller's.
pub mod Represents
pub mod Reading
pub mod Calls
pub mod Refines
pub mod RoundTrip
pub mod Sample
mod Examples
use noctisplanet_foundation.Prelude.{
  ℕ, suc, ◌+◌, ◌-◌, ◌≤◌, ◌<◌, ◌≡◌, ◌≢◌, ◌⊎◌, List, [], ◌∷◌, ◌++◌, some, length, take, drop, Run, ok,
  ◌>>=◌,
}
use noctisplanet_foundation.Memory.{pointer, splice}
use noctisplanet_foundation.Memory.Laws.{slice}
use noctisplanet_foundation.ByteBuffer.{
  World, ByteBuffer, write_bytes, write_string, write_c_string, read_bytes, read_string, skip_bytes,
  discard_read_bytes, clear, mutable_bytes, readable_bytes, writable_bytes,
}

pub data Operation : Type 0 where
  write_from : (offset count : ℕ) → Operation
  write_text : (offset count : ℕ) → Operation
  write_c : ℕ → Operation
  read_to : (offset count : ℕ) → Operation
  take_string : ℕ → Operation
  skip : ℕ → Operation
  discard : Operation
  reset : Operation
  make_mutable : Operation
  ask_readable : Operation
  ask_writable : Operation

pub data Answer : Type 0 where
  number : ℕ → Answer
  text : List ℕ → Answer
  nothing : Answer

-- The call of an operation, with `region` for the caller's region.
abbrev pub perform : ℕ → Operation → ByteBuffer → World → Run (Answer × ByteBuffer × World)
perform region (write_from offset count) b w = do
  (n, b', w') ← write_bytes b (some (pointer region offset)) count w
  ok (number n, b', w')
perform region (write_text offset count) b w = do
  (n, b', w') ← write_string b (pointer region offset) count w
  ok (number n, b', w')
perform region (write_c offset) b w = do
  (n, b', w') ← write_c_string b (some (pointer region offset)) w
  ok (number n, b', w')
perform region (read_to offset count) b w = do
  (n, b', w') ← read_bytes b (some (pointer region offset)) count w
  ok (number n, b', w')
perform region (take_string n) b w = do (string, b') ← read_string b n w; ok (text string, b', w)
perform region (skip n) b w = do (count, b') ← skip_bytes b n; ok (number count, b', w)
perform region discard b w = do (b', w') ← discard_read_bytes b w; ok (nothing, b', w')
perform region reset b w = ok (nothing, clear b, w)
perform region make_mutable b w = do (bytes, b', w') ← mutable_bytes b w; ok (nothing, b', w')
perform region ask_readable b w = ok (number (readable_bytes b), b, w)
perform region ask_writable b w = do n ← writable_bytes b w; ok (number n, b, w)

abbrev pub perform_all :
    ℕ → List Operation → ByteBuffer → World → Run (List Answer × ByteBuffer × World)
perform_all region [] b w = ok ([], b, w)
perform_all region (op ∷ ops) b w = do
  (answer, b', w') ← perform region op b w
  (answers, b'', w'') ← perform_all region ops b' w'
  ok (answer ∷ answers, b'', w'')

-- The queue: the bytes in it, how much of the room they and what has been read use, and the bytes of the
-- caller's region.
pub record Queue : Type 0 where
  pub shown : List ℕ
  pub used : ℕ
  pub room : ℕ
  pub user : List ℕ

-- A C string of `n` bytes, and what comes after its NUL.
pub data CString : ℕ → List ℕ → Type 0 where
  nul : {cs : List ℕ} → CString 0 (0 ∷ cs)
  char : {n c : ℕ} {cs : List ℕ} → c ≢ 0 → CString n cs → CString (suc n) (c ∷ cs)

-- The three operations that write `count` bytes from `offset` on.
pub data Writes (offset count : ℕ) (q : Queue) : Operation → Type 0 where
  as_bytes : Writes offset count q (write_from offset count)
  as_string : Writes offset count q (write_text offset count)
  as_c_string : CString count (drop offset q.user) → Writes offset count q (write_c offset)

-- What an operation may answer and do to the queue. A write is all or nothing, and fails only if there is
-- no room for it; the room never gets smaller.
pub data Step : Operation → Queue → Answer → Queue → Type 0 where
  all_written :
      {op : Operation} {offset count : ℕ} {q : Queue} (room : ℕ)
      → Writes offset count q op
      → q.room ≤ room
      → q.used + count ≤ room
      → Step op q (number count) (record q {
        shown = q.shown ++ slice offset count q.user;
        used = q.used + count;
        room = room;
      })
  none_written :
      {op : Operation} {offset count : ℕ} {q : Queue}
      → Writes offset count q op
      → (count ≡ 0) ⊎ (q.room < q.used + count)
      → Step op q (number 0) q
  bytes_read :
      {offset count : ℕ} {q : Queue}
      → Step (read_to offset count) q (number (length (take count q.shown))) (record q {
        shown = drop count q.shown;
        user = splice offset (take count q.shown) q.user;
      })
  string_taken :
      {n : ℕ} {q : Queue}
      → Step (take_string n) q (text (take n q.shown)) (record q { shown = drop n q.shown })
  skipped :
      {n : ℕ} {q : Queue}
      → Step (skip n) q (number (length (take n q.shown))) (record q { shown = drop n q.shown })
  discarded :
      {q : Queue} (room : ℕ)
      → q.room ≤ room
      → Step discard q nothing (record q { used = length q.shown; room = room })
  emptied : {q : Queue} → Step reset q nothing (record q { shown = []; used = 0 })
  made_mutable : {q : Queue} → Step make_mutable q nothing q
  told_readable : {q : Queue} → Step ask_readable q (number (length q.shown)) q
  told_writable : {q : Queue} → Step ask_writable q (number (q.room - q.used)) q

pub data Steps : List Operation → Queue → List Answer → Queue → Type 0 where
  done : {q : Queue} → Steps [] q [] q
  next :
      {op : Operation} {ops : List Operation} {answer : Answer} {answers : List Answer}
      {q r s : Queue}
      → Step op q answer r
      → Steps ops r answers s
      → Steps (op ∷ ops) q (answer ∷ answers) s

-- The ranges that are written from and read to lie within a region of `n` bytes, and a C string has its NUL
-- there.
abbrev pub Fits : ℕ → Queue → Operation → Type 0
Fits n q (write_from offset count) = offset + count ≤ n
Fits n q (write_text offset count) = offset + count ≤ n
Fits n q (write_c offset) = (count : ℕ) × CString count (drop offset q.user)
Fits n q (read_to offset count) = offset + count ≤ n
Fits n q op = Unit

-- So it is for each operation, whatever those before it have done to the queue.
abbrev pub FitsAll : ℕ → List Operation → Queue → Type 0
FitsAll n [] q = Unit
FitsAll n (op ∷ ops) q =
    Fits n q op × ((answer : Answer) (r : Queue) → Step op q answer r → FitsAll n ops r)
