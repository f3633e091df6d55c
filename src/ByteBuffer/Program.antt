-- ===== src/ByteBuffer/Program.antt =====
-- A program with any number of buffers, which it makes, writes, reads, copies, assigns and destroys: the buffers in a
-- list, as they share blocks, and what the program may take them for, a list of byte strings that share nothing.
pub mod Acted
pub mod At
pub mod Assign
pub mod Refines
mod Examples
use noctisplanet_foundation.Prelude.{
  ℕ, zero, suc, ◌+◌, ◌≤◌, ◌≡◌, ◌≢◌, List, [], ◌∷◌, ◌++◌, Option, none, some, length, take, drop,
  set, get_elem?, Run, ok, ◌>>=◌,
}
use noctisplanet_foundation.Memory.{pointer, splice, ByteBufferAllocator, IsLawful}
use noctisplanet_foundation.Memory.Laws.{slice}
use noctisplanet_foundation.CopyOnWriteBacked.{copy_construct, copy_assign, drop_reference}
use noctisplanet_foundation.CopyOnWriteBacked.Counted.{element_at}
use noctisplanet_foundation.ByteBuffer.{
  World, ByteBuffer, storage_element, new_buffer, write_bytes, read_bytes, read_string, skip_bytes,
  discard_read_bytes, clear,
}
use noctisplanet_foundation.ByteBuffer.Capacity.{size_max}
use noctisplanet_foundation.ByteBuffer.Storage.{ByteBufferStorage}
use noctisplanet_foundation.ByteBuffer.Queue.{Answer, number, text, nothing}

pub data Action : Type 0 where
  append : (offset count : ℕ) → Action
  read_to : (offset count : ℕ) → Action
  take_string : ℕ → Action
  skip : ℕ → Action
  discard : Action
  reset : Action
  copy : Action
  destroy : Action

-- What the program does next: it acts on the buffer at an index, assigns another one to it, or makes a buffer.
pub data Command : Type 0 where
  on : ℕ → Action → Command
  assign_to : (to from : ℕ) → Command
  create : ByteBufferAllocator → ℕ → Command

-- An action on one buffer, with `region` for the caller's region, and the buffers that take its place: the
-- copy constructor of `ByteBuffer` is that of its three fields, and its destructor that of `storage`.
unfoldable pub act : ℕ → Action → ByteBuffer → World → Run (Answer × List ByteBuffer × World)
act region (append offset count) b w = do
  (n, b', w') ← write_bytes b (some (pointer region offset)) count w
  ok (number n, b' ∷ [], w')
act region (read_to offset count) b w = do
  (n, b', w') ← read_bytes b (some (pointer region offset)) count w
  ok (number n, b' ∷ [], w')
act region (take_string n) b w = do (string, b') ← read_string b n w; ok (text string, b' ∷ [], w)
act region (skip n) b w = do (count, b') ← skip_bytes b n; ok (number count, b' ∷ [], w)
act region discard b w = do (b', w') ← discard_read_bytes b w; ok (nothing, b' ∷ [], w')
act region reset b w = ok (nothing, clear b ∷ [], w)
act region copy b w = do
  (h, w') ← copy_construct b.storage w
  ok (nothing, b ∷ record b { storage = h } ∷ [], w')
act region destroy b w = do w' ← drop_reference storage_element b.storage w; ok (nothing, [], w')

-- The action on the buffer at an index; nothing if there is none.
unfoldable pub act_at :
    ℕ → ℕ → Action → List ByteBuffer → World → Run (Answer × List ByteBuffer × World)
unfolding act
act_at region i action [] w = ok (nothing, [], w)
act_at region zero action (b ∷ bs) w = do
  (answer, new, w') ← act region action b w
  ok (answer, new ++ bs, w')
act_at region (suc i) action (b ∷ bs) w = do
  (answer, bs', w') ← act_at region i action bs w
  ok (answer, b ∷ bs', w')

-- The assignment of `b` to the buffer at an index: that of its three fields.
unfoldable pub assign_at : ℕ → ByteBuffer → List ByteBuffer → World → Run (List ByteBuffer × World)
assign_at i b [] w = ok ([], w)
assign_at zero b (this ∷ bs) w = do
  (h, w') ← copy_assign storage_element this.storage b.storage w
  ok (record b { storage = h } ∷ bs, w')
assign_at (suc i) b (this ∷ bs) w = do (bs', w') ← assign_at i b bs w; ok (this ∷ bs', w')

unfoldable pub assign_from :
    ℕ → Option ByteBuffer → List ByteBuffer → World → Run (Answer × List ByteBuffer × World)
unfolding assign_at
assign_from i none bs w = ok (nothing, bs, w)
assign_from i (some b) bs w = do (bs', w') ← assign_at i b bs w; ok (nothing, bs', w')

-- A new buffer comes first.
unfoldable pub obey : ℕ → Command → List ByteBuffer → World → Run (Answer × List ByteBuffer × World)
unfolding act_at assign_from
obey region (on i action) bs w = act_at region i action bs w
obey region (assign_to to from) bs w = assign_from to (get_elem? bs from) bs w
obey region (create allocator capacity) bs w =
    let (b, w') = new_buffer allocator capacity w in ok (nothing, b ∷ bs, w')

unfoldable pub obey_all :
    ℕ → List Command → List ByteBuffer → World → Run (List Answer × List ByteBuffer × World)
unfolding obey
obey_all region [] bs w = ok ([], bs, w)
obey_all region (command ∷ commands) bs w = do
  (answer, bs', w') ← obey region command bs w
  (answers, bs'', w'') ← obey_all region commands bs' w'
  ok (answer ∷ answers, bs'', w'')

-- What an action may answer and make of one byte string and of `user`, the bytes of the caller's region. A write
-- is all or nothing.
pub data Effect (user : List ℕ) : Action → List ℕ → Answer → List (List ℕ) → List ℕ → Type 0 where
  appended :
      {offset count : ℕ} {v : List ℕ}
      → Effect user
          (append offset count)
          v
          (number count)
          ((v ++ slice offset count user) ∷ [])
          user
  refused :
      {offset count : ℕ} {v : List ℕ} → Effect user (append offset count) v (number 0) (v ∷ []) user
  bytes_read :
      {offset count : ℕ} {v : List ℕ}
      → Effect user
          (read_to offset count)
          v
          (number (length (take count v)))
          (drop count v ∷ [])
          (splice offset (take count v) user)
  string_taken :
      {n : ℕ} {v : List ℕ} → Effect user (take_string n) v (text (take n v)) (drop n v ∷ []) user
  skipped :
      {n : ℕ} {v : List ℕ}
      → Effect user (skip n) v (number (length (take n v))) (drop n v ∷ []) user
  discarded : {v : List ℕ} → Effect user discard v nothing (v ∷ []) user
  emptied : {v : List ℕ} → Effect user reset v nothing ([] ∷ []) user
  copied : {v : List ℕ} → Effect user copy v nothing (v ∷ v ∷ []) user
  destroyed : {v : List ℕ} → Effect user destroy v nothing [] user

-- The same on the byte string at an index, and nothing else.
pub data EffectAt (user : List ℕ) (action : Action)
    : ℕ → List (List ℕ) → Answer → List (List ℕ) → List ℕ → Type 0 where
  none_there : {i : ℕ} → EffectAt user action i [] nothing [] user
  on_this :
      {v user' : List ℕ} {vs new : List (List ℕ)} {answer : Answer}
      → Effect user action v answer new user'
      → EffectAt user action 0 (v ∷ vs) answer (new ++ vs) user'
  on_later :
      {i : ℕ} {v user' : List ℕ} {vs vs' : List (List ℕ)} {answer : Answer}
      → EffectAt user action i vs answer vs' user'
      → EffectAt user action (suc i) (v ∷ vs) answer (v ∷ vs') user'

pub data Obeyed (user : List ℕ)
    : Command → List (List ℕ) → Answer → List (List ℕ) → List ℕ → Type 0 where
  acted :
      {i : ℕ} {action : Action} {vs vs' : List (List ℕ)} {answer : Answer} {user' : List ℕ}
      → EffectAt user action i vs answer vs' user'
      → Obeyed user (on i action) vs answer vs' user'
  assigned :
      {to from : ℕ} {v : List ℕ} {vs : List (List ℕ)}
      → get_elem? vs from ≡ some v
      → Obeyed user (assign_to to from) vs nothing (set vs to v) user
  none_to_assign :
      {to from : ℕ} {vs : List (List ℕ)}
      → get_elem? vs from ≡ none
      → Obeyed user (assign_to to from) vs nothing vs user
  created :
      {allocator : ByteBufferAllocator} {capacity : ℕ} {vs : List (List ℕ)}
      → Obeyed user (create allocator capacity) vs nothing ([] ∷ vs) user

pub data Effects
    : List ℕ → List Command → List (List ℕ) → List Answer → List (List ℕ) → List ℕ → Type 0 where
  done : {user : List ℕ} {vs : List (List ℕ)} → Effects user [] vs [] vs user
  next :
      {user user' user'' : List ℕ} {command : Command} {commands : List Command} {answer : Answer}
      {answers : List Answer} {vs vs' vs'' : List (List ℕ)}
      → Obeyed user command vs answer vs' user'
      → Effects user' commands vs' answers vs'' user''
      → Effects user (command ∷ commands) vs (answer ∷ answers) vs'' user''

-- Memory for a copy of the buffer's block can be had.
abbrev pub Allocates : World → ByteBuffer → Type 0
Allocates w b =
    (p : ℕ) (s : ByteBufferStorage)
    → b.storage ≡ some p
    → element_at (w.blocks p) ≡ some s
    → (s.allocator.allocate s.capacity w.world).0 ≢ none

-- What an action needs: to write or read, a range of the caller's region, which has `size`, and memory.
abbrev pub Ready : ℕ → World → Action → ByteBuffer → Type 0
Ready size w (append offset count) b = (offset + count ≤ size) × Allocates w b
Ready size w (read_to offset count) b = offset + count ≤ size
Ready size w discard b = Allocates w b
Ready size w action b = Unit

abbrev pub ReadyAt : ℕ → World → ℕ → Action → List ByteBuffer → Type 0
ReadyAt size w i action [] = Unit
ReadyAt size w zero action (b ∷ bs) = Ready size w action b
ReadyAt size w (suc i) action (b ∷ bs) = ReadyAt size w i action bs

abbrev pub ReadyFor : ℕ → World → Command → List ByteBuffer → Type 0
ReadyFor size w (on i action) bs = ReadyAt size w i action bs
ReadyFor size w (assign_to to from) bs = Unit
ReadyFor size w (create allocator capacity) bs = IsLawful allocator × (capacity ≤ size_max)
