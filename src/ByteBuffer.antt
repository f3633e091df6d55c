-- ===== src/ByteBuffer.antt =====
-- `ByteBuffer` of Sources/NPFoundation/ByteBuffer.cpp and include/NPFoundation/ByteBuffer.h: a growable
-- buffer with a reader and a writer cursor over shared storage.
-- A buffer's storage is a reference of `CopyOnWriteBacked`; the store of its blocks, and the memory
-- that these own regions of, are passed along. A method that is not const returns the new buffer.
-- A `Size` is a 64-bit word, and `assert` is compiled in.
pub mod Capacity
pub mod Storage
pub mod Sound
pub mod Replace
pub mod Unshare
pub mod Put
pub mod Append
pub mod Consume
pub mod Discard
pub mod Queue
pub mod Refused
pub mod Program
pub mod Life
mod Examples
use noctisplanet_foundation.Prelude.{
  ℕ, zero, suc, ◌+◌, ◌-◌, ◌%◌, ◌^◌, ◌≡◌, Bool, List, [], ◌∷◌, Option, none, some, ltb, leb, ◌==◌,
  if◌then◌else◌, drop, Run, ok, undefined, assert_failed, ◌>>=◌, ◌>>◌, present, assert,
}
use noctisplanet_foundation.Memory.{Memory, Pointer, pointer, advance, load, ByteBufferAllocator}
use noctisplanet_foundation.CopyOnWriteBacked.{Store, Element, make, read, assign, unique}
use noctisplanet_foundation.ByteBuffer.Capacity.{minimum_of}
use noctisplanet_foundation.ByteBuffer.Storage.{
  ByteBufferStorage, new_storage, copy_storage, destroy_storage, set_bytes, copy_bytes_to,
}

abbrev pub World : Type 0
World = Store ByteBufferStorage Memory

abbrev pub storage_element : Element ByteBufferStorage Memory
storage_element = record { copy = copy_storage; destroy = destroy_storage }

pub record ByteBuffer : Type 0 where
  pub reader_index : ℕ
  pub writer_index : ℕ
  pub storage : Option ℕ

abbrev pub size_t : ℕ → ℕ
size_t n = n % 2 ^ 64

-- `ByteBuffer(allocator, capacity)`, which `ByteBufferAllocator::buffer` calls.
unfoldable pub new_buffer : ByteBufferAllocator → ℕ → World → ByteBuffer × World
new_buffer allocator capacity w =
    let (s, m) = new_storage allocator capacity w.world in
    let (storage, w') = make s (record w { world = m }) in
    (record { reader_index = 0; writer_index = 0; storage = storage }, w')

-- The address of a block's first byte.
abbrev pub base_of : ByteBufferStorage → Option Pointer
base_of s = elim s.bytes [ none ↦ none | some r ↦ some (pointer r 0) ]

unfoldable pub bytes : ByteBuffer → World → Run (Option Pointer)
bytes b w = do s ← read b.storage w; ok (base_of s)

unfoldable pub mutable_bytes : ByteBuffer → World → Run (Option Pointer × ByteBuffer × World)
mutable_bytes b w = do
  (h, w') ← unique storage_element b.storage w
  s ← read h w'
  ok (base_of s, record b { storage = h }, w')

unfoldable pub readable_bytes_view : ByteBuffer → World → Run (Option Pointer)
unfolding bytes
readable_bytes_view b w = do
  base ← bytes b w
  ok (elim base [ none ↦ none | some p ↦ some (advance p b.reader_index) ])

unfoldable pub capacity : ByteBuffer → World → Run ℕ
capacity b w = do s ← read b.storage w; ok s.capacity

unfoldable pub writable_bytes : ByteBuffer → World → Run ℕ
unfolding capacity
writable_bytes b w = do
  c ← capacity b w
  ok (if ltb b.writer_index c then c - b.writer_index else 0)

unfoldable pub readable_bytes : ByteBuffer → ℕ
readable_bytes b = if ltb b.reader_index b.writer_index then b.writer_index - b.reader_index else 0

unfoldable pub move_reader_index_to : ByteBuffer → ℕ → Run ByteBuffer
move_reader_index_to b index =
    assert (leb index b.writer_index) >> ok (record b { reader_index = index })

unfoldable pub move_reader_index_forward_by : ByteBuffer → ℕ → Run ByteBuffer
unfolding move_reader_index_to
move_reader_index_forward_by b offset = move_reader_index_to b (size_t (b.reader_index + offset))

unfoldable pub move_writer_index_to : ByteBuffer → ℕ → World → Run ByteBuffer
unfolding capacity
move_writer_index_to b index w = do
  c ← capacity b w
  assert (leb index c)
  ok (record b { writer_index = index })

unfoldable pub move_writer_index_forward_by : ByteBuffer → ℕ → World → Run ByteBuffer
unfolding move_writer_index_to
move_writer_index_forward_by b offset w =
    move_writer_index_to b (size_t (b.writer_index + offset)) w

-- `storage.unique()->setBytes(bytes, size, at)`: the reference, the count and the new world.
unfoldable pub set_unique :
    Option ℕ
    → (ByteBufferStorage → Run (Option Pointer))
    → ℕ
    → ℕ
    → World
    → Run (ℕ × Option ℕ × World)
set_unique storage source size at w = do
  (h, w₁) ← unique storage_element storage w
  s ← read h w₁
  bytes ← source s
  (n, s', m) ← set_bytes s bytes size at w₁.world
  w₂ ← assign h s' m w₁
  ok (n, h, w₂)

unfoldable pub write_bytes : ByteBuffer → Option Pointer → ℕ → World → Run (ℕ × ByteBuffer × World)
unfolding set_unique
write_bytes b source size w = do
  (written, h, w') ← set_unique b.storage (λ _. ok source) size b.writer_index w
  b' ← move_writer_index_forward_by (record b { storage = h }) written w'
  ok (written, b', w')

-- A `std::string` is its data and its size.
unfoldable pub write_string : ByteBuffer → Pointer → ℕ → World → Run (ℕ × ByteBuffer × World)
unfolding write_bytes
write_string b string size w = write_bytes b (some string) size w

-- `strlen`: the bytes before the first NUL, which there has to be.
unfoldable pub string_length : List ℕ → Run ℕ
string_length [] = undefined
string_length (c ∷ cs) =
    let rest = string_length cs in if c == 0 then ok 0 else (rest >>= λ n. ok (suc n))

unfoldable pub strlen : Pointer → Memory → Run ℕ
unfolding string_length
strlen p m = do xs ← present (m.regions p.region); string_length (drop p.offset xs)

unfoldable pub write_c_string : ByteBuffer → Option Pointer → World → Run (ℕ × ByteBuffer × World)
unfolding strlen write_bytes
write_c_string b none w = ok (0, b, w)
write_c_string b (some c_string) w = do
  size ← strlen c_string w.world
  write_bytes b (some c_string) size w

unfoldable pub read_bytes : ByteBuffer → Option Pointer → ℕ → World → Run (ℕ × ByteBuffer × World)
unfolding minimum_of readable_bytes move_reader_index_forward_by
read_bytes b destination size w =
    let count = minimum_of size (readable_bytes b) in
    let copy : Run (ℕ × ByteBuffer × World) = do
      s ← read b.storage w
      (n, m) ← copy_bytes_to s destination count b.reader_index w.world
      b' ← move_reader_index_forward_by b n
      ok (n, b', record w { world = m })
    in if count == 0 then ok (0, b, w) else copy

-- `std::string(data, count)` of a null pointer is undefined behaviour.
unfoldable pub read_string : ByteBuffer → ℕ → World → Run (List ℕ × ByteBuffer)
unfolding minimum_of readable_bytes readable_bytes_view move_reader_index_forward_by
read_string b size w =
    let count = minimum_of size (readable_bytes b) in
    let take_out : Run (List ℕ × ByteBuffer) = do
      view ← readable_bytes_view b w
      p ← present view
      string ← load p count w.world
      b' ← move_reader_index_forward_by b count
      ok (string, b')
    in if count == 0 then ok ([], b) else take_out

unfoldable pub skip_bytes : ByteBuffer → ℕ → Run (ℕ × ByteBuffer)
unfolding minimum_of readable_bytes move_reader_index_forward_by
skip_bytes b size = do
  let count = minimum_of size (readable_bytes b)
  b' ← move_reader_index_forward_by b count
  ok (count, b')

-- Adding to a null pointer is undefined behaviour.
unfoldable pub discard_read_bytes : ByteBuffer → World → Run (ByteBuffer × World)
unfolding readable_bytes set_unique
discard_read_bytes b w =
    let readable = readable_bytes b in
    let move : Run (Option ℕ × World) = do
      (_, h, w') ←
          set_unique b.storage (λ s. present s.bytes >>= λ r. ok (some (pointer r b.reader_index)))
            readable 0 w
      ok (h, w')
    in let moved : Run (Option ℕ × World) = if ltb 0 readable then move else ok (b.storage, w) in
      let reset : Run (ByteBuffer × World) = do
        (h, w') ← moved
        ok (record { reader_index = 0; writer_index = readable; storage = h }, w')
      in if b.reader_index == 0 then ok (b, w) else reset

unfoldable pub clear : ByteBuffer → ByteBuffer
clear b = record b { reader_index = 0; writer_index = 0 }
