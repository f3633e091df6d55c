-- ===== src/ByteBuffer/Examples.antt =====
-- The buffer run with an arena for an allocator, and its theorems at buffers that share a block.
use noctisplanet_foundation.Prelude.{
  ℕ, ◌≡◌, refl, List, [], ◌∷◌, none, some, arith, Run, ok, ◌>>=◌, Ends, inr, sym, ◌∙◌, ◌==◌,
  if◌then◌else◌, assert_failed,
}
use noctisplanet_foundation.Memory.{pointer, memmove}
use noctisplanet_foundation.Memory.Laws.{Readable}
use noctisplanet_foundation.Memory.Arena.{arena, arena-IsLawful}
use noctisplanet_foundation.CopyOnWriteBacked.{
  copy_construct, unique, make, assign, release, drop_reference,
}
use noctisplanet_foundation.CopyOnWriteBacked.Counted.{Counted, element_at}
use noctisplanet_foundation.ByteBuffer.{
  World, ByteBuffer, storage_element, new_buffer, write_bytes, read_bytes, read_string,
  discard_read_bytes, capacity, move_writer_index_forward_by,
}
use noctisplanet_foundation.ByteBuffer.Storage.{
  ByteBufferStorage, set_bytes, new_storage, copy_storage,
}
use noctisplanet_foundation.ByteBuffer.Capacity.{next_power_of_2_clamped_to_max}
use noctisplanet_foundation.ByteBuffer.Storage.Live.{IsLive}
use noctisplanet_foundation.ByteBuffer.Sound.{some_eq, Sound, Shows}
use native.Mathlib.Decide.{ℕ_discrete}
use noctisplanet_foundation.ByteBuffer.Unshare.{CanSplit}
use noctisplanet_foundation.ByteBuffer.Append.{Appended, write_bytes-Appended}
use noctisplanet_foundation.ByteBuffer.Discard.{Discarded, discard_read_bytes-Discarded}
use noctisplanet_foundation.ByteBuffer.Consume.Out.{TakenOut, read_bytes-TakenOut}
use noctisplanet_foundation.ByteBuffer.Refused.{write_bytes-refused}
use noctisplanet_foundation.ByteBuffer.Life.Fresh.{Created}
use noctisplanet_foundation.ByteBuffer.Life.{new_buffer-Created, Gone, drop_reference-Gone}

-- A region of the caller's, with the bytes that are written.
abbrev input : List ℕ
input = 104 ∷ 101 ∷ 108 ∷ 108 ∷ 111 ∷ []

abbrev start : World
start = record {
  blocks = λ _. none;
  next = 0;
  world = record { regions = λ r. if r == 100 then some input else none; book = 0 };
}

-- Two buffers share a block; the write to one leaves what the other reads.
abbrev session : Run (List ℕ × List ℕ × List ℕ × ℕ)
session = do
  let (b, w) = new_buffer arena 4 start
  (_, b, w) ← write_bytes b (some (pointer 100 0)) 3 w
  (h, w) ← copy_construct b.storage w
  let c = record b { storage = h }
  (_, b, w) ← write_bytes b (some (pointer 100 3)) 2 w
  (first, b) ← read_string b 1 w
  (b, w) ← discard_read_bytes b w
  (rest, b) ← read_string b 9 w
  (other, c) ← read_string c 9 w
  n ← capacity b w
  ok (first, rest, other, n)

session_result : session ≡ ok (104 ∷ [], 101 ∷ 108 ∷ 108 ∷ 111 ∷ [], 104 ∷ 101 ∷ 108 ∷ [], 8)
unfolding new_buffer write_bytes copy_construct read_string discard_read_bytes capacity unique make
    set_bytes new_storage next_power_of_2_clamped_to_max memmove assign move_writer_index_forward_by
    copy_storage release
session_result = refl

-- Two references share the block 0, and the buffer has read one of its three bytes.
abbrev held : List ℕ
held = 104 ∷ 101 ∷ 108 ∷ 0 ∷ []

abbrev block : ByteBufferStorage
block = record { bytes = some 0; capacity = 4; allocator = arena }

abbrev shared : World
shared = record {
  blocks = λ p. if p == 0 then some (record { element = block; retain_count = 2 }) else none;
  next = 1;
  world = record {
    regions = λ r. if r == 0 then some held else if r == 100 then some input else none;
    book = 1;
  };
}

abbrev buffer : ByteBuffer
buffer = record { reader_index = 1; writer_index = 3; storage = some 0 }

block-IsLive : IsLive shared.world block held
block-IsLive = record { held = refl; size = refl; bounded = omega arith; lawful = arena-IsLawful }

only_block :
    (q : ℕ) (t : ByteBufferStorage) → element_at (shared.blocks q) ≡ some t → (q ≡ 0) × (block ≡ t)
only_block q t e = elim (ℕ_discrete q 0) [
  | yes is ↦
      let here : element_at (shared.blocks q) ≡ some block = rw is refl in
      (is, some_eq (sym here ∙ e))
  | no ne ↦
      let absent : element_at (shared.blocks q) ≡ none = ground arith in
      let clash = sym absent ∙ e in absurd cc
]

shared-Sound : Sound shared (some 0 ∷ some 0 ∷ [])
shared-Sound = record {
  counted = record {
    counts = λ p b e. ground arith;
    absent = λ p e. ground arith;
    fresh = λ p h. ground arith;
    few = omega arith;
  };
  live = λ q t e. (held, rw (sym (only_block q t e).1) block-IsLive);
  apart = λ i j r t u et eu bt bu. (only_block i t et).0 ∙ sym (only_block j u eu).0;
}

abbrev buffer-Shows : Shows shared buffer (101 ∷ 108 ∷ [])
buffer-Shows = record {
  block = 0;
  storage = block;
  all = held;
  is = refl;
  there = record { found = refl; live = block-IsLive };
  ordered = omega arith;
  within = omega arith;
  shown = refl;
}

input-Readable : Readable shared.world (pointer 100 3) (108 ∷ 111 ∷ [])
input-Readable = record { all = input; live = refl; within = omega arith; bytes_there = refl }

can_split : CanSplit shared 0 block (some 0 ∷ [])
can_split _ = inr λ e. cc

write_bytes-Appended_example :
    Ends
      (Appended shared buffer 4 (some 0 ∷ []) (101 ∷ 108 ∷ []) (108 ∷ 111 ∷ []))
      (write_bytes buffer (some (pointer 100 3)) 2 shared)
write_bytes-Appended_example =
    write_bytes-Appended shared buffer (some 0 ∷ []) (101 ∷ 108 ∷ []) (108 ∷ 111 ∷ []) buffer-Shows
      (pointer 100 3) shared-Sound (omega arith) can_split input-Readable (omega arith)
      λ e. ground arith

discard_read_bytes-Discarded_example :
    Ends
      (Discarded shared buffer 4 (some 0 ∷ []) (101 ∷ 108 ∷ []))
      (discard_read_bytes buffer shared)
discard_read_bytes-Discarded_example =
    discard_read_bytes-Discarded shared buffer (some 0 ∷ []) (101 ∷ 108 ∷ []) buffer-Shows
      shared-Sound (omega arith) can_split

read_bytes-TakenOut_example :
    Ends
      (TakenOut shared buffer (101 ∷ 108 ∷ []) buffer-Shows 2 (pointer 100 1) input)
      (read_bytes buffer (some (pointer 100 1)) 2 shared)
read_bytes-TakenOut_example =
    read_bytes-TakenOut shared buffer (101 ∷ 108 ∷ []) buffer-Shows 2 (pointer 100 1) input refl
      (omega arith) λ e. ground arith

new_buffer-Created_example : Created shared (some 0 ∷ some 0 ∷ []) (new_buffer arena 5 shared)
new_buffer-Created_example =
    new_buffer-Created shared (some 0 ∷ some 0 ∷ []) arena 5 shared-Sound (omega arith)
      arena-IsLawful (omega arith)

drop_reference-Gone_example :
    Ends (Gone shared (some 0) (some 0 ∷ [])) (drop_reference storage_element (some 0) shared)
drop_reference-Gone_example = drop_reference-Gone shared (some 0) (some 0 ∷ []) shared-Sound

-- The same buffers over an allocator that has no memory left.
abbrev poor_block : ByteBufferStorage
poor_block = record block { allocator = record arena { allocate = λ n m. (none, m) } }

abbrev poor : World
poor = record shared {
  blocks = λ p. if p == 0 then some (record { element = poor_block; retain_count = 2 }) else none;
}

poor-Counted : Counted poor (some 0 ∷ some 0 ∷ [])
poor-Counted = record {
  counts = λ p b e. ground arith;
  absent = λ p e. ground arith;
  fresh = λ p h. ground arith;
  few = omega arith;
}

write_bytes-refused_example : write_bytes buffer (some (pointer 100 0)) 5 poor ≡ assert_failed
write_bytes-refused_example =
    write_bytes-refused poor_block (λ n m. refl) poor 0 (some 0 ∷ []) (omega arith) poor-Counted
      refl (omega arith) buffer (some (pointer 100 0)) 5 refl (omega arith) (omega arith)
