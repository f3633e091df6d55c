-- ===== src/ByteBuffer/Storage/Examples.antt =====
-- The theorems about storage, at a block of four bytes.
use noctisplanet_foundation.Prelude.{
  ℕ, ◌+◌, ◌*◌, ◌^◌, ◌<◌, ◌≤◌, ◌≡◌, refl, List, [], ◌∷◌, none, some, arith, ◌==◌, if◌then◌else◌,
  Ends, inr,
}
use noctisplanet_foundation.Memory.{Memory, pointer}
use noctisplanet_foundation.Memory.Laws.{Readable}
use noctisplanet_foundation.Memory.Arena.{arena, arena-IsLawful}
use noctisplanet_foundation.ByteBuffer.Capacity.{size_max, next_power_of_2_clamped_to_max}
use noctisplanet_foundation.ByteBuffer.Capacity.Bounds.{
  next_power_of_2_least, next_power_of_2_saturates,
}
use noctisplanet_foundation.ByteBuffer.Storage.{
  ByteBufferStorage, new_storage, copy_storage, destroy_storage, reserve, set_bytes,
}
use noctisplanet_foundation.ByteBuffer.Storage.Live.{IsLive}
use noctisplanet_foundation.ByteBuffer.Storage.Reserve.{Reserved, reserve-Reserved}
use noctisplanet_foundation.ByteBuffer.Storage.Life.{
  Made, new_storage-Made, Copied, copy_storage-Copied, Destroyed, destroy_storage-Destroyed,
}
use noctisplanet_foundation.ByteBuffer.Storage.Write.{Written, set_bytes-Written}

abbrev held : List ℕ
held = 1 ∷ 2 ∷ 3 ∷ 4 ∷ []

abbrev outside : List ℕ
outside = 7 ∷ 8 ∷ 9 ∷ []

abbrev memory : Memory
memory = record {
  regions = λ r. if r == 0 then some held else if r == 9 then some outside else none;
  book = 1;
}

abbrev block : ByteBufferStorage
block = record { bytes = some 0; capacity = 4; allocator = arena }

block-IsLive : IsLive memory block held
block-IsLive = record { held = refl; size = refl; bounded = omega arith; lawful = arena-IsLawful }

outside-Readable : Readable memory (pointer 9 0) outside
outside-Readable = record { all = outside; live = refl; within = omega arith; bytes_there = refl }

reserve-Reserved_example : Ends (Reserved block memory held 6) (reserve block 6 memory)
reserve-Reserved_example = reserve-Reserved block 6 memory held (omega arith) block-IsLive

new_storage-Made_example : Made 3 memory (new_storage arena 3 memory)
new_storage-Made_example = new_storage-Made arena 3 memory arena-IsLawful (omega arith)

copy_storage-Copied_example : Ends (Copied block memory held) (copy_storage block memory)
copy_storage-Copied_example = copy_storage-Copied block memory held block-IsLive

destroy_storage-Destroyed_example : Ends (Destroyed block memory) (destroy_storage block memory)
destroy_storage-Destroyed_example = destroy_storage-Destroyed block memory held block-IsLive

set_bytes-Written_example :
    Ends (Written block memory held 3 outside) (set_bytes block (some (pointer 9 0)) 3 3 memory)
set_bytes-Written_example =
    set_bytes-Written block memory held 3 (pointer 9 0) outside block-IsLive outside-Readable
      (omega arith) (inr λ e. ground arith)

next_power_of_2_least_example :
    (k : ℕ) × (next_power_of_2_clamped_to_max 37 ≡ 2 ^ k) × (37 ≤ 2 ^ k) × (2 ^ k < 2 * 37)
next_power_of_2_least_example = next_power_of_2_least 37 (omega arith) (omega arith)

next_power_of_2_saturates_example : next_power_of_2_clamped_to_max (2 ^ 63 + 1) ≡ size_max
next_power_of_2_saturates_example =
    next_power_of_2_saturates (2 ^ 63 + 1) (omega arith) (omega arith)
