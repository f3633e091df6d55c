-- ===== src/ByteBuffer/Queue/Sample.antt =====
-- A buffer of four bytes, two of them shown, and a region of six that it writes from and reads to.
use noctisplanet_foundation.Prelude.{
  ℕ, ◌≡◌, refl, List, [], ◌∷◌, none, some, arith, sym, ◌∙◌, ◌==◌, if◌then◌else◌,
}
use noctisplanet_foundation.Memory.Arena.{arena, arena-IsLawful}
use noctisplanet_foundation.CopyOnWriteBacked.{read}
use noctisplanet_foundation.CopyOnWriteBacked.Counted.{element_at}
use noctisplanet_foundation.ByteBuffer.{World, ByteBuffer, capacity}
use noctisplanet_foundation.ByteBuffer.Storage.{ByteBufferStorage}
use noctisplanet_foundation.ByteBuffer.Storage.Live.{IsLive}
use noctisplanet_foundation.ByteBuffer.Sound.{some_eq, Sound}
use native.Mathlib.Decide.{ℕ_discrete}
use noctisplanet_foundation.ByteBuffer.Queue.{Queue}
use noctisplanet_foundation.ByteBuffer.Queue.Represents.{Represents}

abbrev pub input : List ℕ
input = 104 ∷ 101 ∷ 108 ∷ 108 ∷ 111 ∷ 0 ∷ []

abbrev pub held : List ℕ
held = 1 ∷ 2 ∷ 3 ∷ 0 ∷ []

abbrev pub block : ByteBufferStorage
block = record { bytes = some 0; capacity = 4; allocator = arena }

abbrev pub world : World
world = record {
  blocks = λ p. if p == 0 then some (record { element = block; retain_count = 1 }) else none;
  next = 1;
  world = record {
    regions = λ r. if r == 0 then some held else if r == 100 then some input else none;
    book = 1;
  };
}

abbrev pub buffer : ByteBuffer
buffer = record { reader_index = 1; writer_index = 3; storage = some 0 }

abbrev pub queue : Queue
queue = record { shown = 2 ∷ 3 ∷ []; used = 3; room = 4; user = input }

block-IsLive : IsLive world.world block held
block-IsLive = record { held = refl; size = refl; bounded = omega arith; lawful = arena-IsLawful }

only_block :
    (q : ℕ) (t : ByteBufferStorage) → element_at (world.blocks q) ≡ some t → (q ≡ 0) × (block ≡ t)
only_block q t e = elim (ℕ_discrete q 0) [
  | yes is ↦
      let here : element_at (world.blocks q) ≡ some block = rw is refl in
      (is, some_eq (sym here ∙ e))
  | no ne ↦
      let absent : element_at (world.blocks q) ≡ none = ground arith in
      let clash = sym absent ∙ e in absurd cc
]

world-Sound : Sound world (some 0 ∷ [])
world-Sound = record {
  counted = record {
    counts = λ p b e. ground arith;
    absent = λ p e. ground arith;
    fresh = λ p h. ground arith;
    few = omega arith;
  };
  live = λ q t e. (held, rw (sym (only_block q t e).1) block-IsLive);
  apart = λ i j r t u et eu bt bu. (only_block i t et).0 ∙ sym (only_block j u eu).0;
}

pub buffer-Represents : Represents [] 100 6 world buffer queue
unfolding capacity read
buffer-Represents = record {
  sound = world-Sound;
  shows = record {
    block = 0;
    storage = block;
    all = held;
    is = refl;
    there = record { found = refl; live = block-IsLive };
    ordered = omega arith;
    within = omega arith;
    shown = refl;
  };
  alone = λ q e. refl;
  used = refl;
  room = refl;
  user = record {
    held = refl;
    outside = λ p t e. rw (sym (only_block p t e).1) (λ same. ground arith);
  };
  extent = refl;
}
