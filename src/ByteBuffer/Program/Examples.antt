-- ===== src/ByteBuffer/Program/Examples.antt =====
-- A buffer of four bytes, two of them shown, is copied, the copy is written, assigned and read.
use noctisplanet_foundation.Prelude.{
  ◌≡◌, ◌≢◌, refl, List, [], ◌∷◌, none, some, arith, Run, ok, Ends, subst, sym, ◌∙◌,
}
use noctisplanet_foundation.CopyOnWriteBacked.{
  put, make, unique, assign, release, copy_construct, copy_assign, drop_reference,
}
use noctisplanet_foundation.CopyOnWriteBacked.Counted.{element_at}
use noctisplanet_foundation.ByteBuffer.{
  World, ByteBuffer, write_bytes, read_bytes, read_string, discard_read_bytes,
  move_writer_index_forward_by,
}
use noctisplanet_foundation.ByteBuffer.Storage.{
  ByteBufferStorage, set_bytes, copy_bytes_to, copy_storage, destroy_storage,
}
use noctisplanet_foundation.ByteBuffer.Capacity.{next_power_of_2_clamped_to_max}
use noctisplanet_foundation.Memory.{memmove}
use noctisplanet_foundation.ByteBuffer.Sound.{some_eq}
use noctisplanet_foundation.ByteBuffer.Queue.{Answer, number, text, nothing}
use noctisplanet_foundation.ByteBuffer.Queue.Sample.{input, world, block, buffer, buffer-Represents}
use noctisplanet_foundation.ByteBuffer.Program.{
  append, read_to, take_string, discard, copy, destroy, Command, on, assign_to, act_at, obey,
  obey_all, Effects, Allocates,
}
use noctisplanet_foundation.ByteBuffer.Program.Refines.{ReadyAll, Left, obey_all-Left}

abbrev answers_of : Run (List Answer × List ByteBuffer × World) → List Answer
answers_of (ok (answers, bs, w)) = answers
answers_of _ = []

abbrev session : List Command
session =
    on 0 copy
    ∷ on 1 (append 0 2)
    ∷ on 0 (take_string 9)
    ∷ assign_to 0 1
    ∷ on 0 (take_string 1)
    ∷ on 0 destroy
    ∷ on 0 discard
    ∷ on 0 (read_to 4 1)
    ∷ on 0 (append 4 1)
    ∷ on 0 (take_string 9)
    ∷ []

session_result :
    answers_of (obey_all 100 session (buffer ∷ []) world)
    ≡ nothing
      ∷ number 2
      ∷ text (2 ∷ 3 ∷ [])
      ∷ nothing
      ∷ text (2 ∷ [])
      ∷ nothing
      ∷ nothing
      ∷ number 1
      ∷ number 1
      ∷ text (3 ∷ 104 ∷ 101 ∷ 2 ∷ [])
      ∷ []
unfolding obey_all copy_construct write_bytes read_bytes read_string discard_read_bytes unique make
    set_bytes copy_bytes_to assign copy_assign move_writer_index_forward_by copy_storage release
    next_power_of_2_clamped_to_max memmove drop_reference destroy_storage
session_result = refl

-- What copying the buffer leaves.
abbrev shared : World
shared = record world {
  blocks = put world.blocks 0 (some (record { element = block; retain_count = 2 }));
}

copied_result : act_at 100 0 copy (buffer ∷ []) world ≡ ok (nothing, buffer ∷ buffer ∷ [], shared)
unfolding act_at copy_construct
copied_result = refl

shared-Allocates : Allocates shared buffer
shared-Allocates p s is e =
    let here : element_at (shared.blocks p) ≡ some block = rw (sym (some_eq is)) refl in
    let same : block ≡ s = some_eq (sym here ∙ e) in
    subst (λ (t : ByteBufferStorage). (t.allocator.allocate t.capacity shared.world).0 ≢ none) same
      (λ none_left. cc)

abbrev commands : List Command
commands = on 0 copy ∷ on 1 (append 3 2) ∷ []

commands-ReadyAll : ReadyAll 100 6 0 commands (buffer ∷ []) world
unfolding obey
commands-ReadyAll = (
  omega arith,
  tt,
  λ answer bs w e.
      subst
        (λ (res : Answer × List ByteBuffer × World).
          ReadyAll 100 6 0 (on 1 (append 3 2) ∷ []) res.1 res.2)
        (ok_eq (sym copied_result ∙ e))
        (omega arith, (omega arith, shared-Allocates), λ _ _ _ _. tt),
)
  where
    ok_eq : {A : Type 0} {x y : A} → ok x ≡ ok y → x ≡ y
    ok_eq e = cc

obey_all-Left_example :
    Ends
      (λ (answers, bs, w).
        Left 100 6 [] world (Effects input commands ((2 ∷ 3 ∷ []) ∷ []) answers) bs w)
      (obey_all 100 commands (buffer ∷ []) world)
obey_all-Left_example =
    obey_all-Left 100 6 (omega arith) [] commands (buffer ∷ []) ((2 ∷ 3 ∷ []) ∷ []) input world refl
      buffer-Represents.sound (buffer-Represents.shows, tt) buffer-Represents.user commands-ReadyAll
