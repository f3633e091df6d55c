-- ===== src/ByteBuffer/Queue/Examples.antt =====
-- A buffer of four bytes, two of them shown, that writes from and reads to a region of six.
use noctisplanet_foundation.Prelude.{◌≡◌, List, [], ◌∷◌, arith, Ends}
use noctisplanet_foundation.ByteBuffer.Queue.{
  Operation, write_from, write_text, write_c, char, nul, make_mutable, read_to, take_string, skip,
  discard, number, text, perform_all,
}
use noctisplanet_foundation.ByteBuffer.Queue.Sample.{world, buffer, queue, buffer-Represents}
use noctisplanet_foundation.ByteBuffer.Queue.Refines.{FollowsAll, perform_all-FollowsAll}
use noctisplanet_foundation.ByteBuffer.Queue.RoundTrip.{write_bytes-read_string}

abbrev calls : List Operation
calls =
    write_c 2
    ∷ write_from 1 3
    ∷ read_to 0 2
    ∷ discard
    ∷ write_text 0 2
    ∷ make_mutable
    ∷ take_string 9
    ∷ []

perform_all-FollowsAll_example :
    Ends (FollowsAll [] 100 6 world calls queue) (perform_all 100 calls buffer world)
perform_all-FollowsAll_example =
    perform_all-FollowsAll [] 100 6 (omega arith) (omega arith) calls world buffer queue
      buffer-Represents
      (
        (
          3,
          char (λ e. absurd (omega arith))
              (char (λ e. absurd (omega arith)) (char (λ e. absurd (omega arith)) nul)),
        ),
        λ _ _ _. (
          omega arith,
          λ _ _ _. (
            omega arith,
            λ _ _ _. (tt, λ _ _ _. (omega arith, λ _ _ _. (tt, λ _ _ _. (tt, λ _ _ _. tt)))),
          ),
        ),
      )

write_bytes-read_string_example :
    Ends
      (λ (answers, b', w'). answers ≡ number 1 ∷ number 2 ∷ text (111 ∷ []) ∷ [])
      (perform_all 100 (write_from 4 1 ∷ skip 2 ∷ take_string 1 ∷ []) buffer world)
write_bytes-read_string_example =
    write_bytes-read_string [] 100 6 (omega arith) (omega arith) world buffer queue
      buffer-Represents 4 1 (omega arith) (omega arith)
