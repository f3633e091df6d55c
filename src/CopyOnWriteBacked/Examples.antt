-- ===== src/CopyOnWriteBacked/Examples.antt =====
-- References to a counter, and the theorems about them; the world counts the counters destroyed.
use noctisplanet_foundation.Prelude.{
  ℕ, suc, ◌≡◌, refl, [], ◌∷◌, none, some, arith, true, false, Run, ok, ◌>>=◌, Ends, ends, ◌==◌,
  if◌then◌else◌,
}
use noctisplanet_foundation.CopyOnWriteBacked.Threads.{
  Sharing, moved, Reaches, here, then_step, counted, released, found_shared, let_go, destroyed,
  begin, Safe, Reaches-Safe,
}
use noctisplanet_foundation.CopyOnWriteBacked.{
  Store, Element, make, copy_construct, assign, read, release, copy_assign, move_assign, unique,
}
use noctisplanet_foundation.CopyOnWriteBacked.Counted.{Counted}
use noctisplanet_foundation.CopyOnWriteBacked.Shared.{Released, release-Released}
use noctisplanet_foundation.CopyOnWriteBacked.Assign.{
  Assigned, copy_assign-Assigned, Moved, move_assign-Moved,
}
use noctisplanet_foundation.CopyOnWriteBacked.Unique.{Unshared, unique-Unshared}

abbrev counter : Element ℕ ℕ
counter = record { copy = λ t w. ok (t, w); destroy = λ t w. ok (suc w) }

abbrev start : Store ℕ ℕ
start = record { blocks = λ _. none; next = 0; world = 0 }

-- A write through the unique reference is not seen through the other.
abbrev session : Run (ℕ × ℕ × ℕ)
session = do
  let (a, st) = make 5 start
  (b, st) ← copy_construct a st
  (a, st) ← unique counter a st
  st ← assign a 6 st.world st
  x ← read a st
  y ← read b st
  (a, st) ← copy_assign counter a b st
  ok (x, y, st.world)

session_result : session ≡ ok (6, 5, 1)
unfolding make copy_construct unique assign read copy_assign
session_result = refl

-- Two references to the block 0 and one to the block 1.
abbrev store : Store ℕ ℕ
store = record {
  blocks = λ p.
      if p == 0
      then some (record { element = 5; retain_count = 2 })
      else if p == 1
      then some (record { element = 8; retain_count = 1 })
      else none;
  next = 2;
  world = 0;
}

store-Counted : Counted store (some 0 ∷ some 0 ∷ some 1 ∷ [])
store-Counted = record {
  counts = λ p b e. ground arith;
  absent = λ p e. ground arith;
  fresh = λ p h. ground arith;
  few = omega arith;
}

store-Counted_reordered : Counted store (some 1 ∷ some 0 ∷ some 0 ∷ [])
store-Counted_reordered = record {
  counts = λ p b e. ground arith;
  absent = λ p e. ground arith;
  fresh = λ p h. ground arith;
  few = omega arith;
}

abbrev Any : ℕ → Type 0
Any _ = Unit {0}

unique-Unshared_example :
    Ends
      (Unshared counter (λ (t, w). t ≡ 5) store 0 (some 0 ∷ some 1 ∷ []))
      (unique counter (some 0) store)
unique-Unshared_example =
    unique-Unshared counter (λ (t, w). t ≡ 5) store 0 (some 0 ∷ some 1 ∷ []) (omega arith)
      store-Counted λ t e more. ends (ground arith)

release-Released_example :
    Ends (Released counter Any store 1 (some 0 ∷ some 0 ∷ [])) (release counter 1 store)
release-Released_example =
    release-Released counter Any store 1 (some 0 ∷ some 0 ∷ []) store-Counted_reordered
      λ t e gone. ends tt

copy_assign-Assigned_example :
    Ends
      (Assigned counter Any store (some 1) 0 (some 0 ∷ []))
      (copy_assign counter (some 1) (some 0) store)
copy_assign-Assigned_example =
    copy_assign-Assigned counter Any store 0 (some 0 ∷ []) (omega arith) (some 1)
      store-Counted_reordered λ q is t e gone. ends tt

move_assign-Moved_example :
    Ends
      (Moved counter Any store (some 1) (some 0) (some 0 ∷ []))
      (move_assign counter true (some 1) (some 0) store)
    × (move_assign counter false (some 1) (some 1) store ≡ ok (some 1, some 1, store))
move_assign-Moved_example =
    move_assign-Moved counter Any store (some 1) (some 0) (some 0 ∷ []) store-Counted_reordered
      λ q is t e gone. ends tt

-- A thread goes through `unique` while the other one releases its reference, after the counter is loaded:
-- it copies, and then deletes the block itself.
abbrev raced : Sharing
raced = record { retain_count = 0; others = 0; phase = moved; deleting = 0; deleted = 1 }

raced_reached : Reaches (begin 1) raced
raced_reached =
    then_step
      (then_step
        (then_step (then_step (then_step here (counted refl)) (released (omega arith)))
          (found_shared 2 refl refl))
        (let_go refl))
      (destroyed (omega arith))

Reaches-Safe_example : Safe raced
Reaches-Safe_example = Reaches-Safe 1 (omega arith) raced raced_reached
