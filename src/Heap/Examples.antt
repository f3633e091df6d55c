-- ===== src/Heap/Examples.antt =====
-- Runs of the heap, and its theorems at concrete heaps.
use noctisplanet_foundation.Prelude.{
  ℕ, ◌≡◌, refl, true, false, List, [], ◌∷◌, some, arith, ltb, Option, Run, ok, undefined, ◌>>=◌,
  Ends,
}
use noctisplanet_foundation.Heap.{
  HeapType, max, min, Heap, Comparable, from_list, push, pop, sift_up,
}
use noctisplanet_foundation.Heap.Order.{IsHeap}
use noctisplanet_foundation.Heap.Grow.{Holds, push-Holds}
use noctisplanet_foundation.Heap.Pop.{Popped, pop-Popped}
use noctisplanet_foundation.Heap.Drain.{drain, Drained, from_list-drain}

less_asym : (a b : ℕ) → ltb a b ≡ true → ltb b a ≡ false
less_asym a b h = ground arith

less_weak : (a b c : ℕ) → ltb a b ≡ false → ltb b c ≡ false → ltb a c ≡ false
less_weak a b c p q = ground arith

instance abbrev ℕ_comparable : Comparable ℕ
ℕ_comparable = record {
  less = ltb;
  greater = λ a b. ltb b a;
  greater_less = λ a b. refl;
  less_asym = less_asym;
  less_weak = less_weak;
}

abbrev heap : HeapType → List ℕ → Heap ℕ
heap type a = record { storage = a; type = type }

built : from_list (5 ∷ 1 ∷ 9 ∷ 3 ∷ []) max ≡ ok (heap max (9 ∷ 3 ∷ 5 ∷ 1 ∷ []))
unfolding from_list
built = refl

abbrev session : Run (Option ℕ × Option ℕ × Option ℕ × List ℕ)
session = do
  h ← from_list (5 ∷ 1 ∷ 9 ∷ 3 ∷ []) min
  h ← push h 2
  (a, h) ← pop h
  (b, h) ← pop h
  (c, h) ← pop h
  ok (a, b, c, h.storage)

session_result : session ≡ ok (some 1, some 2, some 3, 5 ∷ 9 ∷ [])
unfolding from_list push pop
session_result = refl

-- An index past the vector is undefined behaviour.
sift_up_outside : sift_up {A = ℕ} min (3 ∷ []) 4 ≡ undefined
unfolding sift_up
sift_up_outside = refl

abbrev sample : Heap ℕ
sample = heap min (1 ∷ 2 ∷ 9 ∷ 3 ∷ [])

sample-IsHeap : IsHeap min sample.storage
sample-IsHeap = grind arith

push-Holds_example : Ends (Holds min (0 ∷ sample.storage)) (push sample 0)
push-Holds_example = push-Holds sample 0 sample-IsHeap

pop-Popped_example : Ends (Popped sample) (pop sample)
pop-Popped_example = pop-Popped sample sample-IsHeap

from_list-drain_example :
    Ends
      (Drained {A = ℕ} min (5 ∷ 1 ∷ 9 ∷ 1 ∷ []))
      (from_list (5 ∷ 1 ∷ 9 ∷ 1 ∷ []) min >>= λ h. drain 5 h)
from_list-drain_example = from_list-drain {A = ℕ} (5 ∷ 1 ∷ 9 ∷ 1 ∷ []) min
