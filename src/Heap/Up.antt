-- ===== src/Heap/Up.antt =====
-- `siftUp` repairs a heap in which only one entry may come before its parent.
use mathlib.Core.List.{Perm}
use mathlib.Core.List.Perm
use noctisplanet_foundation.Prelude.{
  ℕ, zero, suc, ◌<◌, ◌≡◌, ◌≢◌, true, false, not, List, arith, ltb, length, get_elem?, Ends, ends,
  Ends-bind, Ends-weaken, Ends-if,
}
use noctisplanet_foundation.Heap.{HeapType, Comparable, parent_index, sift_up_loop, sift_up}
use noctisplanet_foundation.Heap.Order.{
  first, IsHeap, first_asym, first_weak, comparator-ok, Swapped, swap-Swapped,
}

module _ {ℓ} {A : Type ℓ} ⦃o : Comparable A⦄ (type : HeapType) where
  -- The only edge that may be out of order is the one above `i`; the entries below `i` may stand
  -- below the parent of `i`.
  pub record Rising (a : List A) (i : ℕ) : Type 0 where
    pub inside : i < length a
    pub others_in_order :
        (c : ℕ)
        → 0 < c
        → c < length a
        → c ≢ i
        → first type (get_elem? a c) (get_elem? a (parent_index c)) ≡ false
    pub below :
        (c : ℕ)
        → 0 < c
        → c < length a
        → parent_index c ≡ i
        → 0 < i
        → first type (get_elem? a c) (get_elem? a (parent_index i)) ≡ false

  swap-Rising :
      (a b : List A) (i : ℕ)
      → Rising a i
      → 0 < i
      → first type (get_elem? a i) (get_elem? a (parent_index i)) ≡ true
      → Swapped a i (parent_index i) b
      → Rising b (parent_index i)
  swap-Rising a b i r pos rises s =
      let up = parent_index i in
      let at = get_elem? a in
      record {
        inside = omega (arith, s.length_kept, r.inside);
        others_in_order = λ c p q ne. ground (
          arith,
          s.length_kept,
          s.entry c,
          s.entry (parent_index c),
          r.others_in_order c,
          r.below c,
          first_asym type (at i) (at up),
          first_weak type (at c) (at up) (at i),
        );
        below = λ c p q e pos'. ground (
          arith,
          s.length_kept,
          s.entry c,
          s.entry (parent_index up),
          r.others_in_order c,
          r.others_in_order up,
          r.inside,
          first_weak type (at c) (at up) (at (parent_index up)),
        );
      }

  sift_up_loop-IsHeap :
      (fuel : ℕ) (a : List A) (i : ℕ)
      → i < fuel
      → Rising a i
      → Ends (λ b. IsHeap type b × Perm b a) (sift_up_loop fuel type a i)
  unfolding sift_up_loop
  sift_up_loop-IsHeap zero a i f r = absurd (omega arith)
  sift_up_loop-IsHeap (suc fuel) a i f r =
      let up = parent_index i in
      let above : up < length a = omega (arith, r.inside) in
      let rises = first type (get_elem? a i) (get_elem? a up) in
      rw (comparator-ok type a i up r.inside above) (
        Ends-if (ltb 0 i)
          (λ pos.
            Ends-if (not rises)
              (λ settled. ends (λ c p q _. ground (arith, r.others_in_order c), Perm.rfl))
              (λ climbs. Ends-bind (swap-Swapped a i up r.inside above) λ b s.
                let next = swap-Rising a b i r (ground arith) (ground arith) s in
                Ends-weaken (sift_up_loop-IsHeap fuel b up (ground arith) next)
                  λ c done. (done.0, Perm.trans done.1 s.perm)))
          (λ root. ends (λ c p q _. r.others_in_order c p q (ground arith), Perm.rfl)))

  -- `siftUp` ends, within the vector's bounds, and leaves a heap of the same entries.
  pub sift_up-IsHeap :
      (a : List A) (i : ℕ) → Rising a i → Ends (λ b. IsHeap type b × Perm b a) (sift_up type a i)
  unfolding sift_up
  sift_up-IsHeap a i r = sift_up_loop-IsHeap (suc i) a i (omega arith) r
