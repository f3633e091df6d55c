-- ===== src/Heap/Grow.antt =====
-- Building a heap of a vector, and `push`: both end within the vector's bounds, keep the heap order
-- and add nothing but what they are given.
use mathlib.Core.List.{Perm, append-nil, perm_middle}
use mathlib.Core.List.Perm
use noctisplanet_foundation.Prelude.{
  ℕ, zero, suc, ◌+◌, ◌-◌, ◌/◌, ◌≤◌, ◌≡◌, refl, List, [], ◌∷◌, ◌++◌, arith, length, length-append,
  get_elem?-append_left, Ends, ends, Ends-bind, Ends-weaken,
}
use noctisplanet_foundation.Heap.{
  HeapType, Heap, Comparable, parent_index, build_loop, from_list, push,
}
use noctisplanet_foundation.Heap.Order.{IsHeap, IsHeapFrom}
use noctisplanet_foundation.Heap.Up.{Rising, sift_up-IsHeap}
use noctisplanet_foundation.Heap.Down.{Sinking, Heapified, heapify-Heapified}

module _ {ℓ} {A : Type ℓ} where
  pub perm_concat : (a : List A) (x : A) → Perm (a ++ x ∷ []) (x ∷ a)
  perm_concat a x = rw (append-nil a) at (perm_middle {a = x} a [])

module _ {ℓ} {A : Type ℓ} ⦃o : Comparable A⦄ where
  build_loop-Heapified :
      (type : HeapType) (k n : ℕ) (a : List A)
      → n ≤ length a
      → IsHeapFrom type k n a
      → Ends (Heapified type 0 n a) (build_loop k type a n)
  unfolding build_loop
  build_loop-Heapified type zero n a fits h =
      ends (record { ordered = h; perm = Perm.rfl; length_kept = refl; rest = λ c p. refl })
  build_loop-Heapified type (suc k) n a fits h =
      let start : Sinking type k n a k = record {
        fits = fits;
        others_in_order = λ c p q r ne. h c p q (omega arith);
        below = λ c p q e pos r. absurd (omega arith);
      } in
      Ends-bind (heapify-Heapified type k n a k start) λ b s.
        Ends-weaken (build_loop-Heapified type k n b (omega (arith, s.length_kept)) s.ordered)
          λ c t. record {
            ordered = t.ordered;
            perm = Perm.trans t.perm s.perm;
            length_kept = omega (arith, t.length_kept, s.length_kept);
            rest = λ i p. ground (arith, t.rest i, s.rest i);
          }

  -- `h` is a heap of the given type, of exactly the entries of `a`.
  pub record Holds (type : HeapType) (a : List A) (h : Heap A) : Type ℓ where
    pub ordered : IsHeap type h.storage
    pub same : Perm h.storage a
    pub kind : h.type ≡ type

  -- For entries with a strict weak order, building from any vector ends, within the vector's bounds,
  -- with a heap of exactly the vector's entries, of the type asked for.
  pub from_list-Holds : (a : List A) (type : HeapType) → Ends (Holds type a) (from_list a type)
  unfolding from_list
  from_list-Holds a type =
      Ends-bind
        (build_loop-Heapified type (length a / 2) (length a) a (omega arith)
          (λ c p q r. absurd (omega arith)))
        λ b s. ends (record { ordered = rw s.length_kept s.ordered; same = s.perm; kind = refl })

  -- For entries with a strict weak order, on a heap `push` ends, within the vector's bounds, with a
  -- heap of the same type that has exactly the new value more.
  pub push-Holds :
      (h : Heap A) (value : A)
      → IsHeap h.type h.storage
      → Ends (Holds h.type (value ∷ h.storage)) (push h value)
  unfolding push
  push-Holds h value v =
      let a = h.storage in
      let grown : length (a ++ value ∷ []) ≡ length a + 1 = length-append a (value ∷ []) in
      let start : Rising h.type (a ++ value ∷ []) (length (a ++ value ∷ []) - 1) = record {
        inside = omega (arith, grown);
        others_in_order = λ c p q ne. ground (
          arith,
          grown,
          v c,
          get_elem?-append_left a (value ∷ []) c,
          get_elem?-append_left a (value ∷ []) (parent_index c),
        );
        below = λ c p q e pos. absurd (omega (arith, grown));
      } in
      Ends-bind (sift_up-IsHeap h.type (a ++ value ∷ []) (length (a ++ value ∷ []) - 1) start)
        λ b (ordered, perm).
          ends (record {
            ordered = ordered;
            same = Perm.trans perm (perm_concat a value);
            kind = refl;
          })
