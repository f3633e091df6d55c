-- ===== src/Heap/Down.antt =====
-- `heapify` repairs a subtree in which only its root may come after its children, and `build` makes
-- a heap of any vector by doing so for every entry that has children, from the last one up.
use mathlib.Core.List.{Perm}
use mathlib.Core.List.Perm
use noctisplanet_foundation.Prelude.{
  ℕ, zero, suc, ◌-◌, ◌≤◌, ◌<◌, ◌≡◌, refl, ◌≢◌, ◌⊎◌, inl, inr, true, false, not, List, arith, ◌==◌,
  ltb, length, get_elem?, Ends, ends, Ends-bind, Ends-weaken, Ends-if, Bool-cases, Option,
}
use noctisplanet_foundation.Heap.{
  HeapType, Comparable, parent_index, left_index, right_index, right_or, next_of, heapify_loop,
  heapify,
}
use noctisplanet_foundation.Heap.Order.{
  first, IsHeapFrom, first_asym, first_weak, comparator-ok, Swapped, swap-Swapped,
}

child_cases : (c i : ℕ) → 0 < c → parent_index c ≡ i → (c ≡ left_index i) ⊎ (c ≡ right_index i)
child_cases c i p e = omega arith

module _ {ℓ} {A : Type ℓ} ⦃o : Comparable A⦄ (type : HeapType) where
  -- `next` is `i` or the child of `i` that goes to its place: no child comes before it.
  pub record IsNext (a : List A) (i n next : ℕ) : Type 0 where
    pub place : (next ≡ i) ⊎ (parent_index next ≡ i)
    pub positive : (next ≡ i) ⊎ (0 < next)
    pub inside : (next ≡ i) ⊎ (next < n)
    pub leads : (next ≡ i) ⊎ (first type (get_elem? a next) (get_elem? a i) ≡ true)
    pub foremost :
        (c : ℕ)
        → 0 < c
        → c < n
        → parent_index c ≡ i
        → first type (get_elem? a c) (get_elem? a next) ≡ false

  -- The second half of the choice: `next` is the winner between `i` and its left child.
  right_child-IsNext :
      (a : List A) (i n next : ℕ)
      → n ≤ length a
      → left_index i < n
      → ((next ≡ i) × (first type (get_elem? a (left_index i)) (get_elem? a i) ≡ false))
        ⊎ ((next ≡ left_index i) × (first type (get_elem? a (left_index i)) (get_elem? a i) ≡ true))
      → Ends (IsNext a i n) (right_or type a i n next)
  unfolding right_or
  right_child-IsNext a i n next fits h won =
      let at = get_elem? a in
      let left = left_index i in
      let right = right_index i in
      let irreflexive = λ (x : Option A). first_asym type x x in
      Ends-if (ltb right n)
        (λ two.
          let inside : right < n = ground arith in
          rw (comparator-ok type a right next (omega arith) (omega arith)) (
            ends (elim (Bool-cases (first type (at right) (at next))) [
              | inl further ↦ rw further (record {
                place = omega arith;
                positive = omega arith;
                inside = omega arith;
                leads = inr (
                    ground (
                      arith,
                      won,
                      first_asym type (at left) (at i),
                      first_weak type (at right) (at i) (at left),
                    ));
                foremost = λ c p q e. ground (
                  arith,
                  child_cases c i p e,
                  irreflexive (at right),
                  first_asym type (at right) (at next),
                  first_weak type (at left) (at i) (at right),
                );
              })
              | inr stays ↦ rw stays (record {
                place = omega arith;
                positive = omega arith;
                inside = omega arith;
                leads = ground arith;
                foremost = λ c p q e. ground (arith, child_cases c i p e, irreflexive (at left));
              })
            ])))
        (λ one. ends (record {
          place = omega arith;
          positive = omega arith;
          inside = omega arith;
          leads = ground arith;
          foremost = λ c p q e. ground (arith, child_cases c i p e, irreflexive (at left));
        }))

  next_of-IsNext :
      (a : List A) (i n : ℕ)
      → n ≤ length a
      → left_index i < n
      → Ends (IsNext a i n) (next_of type a i n)
  unfolding next_of
  next_of-IsNext a i n fits h =
      let left = left_index i in
      rw (comparator-ok type a left i (omega arith) (omega arith))
        (elim (Bool-cases (first type (get_elem? a left) (get_elem? a i))) [
          | inl sinks ↦ rw sinks (right_child-IsNext a i n left fits h (inr (refl, sinks)))
          | inr stays ↦ rw stays (right_child-IsNext a i n i fits h (inl (refl, stays)))
        ])

  -- Only the others_in_order from `i` to its children may be out of order, among those whose parent is at `lo`
  -- or later; the children of `i` may stand below the parent of `i`.
  pub record Sinking (lo n : ℕ) (a : List A) (i : ℕ) : Type 0 where
    pub fits : n ≤ length a
    pub others_in_order :
        (c : ℕ)
        → 0 < c
        → c < n
        → lo ≤ parent_index c
        → parent_index c ≢ i
        → first type (get_elem? a c) (get_elem? a (parent_index c)) ≡ false
    pub below :
        (c : ℕ)
        → 0 < c
        → c < n
        → parent_index c ≡ i
        → 0 < i
        → lo ≤ parent_index i
        → first type (get_elem? a c) (get_elem? a (parent_index i)) ≡ false

  -- What `heapify` promises of `a`: order from `lo` on, the entries from `n` on untouched.
  pub record Heapified (lo n : ℕ) (a b : List A) : Type ℓ where
    pub ordered : IsHeapFrom type lo n b
    pub perm : Perm b a
    pub length_kept : length b ≡ length a
    pub rest : (c : ℕ) → n ≤ c → get_elem? b c ≡ get_elem? a c

  swap-Sinking :
      (lo n : ℕ) (a b : List A) (i next : ℕ)
      → Sinking lo n a i
      → next ≢ i
      → IsNext a i n next
      → Swapped a i next b
      → Sinking lo n b next
  swap-Sinking lo n a b i next v moves x s =
      let at = get_elem? a in
      record {
        fits = omega (arith, s.length_kept, v.fits);
        others_in_order = λ c p q r ne. ground (
          arith,
          s.entry c,
          s.entry (parent_index c),
          v.others_in_order c,
          v.below next,
          x.place,
          x.positive,
          x.inside,
          x.leads,
          x.foremost c,
          first_asym type (at next) (at i),
        );
        below = λ c p q e pos r. ground (
          arith,
          s.entry c,
          s.entry (parent_index next),
          v.others_in_order c,
          x.place,
          x.positive,
          x.inside,
        );
      }

  heapify_loop-Heapified :
      (fuel lo n : ℕ) (a : List A) (i : ℕ)
      → n - i < fuel
      → Sinking lo n a i
      → Ends (Heapified lo n a) (heapify_loop fuel type a i n)
  unfolding heapify_loop
  heapify_loop-Heapified zero lo n a i f v = absurd (omega arith)
  heapify_loop-Heapified (suc fuel) lo n a i f v =
      Ends-if (ltb (left_index i) n)
        (λ inner.
          let low : left_index i < n = ground arith in
          Ends-bind (next_of-IsNext a i n v.fits low) λ next x.
            Ends-if (not (next == i))
              (λ moves.
                let ne : next ≢ i = ground arith in
                let deeper : i < next = omega (arith, x.place, x.positive) in
                let within : next < n = omega (arith, x.inside) in
                Ends-bind (swap-Swapped a i next (omega (arith, v.fits)) (omega (arith, v.fits)))
                  λ b s.
                    Ends-weaken
                      (heapify_loop-Heapified fuel lo n b next (omega arith)
                        (swap-Sinking lo n a b i next v ne x s))
                      (λ c done. unswapped a b c i next s done (omega arith) within))
              (λ settled.
                let same : next ≡ i = ground arith in
                ends (untouched a λ c p q r. ground (arith, v.others_in_order c, x.foremost c))))
        (λ leaf. ends (untouched a λ c p q r. ground (arith, v.others_in_order c)))
    where
      untouched : (a : List A) → IsHeapFrom type lo n a → Heapified lo n a a
      untouched a h = record {
        ordered = h;
        perm = Perm.rfl;
        length_kept = refl;
        rest = λ c p. refl;
      }

      unswapped :
          (a b c : List A) (i next : ℕ)
          → Swapped a i next b
          → Heapified lo n b c
          → i < n
          → next < n
          → Heapified lo n a c
      unswapped a b c i next s done p q = record {
        ordered = done.ordered;
        perm = Perm.trans done.perm s.perm;
        length_kept = omega (arith, done.length_kept, s.length_kept);
        rest = λ k out. ground (arith, done.rest k, s.entry k);
      }

  -- `heapify` ends, within the vector's bounds.
  pub heapify-Heapified :
      (lo n : ℕ) (a : List A) (i : ℕ)
      → Sinking lo n a i
      → Ends (Heapified lo n a) (heapify type a i n)
  unfolding heapify
  heapify-Heapified lo n a i v = heapify_loop-Heapified (suc n) lo n a i (omega arith) v
