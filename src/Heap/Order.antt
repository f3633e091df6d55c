-- ===== src/Heap/Order.antt =====
-- The heap order over the entries of a vector: a missing entry counts as the last of all, so the
-- order is total on what `get_elem?` returns.
use mathlib.Core.List.{Perm}
use mathlib.Core.List.Perm
use noctisplanet_foundation.Prelude.{
  ℕ, zero, suc, ◌≤◌, ◌<◌, ◌≡◌, refl, Bool, true, false, List, Option, none, some, arith, ◌==◌,
  if◌then◌else◌, length, get_elem?, get_elem?-of_lt, get_elem?-set, length-set, set, set-perm, ok,
  ◌∙◌, Ends, ends,
}
use noctisplanet_foundation.Heap.{HeapType, max, min, Comparable, parent_index, swap, comparator}

module _ {ℓ} {A : Type ℓ} ⦃o : Comparable A⦄ where
  -- `x` is closer to the root than `y` has to be: smaller in a min-heap, larger in a max-heap.
  abbrev pub before : HeapType → A → A → Bool
  before min x y = o.less x y
  before max x y = o.less y x

  abbrev pub first : HeapType → Option A → Option A → Bool
  first type none y = false
  first type (some x) none = true
  first type (some x) (some y) = before type x y

  -- Every edge of the tree over the first `n` entries whose parent is at `lo` or later is in order:
  -- the child does not come before its parent.
  abbrev pub IsHeapFrom : HeapType → ℕ → ℕ → List A → Type 0
  IsHeapFrom type lo n a =
      (c : ℕ)
      → 0 < c
      → c < n
      → lo ≤ parent_index c
      → first type (get_elem? a c) (get_elem? a (parent_index c)) ≡ false

  abbrev pub IsHeap : HeapType → List A → Type 0
  IsHeap type a = IsHeapFrom type 0 (length a) a

  pub first_asym :
      (type : HeapType) (x y : Option A) → first type x y ≡ true → first type y x ≡ false
  first_asym type none y h = cc
  first_asym type (some x) none h = refl
  first_asym min (some x) (some y) h = o.less_asym x y h
  first_asym max (some x) (some y) h = o.less_asym y x h

  pub first_weak :
      (type : HeapType) (x y z : Option A)
      → first type x y ≡ false
      → first type y z ≡ false
      → first type x z ≡ false
  first_weak type none y z p q = refl
  first_weak type (some x) none z p q = cc
  first_weak type (some x) (some y) none p q = cc
  first_weak min (some x) (some y) (some z) p q = o.less_weak x y z p q
  first_weak max (some x) (some y) (some z) p q = o.less_weak z y x q p

  pub comparator-ok :
      (type : HeapType) (a : List A) (i j : ℕ)
      → i < length a
      → j < length a
      → comparator type a i j ≡ ok (first type (get_elem? a i) (get_elem? a j))
  unfolding comparator
  comparator-ok type a i j hi hj =
      let (x, ex) = get_elem?-of_lt a i hi in
      let (y, ey) = get_elem?-of_lt a j hj in rw (ex, ey) (by_type type x y a i j ex ey)
    where
      by_type :
          (type : HeapType) (x y : A) (a : List A) (i j : ℕ)
          → get_elem? a i ≡ some x
          → get_elem? a j ≡ some y
          → comparator type a i j ≡ ok (before type x y)
      by_type min x y a i j ex ey = rw (ex, ey)
      by_type max x y a i j ex ey = rw (ex, ey, o.greater_less x y)

  root_first_below :
      (type : HeapType) (fuel n : ℕ) (a : List A) (i : ℕ)
      → IsHeapFrom type 0 n a
      → i < fuel
      → i < n
      → first type (get_elem? a i) (get_elem? a 0) ≡ false
  root_first_below type zero n a i h f p = absurd (omega arith)
  root_first_below type (suc fuel) n a zero h f p = irreflexive (get_elem? a 0)
    where
      irreflexive : (x : Option A) → first type x x ≡ false
      irreflexive x = ground (arith, first_asym type x x)
  root_first_below type (suc fuel) n a (suc i) h f p =
      let up = parent_index (suc i) in
      first_weak type (get_elem? a (suc i)) (get_elem? a up) (get_elem? a 0)
        (h (suc i) (omega arith) p (omega arith))
        (root_first_below type fuel n a up h (omega arith) (omega arith))

  -- No entry of a heap comes before the root.
  pub root_first :
      (type : HeapType) (n : ℕ) (a : List A) (i : ℕ)
      → IsHeapFrom type 0 n a
      → i < n
      → first type (get_elem? a i) (get_elem? a 0) ≡ false
  root_first type n a i h p = root_first_below type (suc i) n a i h (omega arith) p

-- What `swap` leaves: the two entries in each other's place, everything else as it was.
module _ {ℓ} {A : Type ℓ} (a : List A) (i j : ℕ) where
  pub record Swapped (b : List A) : Type ℓ where
    pub length_kept : length b ≡ length a
    pub entry :
        (c : ℕ)
        → get_elem? b c
          ≡ (if j == c then get_elem? a i else if i == c then get_elem? a j else get_elem? a c)
    pub perm : Perm b a

  pub swap-Swapped : i < length a → j < length a → Ends Swapped (swap a i j)
  unfolding swap
  swap-Swapped hi hj =
      let (x, ex) = get_elem?-of_lt a i hi in
      let (y, ey) = get_elem?-of_lt a j hj in
      let hj' : j < length (set a i y) = omega (arith, length-set {ℓ} a i y) in
      let kept : get_elem? (set a i y) j ≡ some y = ground (arith, get_elem?-set a i j y) in
      rw (ex, ey)
        (ends (record {
          length_kept = length-set (set a i y) j x ∙ length-set a i y;
          entry =
              λ c. ground (arith, get_elem?-set (set a i y) j c x hj', get_elem?-set a i c y hi);
          perm = Perm.cons_inv (Perm.trans (set-perm (set a i y) j y x kept) (set-perm a i x y ex));
        }))
