-- ===== src/Heap.antt =====
-- Sources/NPFoundation/include/NPFoundation/DataStructures/Heap.h: the binary heap over a vector.
-- The vector `storage` is a list, the element type `T` a type with its two operators. An index is
-- below the vector's size, or one of the two child indices of such an index, so `int64_t` does not
-- overflow; the index -1 at which `build` stops is the number of rounds left, zero.
-- A read or a write out of the vector's bounds is undefined behaviour.
pub mod Order
pub mod Up
pub mod Down
pub mod Grow
pub mod Pop
pub mod Drain
mod Examples
use noctisplanet_foundation.Prelude.{
  ℕ, zero, suc, ◌+◌, ◌-◌, ◌*◌, ◌/◌, ◌≡◌, Bool, true, false, ◌&&◌, not, List, [], ◌∷◌, ◌++◌, Option,
  none, some, ltb, leb, ◌==◌, if◌then◌else◌, length, get_elem?, set, take, Run, ok, out_of_fuel,
  ◌>>=◌, present,
}

pub data HeapType : Type 0 where
  max min : HeapType

-- "T must be movable and comparable with `operator<` / `operator>`": the operators of a type that is
-- strictly weakly ordered, with `a > b` meaning `b < a`.
pub record Comparable {ℓ} (A : Type ℓ) : Type ℓ where
  pub less : A → A → Bool
  pub greater : A → A → Bool
  pub greater_less : (a b : A) → greater a b ≡ less b a
  pub less_asym : (a b : A) → less a b ≡ true → less b a ≡ false
  pub less_weak : (a b c : A) → less a b ≡ false → less b c ≡ false → less a c ≡ false

pub record Heap {ℓ} (A : Type ℓ) : Type ℓ where
  pub storage : List A
  pub type : HeapType

abbrev pub parent_index : ℕ → ℕ
parent_index idx = (idx - 1) / 2

abbrev pub left_index : ℕ → ℕ
left_index idx = 2 * idx + 1

abbrev pub right_index : ℕ → ℕ
right_index idx = 2 * idx + 2

module _ {ℓ} {A : Type ℓ} where
  -- `std::swap` of two entries.
  unfoldable pub swap : List A → ℕ → ℕ → Run (List A)
  swap a lhs rhs = do
    x ← present (get_elem? a lhs)
    y ← present (get_elem? a rhs)
    ok (set (set a lhs y) rhs x)

module _ {ℓ} {A : Type ℓ} ⦃o : Comparable A⦄ where
  pub less_than : List A → ℕ → ℕ → Run Bool
  less_than a lhs rhs = do
    x ← present (get_elem? a lhs)
    y ← present (get_elem? a rhs)
    ok (o.less x y)

  pub greater_than : List A → ℕ → ℕ → Run Bool
  greater_than a lhs rhs = do
    x ← present (get_elem? a lhs)
    y ← present (get_elem? a rhs)
    ok (o.greater x y)

  pub comparator : HeapType → List A → ℕ → ℕ → Run Bool
  unfolding less_than greater_than
  comparator min a lhs rhs = less_than a lhs rhs
  comparator max a lhs rhs = greater_than a lhs rhs

  -- The right child, if there is one and it comes before `next`: `&&` reads it only if it exists.
  pub right_or : HeapType → List A → ℕ → ℕ → ℕ → Run ℕ
  unfolding comparator
  right_or type a idx size next =
      let right = right_index idx in
      if ltb right size
      then (do further ← comparator type a right next; ok (if further then right else next))
      else ok next

  -- The entry to move up to `idx`: its left child if that comes first, then the right child if that
  -- comes before it.
  pub next_of : HeapType → List A → ℕ → ℕ → Run ℕ
  unfolding right_or comparator
  next_of type a idx size = do
    sinks ← comparator type a (left_index idx) idx
    right_or type a idx size (if sinks then left_index idx else idx)

  -- The loop of `heapify`.
  pub heapify_loop : ℕ → HeapType → List A → ℕ → ℕ → Run (List A)
  heapify_loop zero type a idx size = out_of_fuel
  heapify_loop (suc fuel) type a idx size =
      let round : Run (List A) = do
        next ← next_of type a idx size
        let again = swap a idx next >>= λ b. heapify_loop fuel type b next size
        if not (next == idx) then again else ok a
      in if ltb (left_index idx) size then round else ok a

  -- The index grows in every round and stays below `size`, so there are fewer than `size` rounds.
  unfoldable pub heapify : HeapType → List A → ℕ → ℕ → Run (List A)
  unfolding heapify_loop next_of swap
  heapify type a idx size = heapify_loop (suc size) type a idx size

  pub sift_up_loop : ℕ → HeapType → List A → ℕ → Run (List A)
  sift_up_loop zero type a idx = out_of_fuel
  sift_up_loop (suc fuel) type a idx =
      let round : Run (List A) = do
        rises ← comparator type a idx (parent_index idx)
        let again =
            swap a idx (parent_index idx) >>= λ b. sift_up_loop fuel type b (parent_index idx)
        if not rises then ok a else again
      in if ltb 0 idx then round else ok a

  -- The index falls in every round.
  unfoldable pub sift_up : HeapType → List A → ℕ → Run (List A)
  unfolding sift_up_loop comparator swap
  sift_up type a idx = sift_up_loop (suc idx) type a idx

  -- `for (idx = size / 2 - 1; idx >= 0; idx--)`, by the number of rounds that are left.
  pub build_loop : ℕ → HeapType → List A → ℕ → Run (List A)
  build_loop zero type a size = ok a
  build_loop (suc idx) type a size = heapify type a idx size >>= λ b. build_loop idx type b size

  unfoldable pub build : Heap A → Run (Heap A)
  unfolding build_loop heapify
  build h = do
    a ← build_loop (length h.storage / 2) h.type h.storage (length h.storage)
    ok (record h { storage = a })

  -- The two constructors from a vector: the copy and the move of the vector give the same entries.
  unfoldable pub from_list : List A → HeapType → Run (Heap A)
  unfolding build
  from_list list type = build (record { storage = list; type = type })

  unfoldable pub push : Heap A → A → Run (Heap A)
  unfolding sift_up
  push h value = do
    let grown = h.storage ++ value ∷ []
    a ← sift_up h.type grown (length grown - 1)
    ok (record h { storage = a })

  -- `pop_back` of a vector whose last entry is the one at `size`.
  unfoldable pub pop : Heap A → Run (Option A × Heap A)
  unfolding heapify swap
  pop h = if ltb (length h.storage) 1 then ok (none, h) else do
    let size = length h.storage - 1
    a ← if ltb 0 size then (do b ← swap h.storage 0 size; heapify h.type b 0 size) else ok h.storage
    value ← present (get_elem? a size)
    ok (some value, record h { storage = take size a })

module _ {ℓ} {A : Type ℓ} where
  unfoldable pub empty : HeapType → Heap A
  empty type = record { storage = []; type = type }

  unfoldable pub size : Heap A → ℕ
  size h = length h.storage

  unfoldable pub is_empty : Heap A → Bool
  is_empty h = length h.storage == 0

  unfoldable pub clear : Heap A → Heap A
  clear h = record h { storage = [] }

  unfoldable pub top : Heap A → Option A
  top h = get_elem? h.storage 0
