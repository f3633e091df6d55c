-- ===== src/Heap/Pop.antt =====
-- `top` and `pop` yield an entry that none comes before, and `pop` leaves a heap of the others.
use mathlib.Core.Bool.{Bool-set}
use mathlib.Core.List.{mem-cons_of_mem, mem-cons_self, Perm, Mem, not-mem-nil, forall_mem-cons}
use mathlib.Core.List.Perm
use noctisplanet_foundation.Prelude.{
  nil_of_length, ℕ, zero, suc, ◌-◌, ◌<◌, ◌≡◌, refl, sym, ◌∙◌, inl, inr, false, List, [], ◌∷◌, ◌++◌,
  Option, none, some, arith, ltb, if◌then◌else◌, length, get_elem?, get_elem?-take, take,
  length-take, ok, ◌>>=◌, Ends, ends, Ends-bind, Ends-weaken, Ends-at, Ends-if, subst, Bool-cases,
  get_elem?-of_lt, present,
}
use noctisplanet_foundation.Heap.{HeapType, Heap, Comparable, parent_index, swap, heapify, pop, top}
use noctisplanet_foundation.Heap.Order.{
  before, first, IsHeap, IsHeapFrom, root_first, Swapped, swap-Swapped,
}
use noctisplanet_foundation.Heap.Down.{Sinking, heapify-Heapified}
use noctisplanet_foundation.Heap.Grow.{perm_concat}

module _ {ℓ} {A : Type ℓ} where
  -- The last entry and the entries before it.
  pub take-last :
      (n : ℕ) (a : List A) (x : A)
      → length a ≡ suc n
      → get_elem? a n ≡ some x
      → take n a ++ x ∷ [] ≡ a
  take-last n [] x h e = absurd (omega arith)
  take-last zero (y ∷ []) x h e = cc
  take-last zero (y ∷ z ∷ a) x h e = absurd (omega arith)
  take-last (suc n) (y ∷ a) x h e = rw (take-last n a x (omega arith) e)

module _ {ℓ} {A : Type ℓ} ⦃o : Comparable A⦄ where
  -- No entry comes before `x`.
  abbrev pub IsForemost : HeapType → A → List A → Type ℓ
  IsForemost type x a = (y : A) → Mem y a → before type y x ≡ false

  IsForemost-of_entries :
      (type : HeapType) (x : A) (a : List A)
      → ((i : ℕ) → i < length a → first type (get_elem? a i) (some x) ≡ false)
      → IsForemost type x a
  IsForemost-of_entries type x [] h = λ y m. absurd (not-mem-nil m)
  IsForemost-of_entries type x (z ∷ a) h =
      (forall_mem-cons λ y. Bool-set _ _).1
        (h 0 (omega arith), IsForemost-of_entries type x a λ i p. h (suc i) (omega arith))

  root-IsForemost :
      (type : HeapType) (a : List A) (x : A)
      → IsHeap type a
      → get_elem? a 0 ≡ some x
      → IsForemost type x a
  root-IsForemost type a x h e =
      IsForemost-of_entries type x a λ i p. rw e at (root_first type (length a) a i h p)

  -- What `pop` returns: nothing for an empty heap, which stays as it is; otherwise the entry that
  -- `top` shows, which no entry comes before, and a heap of exactly the others.
  pub data Popped (h : Heap A) : Option A × Heap A → Type ℓ where
    nothing : h.storage ≡ [] → Popped h (none, h)
    something :
        {x : A} {h' : Heap A}
        → top h ≡ some x
        → IsForemost h.type x h.storage
        → IsHeap h.type h'.storage
        → Perm (x ∷ h'.storage) h.storage
        → h'.type ≡ h.type
        → Popped h (some x, h')

  -- The vector from which `pop` takes its last entry: the old root stands there, and the entries
  -- before it are a heap.
  record Ready (h : Heap A) (n : ℕ) (c : List A) : Type ℓ where
    size : length c ≡ suc n
    last : get_elem? c n ≡ get_elem? h.storage 0
    order : IsHeapFrom h.type 0 n c
    perm : Perm c h.storage

  Ready-Popped :
      (h : Heap A) (n : ℕ) (c : List A)
      → IsHeap h.type h.storage
      → Ready h n c
      → Ends
          (Popped h)
          (present (get_elem? c n) >>= λ value. ok (some value, record h { storage = take n c }))
  unfolding top
  Ready-Popped h n c v r =
      let (x, found) = get_elem?-of_lt c n (omega (arith, r.size)) in
      let front = sym r.last ∙ found in
      let shorter : length (take n c) ≡ n = omega (arith, length-take n c, r.size) in
      rw found (
        ends (
          something front (root-IsForemost h.type h.storage x v front)
            (λ i p q l. ground (
              arith,
              shorter,
              r.order i,
              get_elem?-take n c i,
              get_elem?-take n c (parent_index i),
            ))
            (Perm.trans (Perm.symm (perm_concat (take n c) x))
              (rw (take-last n c x r.size found) r.perm))
            refl))

  module _ (h : Heap A) (n : ℕ) (size : length h.storage ≡ suc n)
      (v : IsHeap h.type h.storage) where
    Swapped-Sinking : (b : List A) → Swapped h.storage 0 n b → Sinking h.type 0 n b 0
    Swapped-Sinking b s = record {
      fits = omega (arith, s.length_kept);
      others_in_order = λ c p q r ne. ground (arith, v c, s.entry c, s.entry (parent_index c));
      below = λ c p q e pos r. absurd (omega arith);
    }

    moved-Ready :
        Ends
          (Ready h n)
          (if ltb 0 n then (swap h.storage 0 n >>= λ b. heapify h.type b 0 n) else ok h.storage)
    moved-Ready =
        Ends-if (ltb 0 n)
          (λ more. Ends-bind (swap-Swapped h.storage 0 n (omega arith) (omega arith)) λ b s.
            Ends-weaken (heapify-Heapified h.type 0 n b 0 (Swapped-Sinking b s)) λ c t. record {
              size = omega (arith, t.length_kept, s.length_kept);
              last = ground (arith, t.rest n, s.entry n);
              order = t.ordered;
              perm = Perm.trans t.perm s.perm;
            })
          (λ only.
            let none_below : n ≡ 0 = ground arith in
            ends (record {
              size = size;
              last = rw none_below;
              order = λ c p q r. v c p (omega arith) r;
              perm = Perm.rfl;
            }))

    pop_nonempty : Ends (Popped h) (pop h)
    unfolding pop
    pop_nonempty =
        let last : length h.storage - 1 ≡ n = omega arith in
        Ends-if (ltb (length h.storage) 1) (λ e. absurd (ground arith))
          λ _. rw last (Ends-bind moved-Ready λ c r. Ready-Popped h n c v r)

  -- For entries with a strict weak order, on a heap `pop` ends within the vector's bounds. Of the
  -- empty heap it returns nothing and leaves it; of any other it returns an entry that no entry comes
  -- before, and leaves a heap of the same type with exactly the other entries.
  pub pop-Popped : (h : Heap A) → IsHeap h.type h.storage → Ends (Popped h) (pop h)
  unfolding pop
  pop-Popped h v = elim (Bool-cases (ltb (length h.storage) 1)) [
    | inl none_left ↦ rw none_left (ends (nothing (nil_of_length h.storage (ground arith))))
    | inr some_left ↦ pop_nonempty h (length h.storage - 1) (ground arith) v
  ]

  -- For entries with a strict weak order, on a heap `top` shows an entry that no entry comes before,
  -- and shows nothing only of the empty heap.
  top-IsForemost :
      (h : Heap A)
      → IsHeap h.type h.storage
      → ((x : A) → top h ≡ some x → IsForemost h.type x h.storage) × (top h ≡ none → h.storage ≡ [])
  unfolding top
  top-IsForemost h v =
      (λ x. root-IsForemost h.type h.storage x v, λ e. grind (arith, nil_of_length h.storage))

  Popped-some :
      {h h' : Heap A} {x : A}
      → Popped h (some x, h')
      → IsForemost h.type x h.storage
        × IsHeap h.type h'.storage
        × Perm (x ∷ h'.storage) h.storage
        × (h'.type ≡ h.type)
  Popped-some (something front least order perm kind) = (least, order, perm, kind)

  -- Of two pops in a row, the second entry does not come before the first.
  pop-pop_ordered :
      (h h₁ h₂ : Heap A) (x y : A)
      → IsHeap h.type h.storage
      → pop h ≡ ok (some x, h₁)
      → pop h₁ ≡ ok (some y, h₂)
      → before h.type y x ≡ false
  pop-pop_ordered h h₁ h₂ x y v p q =
      let (least, order, perm, kind) = Popped-some (Ends-at (pop-Popped h v) p) in
      let valid : IsHeap h₁.type h₁.storage = subst (λ t. IsHeap t h₁.storage) (sym kind) order in
      let (_, _, perm', _) = Popped-some (Ends-at (pop-Popped h₁ valid) q) in
      least y ((Perm.mem_iff perm).0 (mem-cons_of_mem x ((Perm.mem_iff perm').0 mem-cons_self)))
