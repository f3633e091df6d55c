-- ===== src/Heap/Drain.antt =====
-- Popping until the heap is empty yields its entries in order: a heap built of a vector sorts it.
use mathlib.Core.List.{Perm, mem-cons_of_mem}
use mathlib.Core.List.Perm
use noctisplanet_foundation.Prelude.{
  ℕ, zero, suc, ◌<◌, sym, List, [], ◌∷◌, Option, none, some, arith, length, length-perm, Run, ok,
  out_of_fuel, ◌>>=◌, Ends, ends, Ends-bind, Ends-weaken, subst,
}
use noctisplanet_foundation.Heap.{HeapType, Heap, Comparable, from_list, pop}
use noctisplanet_foundation.Heap.Order.{IsHeap}
use noctisplanet_foundation.Heap.Grow.{from_list-Holds}
use noctisplanet_foundation.Heap.Pop.{IsForemost, Popped, nothing, something, pop-Popped}

module _ {ℓ} {A : Type ℓ} ⦃o : Comparable A⦄ where
  -- `while (auto value = heap.pop())`
  unfoldable pub drain : ℕ → Heap A → Run (List A)
  unfolding pop
  drain zero h = out_of_fuel
  drain (suc fuel) h = do
    (value, h') ← pop h
    elim value [ none ↦ ok [] | some x ↦ (drain fuel h' >>= λ xs. ok (x ∷ xs)) ]

  -- No entry comes before an earlier one.
  abbrev pub IsOrdered : HeapType → List A → Type ℓ
  IsOrdered type [] = Unit
  IsOrdered type (x ∷ xs) = IsForemost type x xs × IsOrdered type xs

  pub record Drained (type : HeapType) (a xs : List A) : Type ℓ where
    pub ordered : IsOrdered type xs
    pub same : Perm xs a

  Popped-Drained :
      (fuel : ℕ) (h : Heap A) (value : Option A) (h' : Heap A)
      → length h.storage < suc fuel
      → Popped h (value, h')
      → ((g : Heap A)
          → length g.storage < fuel
          → IsHeap g.type g.storage
          → Ends (Drained g.type g.storage) (drain fuel g))
      → Ends
          (Drained h.type h.storage)
          (elim value [ none ↦ ok [] | some x ↦ (drain fuel h' >>= λ xs. ok (x ∷ xs)) ])
  Popped-Drained fuel h none h' few (nothing e) others =
      ends (record { ordered = tt; same = rw e Perm.rfl })
  Popped-Drained fuel h (some x) h' few (something shown least order perm kind) others =
      Ends-bind
        (others h' (omega (arith, length-perm perm))
          (subst (λ t. IsHeap t h'.storage) (sym kind) order))
        λ xs d. ends (record {
          ordered = (
            λ y m. least y ((Perm.mem_iff perm).0 (mem-cons_of_mem x ((Perm.mem_iff d.same).0 m))),
            subst (λ t. IsOrdered t xs) kind d.ordered,
          );
          same = Perm.trans (Perm.cons x d.same) perm;
        })

  drain-Drained :
      (fuel : ℕ) (h : Heap A)
      → length h.storage < fuel
      → IsHeap h.type h.storage
      → Ends (Drained h.type h.storage) (drain fuel h)
  unfolding drain
  drain-Drained zero h few v = absurd (omega arith)
  drain-Drained (suc fuel) h few v =
      Ends-bind (pop-Popped h v)
        λ (value, h') p. Popped-Drained fuel h value h' few p (drain-Drained fuel)

  -- For entries with a strict weak order, building a heap of any vector and popping until it is empty
  -- ends, with one pop more than there are entries, within the vector's bounds, and yields exactly
  -- the vector's entries in an order in which none comes before an earlier one, by the heap's type.
  pub from_list-drain :
      (a : List A) (type : HeapType)
      → Ends (Drained type a) (from_list a type >>= λ h. drain (suc (length a)) h)
  from_list-drain a type = Ends-bind (from_list-Holds a type) λ h b.
      Ends-weaken
        (drain-Drained (suc (length a)) h (omega (arith, length-perm b.same))
          (subst (λ t. IsHeap t h.storage) (sym b.kind) b.ordered))
        λ xs d. record {
          ordered = subst (λ t. IsOrdered t xs) b.kind d.ordered;
          same = Perm.trans d.same b.same;
        }
