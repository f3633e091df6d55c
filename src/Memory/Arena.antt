-- ===== src/Memory/Arena.antt =====
-- An allocator to run the code with: it numbers the regions it hands out, and grows one in place.
use Prim.Native.Nat.{min}
use noctisplanet_foundation.Prelude.{
  ℕ, zero, suc, ◌≡◌, refl, sym, ◌∙◌, inl, List, ◌++◌, Option, none, some, ok, assert_failed, arith,
  length, take, replicate, length-take, length-append, length-replicate, take-take,
}
use noctisplanet_foundation.Memory.{
  Memory, update, memmove, ByteBufferAllocator, custom_allocator, Allocated, Reallocated, IsLawful,
}
use noctisplanet_foundation.Memory.Laws.{take-append}

abbrev pub empty_memory : Memory
empty_memory = record { regions = λ _. none; book = 0 }

-- The number in the book is free unless someone else has used it; then the allocation fails.
abbrev allocate_at : Option (List ℕ) → ℕ → Memory → Option ℕ × Memory
allocate_at (some _) n m = (none, m)
allocate_at none n m = (
  some m.book,
  record { regions = update m.regions m.book (some (replicate n 0)); book = suc m.book },
)

abbrev extended : List ℕ → ℕ → List ℕ
extended xs n = take n (xs ++ replicate n 0)

abbrev reallocate_at : Option (List ℕ) → ℕ → ℕ → Memory → Option ℕ × Memory
reallocate_at none r n m = (none, m)
reallocate_at (some xs) r n m =
    (some r, record m { regions = update m.regions r (some (extended xs n)) })

abbrev pub arena : ByteBufferAllocator
arena = record {
  allocate = λ n m. allocate_at (m.regions m.book) n m;
  reallocate = λ r n m. reallocate_at (m.regions r) r n m;
  deallocate = λ r n m. record m { regions = update m.regions r none };
  copybytes = memmove;
}

pub arena-IsLawful : IsLawful arena
arena-IsLawful = record {
  allocates = λ n m. allocates (m.regions m.book) n m refl;
  reallocates = λ r n m xs e. reallocates (m.regions r) r n m xs refl e;
  deallocates = λ r n m xs e q. refl;
  copies = λ d s n m. refl;
}
  where
    allocates :
        (o : Option (List ℕ)) (n : ℕ) (m : Memory)
        → m.regions m.book ≡ o
        → Allocated n m (allocate_at o n m)
    allocates none n m free = (free, replicate n 0, length-replicate n zero, λ q. refl)
    allocates (some _) n m used = λ q. refl

    reallocates :
        (o : Option (List ℕ)) (r n : ℕ) (m : Memory) (xs : List ℕ)
        → m.regions r ≡ o
        → o ≡ some xs
        → Reallocated r xs n m (reallocate_at o r n m)
    reallocates none r n m xs e e' = absurd cc
    reallocates (some ys) r n m xs e e' =
        let same : ys ≡ xs = cc in
        (
          inl refl,
          extended ys n,
          omega (
            arith,
            length-take n (ys ++ replicate n 0),
            length-append ys (replicate n 0),
            length-replicate n zero,
          ),
          rw (sym same) (
              take-take (min (length ys) n) n (ys ++ replicate n 0) (omega arith)
              ∙ take-append (min (length ys) n) ys (replicate n 0) (omega arith)),
          λ q. ground arith,
        )

-- The arena is what its four hooks make; without one of them the assertion fails.
arena_made :
    custom_allocator
      (some arena.allocate)
      (some arena.reallocate)
      (some arena.deallocate)
      (some arena.copybytes)
    ≡ ok arena
unfolding custom_allocator
arena_made = refl

hook_missing :
    custom_allocator (some arena.allocate) (some arena.reallocate) none (some arena.copybytes)
    ≡ assert_failed
unfolding custom_allocator
hook_missing = refl
