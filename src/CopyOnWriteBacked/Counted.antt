-- ===== src/CopyOnWriteBacked/Counted.antt =====
-- The invariant of the reference counts: over all the references that the program holds, each block
-- counts those that point to it, and is there as long as one does.
use noctisplanet_foundation.Prelude.{
  ℕ, ◌+◌, ◌^◌, ◌≤◌, ◌<◌, ◌≡◌, inl, inr, List, [], ◌∷◌, Option, none, some, ◌==◌, if◌then◌else◌,
  length, arith, Option-cases,
}
use noctisplanet_foundation.CopyOnWriteBacked.{Block, Store, make}

-- How many of the references point to the block `p`.
abbrev pub points : ℕ → Option ℕ → ℕ
points p none = 0
points p (some q) = if q == p then 1 else 0

abbrev pub references : ℕ → List (Option ℕ) → ℕ
references p [] = 0
references p (h ∷ hs) = points p h + references p hs

pub references-le-length : (p : ℕ) (hs : List (Option ℕ)) → references p hs ≤ length hs
references-le-length p [] = omega arith
references-le-length p (none ∷ hs) = omega (arith, references-le-length p hs)
references-le-length p (some q ∷ hs) = ground (arith, references-le-length p hs)

-- The element of a block.
abbrev pub element_at : {T : Type 0} → Option (Block T) → Option T
element_at none = none
element_at (some b) = some b.element

module _ {T W : Type 0} where
  pub record Counted (st : Store T W) (hs : List (Option ℕ)) : Type 0 where
    pub counts :
        (p : ℕ) (b : Block T)
        → st.blocks p ≡ some b
        → (b.retain_count ≡ references p hs) × (0 < b.retain_count)
    pub absent : (p : ℕ) → st.blocks p ≡ none → references p hs ≡ 0
    pub fresh : (p : ℕ) → st.next ≤ p → st.blocks p ≡ none
    pub few : length hs < 2 ^ 32

  -- A reference that the program holds points to a block.
  pub block_of :
      (st : Store T W) (p : ℕ) (hs : List (Option ℕ))
      → Counted st (some p ∷ hs)
      → (b : Block T) × (st.blocks p ≡ some b)
  block_of st p hs c = elim (Option-cases (st.blocks p)) [
    | inl e ↦ absurd (ground (arith, c.absent p e))
    | inr found ↦ found
  ]

  -- The same references in any order.
  pub Counted-reorder :
      (st : Store T W) (hs hs' : List (Option ℕ))
      → ((p : ℕ) → references p hs' ≡ references p hs)
      → length hs' ≡ length hs
      → Counted st hs
      → Counted st hs'
  Counted-reorder st hs hs' same size c = record {
    counts = λ p b e. omega (arith, same p, c.counts p b e);
    absent = λ p e. omega (arith, same p, c.absent p e);
    fresh = c.fresh;
    few = omega (arith, size, c.few);
  }

  -- A null reference counts for nothing.
  pub Counted-none :
      (st : Store T W) (hs : List (Option ℕ))
      → length hs + 1 < 2 ^ 32
      → Counted st hs
      → Counted st (none ∷ hs)
  Counted-none st hs few c = record {
    counts = λ p b e. omega (arith, c.counts p b e);
    absent = λ p e. omega (arith, c.absent p e);
    fresh = c.fresh;
    few = omega arith;
  }

  pub Counted-drop_none :
      (st : Store T W) (hs : List (Option ℕ)) → Counted st (none ∷ hs) → Counted st hs
  Counted-drop_none st hs c = record {
    counts = λ p b e. omega (arith, c.counts p b e);
    absent = λ p e. omega (arith, c.absent p e);
    fresh = c.fresh;
    few = omega (arith, c.few);
  }

  -- `make` gives a reference to a new block, the only one to it.
  pub make-Counted :
      (t : T) (st : Store T W) (hs : List (Option ℕ))
      → length hs + 1 < 2 ^ 32
      → Counted st hs
      → Counted (make t st).1 ((make t st).0 ∷ hs)
  unfolding make
  make-Counted t st hs few c = record {
    counts = λ p b e. ground (arith, c.counts p b, c.fresh p, c.absent p);
    absent = λ p e. ground (arith, c.absent p);
    fresh = λ p h. ground (arith, c.fresh p);
    few = omega arith;
  }
