-- ===== src/CopyOnWriteBacked/Shared.antt =====
-- Copying, assigning and dropping references keep the counts, leave the elements that are still
-- referred to as they are, and destroy a block exactly when its last reference goes.
use noctisplanet_foundation.Prelude.{
  ℕ, ◌+◌, ◌^◌, ◌<◌, ◌≡◌, ◌≢◌, refl, List, ◌∷◌, Option, none, some, ◌==◌, length, arith, Ends, ends,
  Ends-bind, Ends-if, ap,
}
use noctisplanet_foundation.CopyOnWriteBacked.{Store, Element, retain, copy_construct, release}
use noctisplanet_foundation.CopyOnWriteBacked.Counted.{
  references, references-le-length, Counted, element_at, block_of,
}

module _ {T W : Type 0} where
  -- What `retain` of the block `p` leaves: one reference more, every element and the world as it was.
  pub record Retained (st : Store T W) (p : ℕ) (hs : List (Option ℕ)) (st' : Store T W)
      : Type 0 where
    pub counted : Counted st' (some p ∷ some p ∷ hs)
    pub elements : (q : ℕ) → element_at (st'.blocks q) ≡ element_at (st.blocks q)
    pub world : st'.world ≡ st.world
    pub next : st'.next ≡ st.next

  pub retain-Retained :
      (st : Store T W) (p : ℕ) (hs : List (Option ℕ))
      → length hs + 2 < 2 ^ 32
      → Counted st (some p ∷ hs)
      → Ends (Retained st p hs) (retain p st)
  unfolding retain
  retain-Retained st p hs few c =
      let (b, found) = block_of st p hs c in
      rw found (
        ends (record {
          counted = record {
            counts = λ q b' e.
                ground (arith, c.counts q b', c.counts p b found, references-le-length p hs);
            absent = λ q e. ground (arith, c.absent q);
            fresh = λ q h. ground (arith, c.fresh q, found);
            few = omega arith;
          };
          elements = λ q. ground (arith, found);
          world = refl;
          next = refl;
        }))

  -- Copying a reference gives one to the same block.
  pub copy_construct-Retained :
      (st : Store T W) (p : ℕ) (hs : List (Option ℕ))
      → length hs + 2 < 2 ^ 32
      → Counted st (some p ∷ hs)
      → Ends (λ (h, st'). (h ≡ some p) × Retained st p hs st') (copy_construct (some p) st)
  unfolding copy_construct
  copy_construct-Retained st p hs few c =
      Ends-bind (retain-Retained st p hs few c) λ st' r. ends (refl, r)

module _ {T W : Type 0} (e : Element T W) (P : W → Type 0) where
  -- What the destructor of the element of `p` has to do, if no reference in `hs` points there.
  abbrev pub Destroys : Store T W → ℕ → List (Option ℕ) → Type 0
  Destroys st p hs =
      (t : T)
      → element_at (st.blocks p) ≡ some t
      → references p hs ≡ 0
      → Ends P (e.destroy t st.world)

  -- What dropping one reference to `p` leaves, `hs` being the others.
  pub record Released (st : Store T W) (p : ℕ) (hs : List (Option ℕ)) (st' : Store T W)
      : Type 0 where
    pub counted : Counted st' hs
    pub others : (q : ℕ) → q ≢ p → st'.blocks q ≡ st.blocks q
    pub kept :
        0 < references p hs
        → (element_at (st'.blocks p) ≡ element_at (st.blocks p)) × (st'.world ≡ st.world)
    pub destroyed : references p hs ≡ 0 → (st'.blocks p ≡ none) × P st'.world
    pub next : st'.next ≡ st.next

  -- Let the counts be right for a reference to `p` and the others that are held, and let the
  -- destructor of the element of `p` end with `P`, if no other reference points to `p`. Then
  -- `release` of `p` ends without undefined behaviour, the counts are right for the others, and every
  -- other block is as it was; the block `p` is gone and `P` holds if no reference points to it any
  -- more, and otherwise its element and the world are as they were.
  pub release-Released :
      (st : Store T W) (p : ℕ) (hs : List (Option ℕ))
      → Counted st (some p ∷ hs)
      → Destroys st p hs
      → Ends (Released st p hs) (release e p st)
  unfolding release
  release-Released st p hs c d =
      let (b, found) = block_of st p hs c in
      let count = c.counts p b found in
      rw found (
        Ends-if (b.retain_count == 1)
          (λ last.
            let none_left : references p hs ≡ 0 = ground arith in
            Ends-bind (d b.element (ap element_at found) none_left) λ w done. ends (record {
              counted = record {
                counts = λ q b' h. ground (arith, c.counts q b');
                absent = λ q h. ground (arith, c.absent q);
                fresh = λ q h. ground (arith, c.fresh q);
                few = omega (arith, c.few);
              };
              others = λ q ne. ground arith;
              kept = λ more. absurd (omega arith);
              destroyed = λ _. (ground arith, done);
              next = refl;
            }))
          λ more.
            let some_left : 0 < references p hs = ground arith in
            ends (record {
              counted = record {
                counts = λ q b' h.
                    ground (arith, c.counts q b', count, c.few, references-le-length p hs);
                absent = λ q h. ground (arith, c.absent q);
                fresh = λ q h. ground (arith, c.fresh q, found);
                few = omega (arith, c.few);
              };
              others = λ q ne. ground arith;
              kept = λ _. (ground (arith, found), refl);
              destroyed = λ none_left. absurd (omega arith);
              next = refl;
            }))
