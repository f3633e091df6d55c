-- ===== src/CopyOnWriteBacked/Assign.antt =====
-- The two assignments of `CopyOnWriteBacked`.
use native.Mathlib.Decide.{ℕ_discrete}
use noctisplanet_foundation.Prelude.{
  ℕ, ◌+◌, ◌^◌, ◌<◌, ◌≡◌, ◌≢◌, refl, not, List, ◌∷◌, Option, none, some, ◌==◌, length, arith, ==_iff,
  sym, true, false, ok, Ends, ends, Ends-bind, Ends-if, ap, ◌∙◌,
}
use noctisplanet_foundation.CopyOnWriteBacked.{Store, Element, copy_assign, move_assign}
use noctisplanet_foundation.CopyOnWriteBacked.Counted.{
  references, Counted, element_at, Counted-reorder, Counted-drop_none,
}
use noctisplanet_foundation.CopyOnWriteBacked.Shared.{retain-Retained, Destroys, release-Released}

module _ {T W : Type 0} (e : Element T W) (P : W → Type 0) where
  -- What an assignment from a reference to `p` leaves: two references to `p`, and the other elements
  -- that are still referred to as they were; a block whose last reference was overwritten is gone.
  pub record Assigned (st : Store T W) (this : Option ℕ) (p : ℕ) (hs : List (Option ℕ))
      (res : Option ℕ × Store T W) : Type 0 where
    pub shares : res.0 ≡ some p
    pub counted : Counted res.1 (some p ∷ some p ∷ hs)
    pub elements :
        (q : ℕ)
        → 0 < references q (some p ∷ hs)
        → element_at (res.1.blocks q) ≡ element_at (st.blocks q)
    pub destroyed :
        (q : ℕ)
        → this ≡ some q
        → references q (some p ∷ hs) ≡ 0
        → (res.1.blocks q ≡ none) × P res.1.world

  module _ (st : Store T W) (p : ℕ) (hs : List (Option ℕ)) (few : length hs + 3 < 2 ^ 32) where
    assign_other :
        (q : ℕ)
        → q ≢ p
        → Counted st (some q ∷ some p ∷ hs)
        → Destroys e P st q (some p ∷ hs)
        → Ends (Assigned st (some q) p hs) (copy_assign e (some q) (some p) st)
    unfolding copy_assign
    assign_other q ne c d =
        Ends-if (not (q == p))
          (λ _.
            Ends-bind
              (retain-Retained st p (some q ∷ hs) (omega arith)
                (Counted-reorder st _ (some p ∷ some q ∷ hs) (λ r. omega arith) refl c))
              λ st₁ r.
                Ends-bind
                  (release-Released e P st₁ q (some p ∷ some p ∷ hs)
                    (Counted-reorder st₁ _ (some q ∷ some p ∷ some p ∷ hs) (λ t. omega arith) refl
                      r.counted)
                    λ t et gone. rw r.world (d t (sym (r.elements q) ∙ et) (omega arith)))
                  λ st₂ s. ends (record {
                    shares = refl;
                    counted = s.counted;
                    elements = λ t more. ground (arith, r.elements t, s.others t, s.kept);
                    destroyed = λ t is gone. ground (arith, s.destroyed);
                  }))
          (λ same. absurd (ground arith))

    assign_null :
        Counted st (none ∷ some p ∷ hs)
        → Ends (Assigned st none p hs) (copy_assign e none (some p) st)
    unfolding copy_assign
    assign_null c =
        Ends-bind (retain-Retained st p hs (omega arith) (Counted-drop_none st (some p ∷ hs) c))
          λ st₁ r. ends (record {
            shares = refl;
            counted = r.counted;
            elements = λ t more. r.elements t;
            destroyed = λ t is gone. cc;
          })

    -- Let the counts be right for the reference assigned to, a reference to `p` and the others, fewer
    -- than 2 ^ 32 - 3, and let the destructor of the element of the block assigned over end with `P`
    -- if no reference is left to it. Then copy assignment ends without undefined behaviour, whether
    -- the reference assigned to was null, to another block or to `p`: both references are to `p`, the
    -- counts are right, the blocks that are still referred to have the elements they had, and a block
    -- whose last reference was overwritten is gone.
    pub copy_assign-Assigned :
        (this : Option ℕ)
        → Counted st (this ∷ some p ∷ hs)
        → ((q : ℕ) → this ≡ some q → Destroys e P st q (some p ∷ hs))
        → Ends (Assigned st this p hs) (copy_assign e this (some p) st)
    unfolding copy_assign
    copy_assign-Assigned none c d = assign_null c
    copy_assign-Assigned (some q) c d = elim (ℕ_discrete q p) [
      | yes same ↦ rw ((==_iff q p).1 same) (
          ends (record {
            shares = ap some same;
            counted = Counted-reorder st _ (some p ∷ some p ∷ hs) (λ r. ground arith) refl c;
            elements = λ t more. refl;
            destroyed = λ t is gone. absurd (ground arith);
          }))
      | no ne ↦ assign_other q ne c (d q refl)
    ]

  -- What a move from `other` leaves: `other` is null, the reference moved to is what `other` was, and
  -- the elements still referred to are as they were; a block whose last reference was overwritten is
  -- gone.
  pub record Moved (st : Store T W) (this other : Option ℕ) (hs : List (Option ℕ))
      (res : Option ℕ × Option ℕ × Store T W) : Type 0 where
    pub taken : res.0 ≡ other
    pub left : res.1 ≡ none
    pub counted : Counted res.2 (other ∷ hs)
    pub elements :
        (q : ℕ)
        → 0 < references q (other ∷ hs)
        → element_at (res.2.blocks q) ≡ element_at (st.blocks q)
    pub destroyed :
        (q : ℕ)
        → this ≡ some q
        → references q (other ∷ hs) ≡ 0
        → (res.2.blocks q ≡ none) × P res.2.world

  -- Let the counts be right for the reference assigned to, the one assigned from and the others, and
  -- let the destructor of the element of the block assigned over end with `P` if no reference is left
  -- to it. Then move assignment from another object ends without undefined behaviour: the reference
  -- is taken over and the other is null, the counts are right, the blocks that are still referred to
  -- have the elements they had, and a block whose last reference was overwritten is gone. An object
  -- assigned to itself stays as it is.
  pub move_assign-Moved :
      (st : Store T W) (this other : Option ℕ) (hs : List (Option ℕ))
      → Counted st (this ∷ other ∷ hs)
      → ((q : ℕ) → this ≡ some q → Destroys e P st q (other ∷ hs))
      → Ends (Moved st this other hs) (move_assign e true this other st)
        × (move_assign e false this this st ≡ ok (this, this, st))
  unfolding move_assign
  move_assign-Moved st none other hs c d = (
    ends (record {
      taken = refl;
      left = refl;
      counted = Counted-drop_none st (other ∷ hs) c;
      elements = λ t more. refl;
      destroyed = λ t is gone. cc;
    }),
    refl,
  )
  move_assign-Moved st (some q) other hs c d = (
    Ends-bind (release-Released e P st q (other ∷ hs) c (d q refl)) λ st' s. ends (record {
      taken = refl;
      left = refl;
      counted = s.counted;
      elements = λ t more. ground (arith, s.others t, s.kept);
      destroyed = λ t is gone. ground (arith, s.destroyed);
    }),
    refl,
  )
