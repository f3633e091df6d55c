-- ===== src/CopyOnWriteBacked/Unique.antt =====
-- `unique` hands out the only reference to a block: the one it was given, or one to a copy.
use noctisplanet_foundation.Prelude.{
  ℕ, ◌+◌, ◌^◌, ◌<◌, ◌≡◌, ◌≢◌, refl, List, ◌∷◌, Option, some, ltb, length, arith, ok, ◌>>=◌, Ends,
  ends, Ends-bind, Ends-if, ap,
}
use noctisplanet_foundation.CopyOnWriteBacked.{Store, Element, make, release, unique}
use noctisplanet_foundation.CopyOnWriteBacked.Counted.{
  references, Counted, element_at, block_of, Counted-reorder, make-Counted,
}
use noctisplanet_foundation.CopyOnWriteBacked.Shared.{release-Released}

module _ {T W : Type 0} (e : Element T W) (C : T × W → Type 0) (st : Store T W) (p : ℕ)
    (hs : List (Option ℕ)) where
  -- What `unique` of a reference to `p` leaves, `hs` being the other references.
  pub data Unshared : Option ℕ × Store T W → Type 0 where
    already : references p hs ≡ 0 → Unshared (some p, st)
    split :
        {st' : Store T W} {t : T} {w : W}
        → 0 < references p hs
        → C (t, w)
        → element_at (st'.blocks st.next) ≡ some t
        → st'.world ≡ w
        → Counted st' (some st.next ∷ hs)
        → references st.next hs ≡ 0
        → ((q : ℕ) → 0 < references q hs → element_at (st'.blocks q) ≡ element_at (st.blocks q))
        → Unshared (some st.next, st')

  -- What the copy constructor of the element of `p` has to do, if another reference points there.
  abbrev pub Copies : Type 0
  Copies =
      (t : T) → element_at (st.blocks p) ≡ some t → 0 < references p hs → Ends C (e.copy t st.world)

  -- The new block, before the old one is released.
  abbrev copied_store : T → W → Store T W
  copied_store t w = (make t (record st { world = w })).1

  module _ (few : length hs + 2 < 2 ^ 32) (c : Counted st (some p ∷ hs))
      (shared : 0 < references p hs) (t : T) (w : W) (done : C (t, w)) where
    copied-Counted : Counted (copied_store t w) (some p ∷ some st.next ∷ hs)
    unfolding make
    copied-Counted =
        let moved : Counted (record st { world = w }) (some p ∷ hs) = record {
          counts = c.counts;
          absent = c.absent;
          fresh = c.fresh;
          few = c.few;
        } in
        Counted-reorder (copied_store t w) (some st.next ∷ some p ∷ hs) _ (λ q. omega arith) refl
          (make-Counted t (record st { world = w }) (some p ∷ hs) (omega arith) moved)

    release_shared :
        Ends Unshared (release e p (copied_store t w) >>= λ st''. ok (some st.next, st''))
    unfolding make
    release_shared =
        let unused = c.absent st.next (c.fresh st.next (omega arith)) in
        let old = block_of st p hs c in
        let ne : st.next ≢ p = ground arith in
        Ends-bind
          (release-Released e (λ _. Unit {0}) (copied_store t w) p (some st.next ∷ hs)
            copied-Counted (λ t' et gone. absurd (omega arith)))
          λ st' s. ends (
            split shared done (ground (arith, s.others st.next)) (s.kept (omega arith)).1 s.counted
              (omega arith) λ q more. ground (arith, s.others q, s.kept, c.fresh q, c.absent q))

  -- Let the counts be right for a reference to `p` and the others that are held, fewer than 2 ^ 32 -
  -- 2, and let the copy constructor of the element of `p` end with `C`, if another reference points
  -- to `p`. Then `unique` ends without undefined behaviour: with the same reference and store if no
  -- other points to `p`, or else with a reference to a new block, the only one to it, whose element
  -- is a copy that `C` holds of. The counts are right again, and every other reference still has the
  -- element it had.
  pub unique-Unshared :
      length hs + 2 < 2 ^ 32
      → Counted st (some p ∷ hs)
      → Copies
      → Ends Unshared (unique e (some p) st)
  unfolding unique make
  unique-Unshared few c copies =
      let (b, found) = block_of st p hs c in
      let count = c.counts p b found in
      rw found (
        Ends-if (ltb 1 b.retain_count)
          (λ shared.
            Ends-bind (copies b.element (ap element_at found) (ground arith))
              λ (t, w) done. release_shared few c (ground arith) t w done)
          (λ alone. ends (already (ground arith))))
