-- ===== src/ByteBuffer/Program/Assign.antt =====
-- Copy assignment of a buffer to another one of a program.
use noctisplanet_foundation.Prelude.{
  ℕ, zero, suc, ◌+◌, ◌^◌, ◌<◌, ◌≡◌, refl, sym, ap, ◌∙◌, inl, inr, Bool-cases, true, false, not,
  List, [], ◌∷◌, ◌++◌, Option, none, some, length, length-append, arith, ◌==◌, if◌then◌else◌, set,
  ==_iff, Run, ok, undefined, assert_failed, out_of_fuel, ◌>>=◌, Ends, ends, Ends-bind, Ends-if,
  subst,
}
use noctisplanet_foundation.CopyOnWriteBacked.{
  same_block, retain, copy_construct, copy_assign, drop_reference,
}
use noctisplanet_foundation.CopyOnWriteBacked.Counted.{points, references}
use noctisplanet_foundation.ByteBuffer.{World, ByteBuffer, storage_element}
use noctisplanet_foundation.ByteBuffer.Sound.{Sound, Shows, Undisturbed, Foreign, Shows-Undisturbed}
use noctisplanet_foundation.ByteBuffer.Life.{copy_construct-Shared, drop_reference-Gone}
use noctisplanet_foundation.ByteBuffer.Program.{assign_at}
use noctisplanet_foundation.ByteBuffer.Program.Acted.{refs, ShowAll}
use noctisplanet_foundation.ByteBuffer.Program.At.{
  Sound-reorder, Sound-inwards, Sound-outwards, references-append, length-refs, points_own,
  ShowAll-Undisturbed,
}

-- The references without one to `p`.
abbrev without : ℕ → List (Option ℕ) → List (Option ℕ)
without p [] = []
without p (none ∷ hs) = none ∷ without p hs
without p (some q ∷ hs) = if q == p then hs else some q ∷ without p hs

references-without :
    (p : ℕ) (hs : List (Option ℕ)) (q : ℕ)
    → 0 < references p hs
    → references q (some p ∷ without p hs) ≡ references q hs
references-without p [] q more = absurd (omega arith)
references-without p (none ∷ hs) q more = omega (arith, references-without p hs q (omega arith))
references-without p (some r ∷ hs) q more = elim (Bool-cases (r == p)) [
  | inl is ↦ ground arith
  | inr other ↦
      let rest = references-without p hs q (ground (arith, other, more)) in
      rw other (omega (arith, rest))
]

length-without :
    (p : ℕ) (hs : List (Option ℕ)) → 0 < references p hs → suc (length (without p hs)) ≡ length hs
length-without p [] more = absurd (omega arith)
length-without p (none ∷ hs) more = ap suc (length-without p hs (omega arith))
length-without p (some r ∷ hs) more = elim (Bool-cases (r == p)) [
  | inl is ↦ rw is refl
  | inr other ↦ rw other (ap suc (length-without p hs (ground (arith, other, more))))
]

same_block_eq : (h : Option ℕ) (p : ℕ) → same_block h (some p) ≡ true → h ≡ some p
same_block_eq none p e = absurd cc
same_block_eq (some q) p e = ap some ((==_iff q p).0 e)

points_other : (h : Option ℕ) (p : ℕ) → same_block h (some p) ≡ false → points p h ≡ 0
points_other none p e = refl
points_other (some q) p e = rw e refl

bind_assoc :
    {A B C : Type 0} (m : Run A) (f : A → Run B) (g : B → Run C)
    → ((m >>= f) >>= g) ≡ (m >>= λ a. f a >>= g)
bind_assoc (ok a) f g = refl
bind_assoc undefined f g = refl
bind_assoc assert_failed f g = refl
bind_assoc out_of_fuel f g = refl

-- What assigning the buffer `b` to `this` leaves, `others` being all the other references.
record Assigned (others : List (Option ℕ)) (w : World) (b : ByteBuffer) (v : List ℕ) (h : Option ℕ)
    (w' : World) : Type 0 where
  sound : Sound w' (h ∷ others)
  shows : Shows w' (record b { storage = h }) v
  undisturbed : Undisturbed others w w'
  foreign : (x : ℕ) (zs : List ℕ) → Foreign w x zs → Foreign w' x zs

module _ (others : List (Option ℕ)) (w : World) (this : Option ℕ) (b : ByteBuffer) (v : List ℕ)
    (few : length others + 2 < 2 ^ 32) (sound : Sound w (this ∷ others)) (sh : Shows w b v) where
  -- The buffer is assigned to itself, or to one with the same block.
  same-Assigned : this ≡ some sh.block → Assigned others w b v this w
  same-Assigned same = record {
    sound = sound;
    shows = subst (λ (h : Option ℕ). Shows w (record b { storage = h }) v) (sh.is ∙ sym same) sh;
    undisturbed = λ q t zs _ there. there;
    foreign = λ x zs f. f;
  }

  module _ (more : 0 < references sh.block others) where
    abbrev rest : List (Option ℕ)
    rest = this ∷ without sh.block others

    rest-Sound : Sound w (some sh.block ∷ rest)
    rest-Sound =
        Sound-reorder w (this ∷ others) (some sh.block ∷ rest)
          (λ q. omega (arith, references-without sh.block others q more))
          (omega (arith, length-without sh.block others more)) sound

    other-Assigned :
        Ends
          (λ (h, w'). Assigned others w b v h w')
          (copy_construct (some sh.block) w >>= λ (h, w₁).
            drop_reference storage_element this w₁ >>= λ w₂. ok (some sh.block, w₂))
    other-Assigned =
        let size = length-without sh.block others more in
        Ends-bind (copy_construct-Shared w sh.block rest rest-Sound (omega (arith, size)))
          λ (h, w₁) c.
            let shared =
              subst (λ (h : Option ℕ). Sound w₁ (h ∷ some sh.block ∷ rest)) c.same c.sound in
            let count : (q : ℕ)
                → references q (this ∷ some sh.block ∷ others)
                  ≡ references q (some sh.block ∷ some sh.block ∷ rest) =
              λ q. omega (arith, references-without sh.block others q more) in
            let ordered =
              Sound-reorder w₁ (some sh.block ∷ some sh.block ∷ rest)
                (this ∷ some sh.block ∷ others) count (omega (arith, size)) shared in
            Ends-bind (drop_reference-Gone w₁ this (some sh.block ∷ others) ordered) λ w₂ g.
              let there =
                g.undisturbed sh.block sh.storage sh.all (omega (arith, more))
                  (c.undisturbed sh.block sh.storage sh.all sh.there) in
              ends (record {
                sound = g.sound;
                shows = record {
                  block = sh.block;
                  storage = sh.storage;
                  all = sh.all;
                  is = refl;
                  there = there;
                  ordered = sh.ordered;
                  within = sh.within;
                  shown = sh.shown;
                };
                undisturbed = λ q t zs held a.
                    g.undisturbed q t zs (omega (arith, held)) (c.undisturbed q t zs a);
                foreign = λ x zs f. g.foreign x zs (c.foreign x zs f);
              })

  copy_assign-Assigned :
      ((p : ℕ) → b.storage ≡ some p → 0 < references p (this ∷ others))
      → Ends (λ (h, w'). Assigned others w b v h w') (copy_assign storage_element this b.storage w)
  unfolding copy_assign copy_construct
  copy_assign-Assigned held =
      subst
        (λ (o : Option ℕ).
          Ends (λ (h, w'). Assigned others w b v h w') (copy_assign storage_element this o w))
        (sym sh.is)
        (Ends-if (not (same_block this (some sh.block)))
          (λ differ.
            let apart = points_other this sh.block (ground arith) in
            let more = held sh.block sh.is in
            subst (Ends (λ (h, w'). Assigned others w b v h w'))
              (bind_assoc (retain sh.block w) (λ st. ok (some sh.block, st))
                (λ (h, w₁).
                  drop_reference storage_element this w₁ >>= λ w₂. ok (some sh.block, w₂)))
              (other-Assigned (omega (arith, apart, more))))
          (λ same. ends (same-Assigned (same_block_eq this sh.block (ground arith)))))

-- What assigning to the buffer at an index leaves.
pub record AssignedAt (region : ℕ) (user : List ℕ) (hs : List (Option ℕ)) (w : World) (i : ℕ)
    (v : List ℕ) (vs : List (List ℕ)) (bs : List ByteBuffer) (w' : World) : Type 0 where
  pub sound : Sound w' (refs bs ++ hs)
  pub shown : ShowAll w' bs (set vs i v)
  pub undisturbed : Undisturbed hs w w'
  pub foreign : Foreign w' region user

module _ (region : ℕ) (user : List ℕ) (b : ByteBuffer) (v : List ℕ) where
  pub assign_at-AssignedAt :
      (i : ℕ) (bs : List ByteBuffer) (vs : List (List ℕ)) (hs : List (Option ℕ)) (w : World)
      → length bs + length hs + 1 < 2 ^ 32
      → Sound w (refs bs ++ hs)
      → ShowAll w bs vs
      → Foreign w region user
      → Shows w b v
      → ((p : ℕ) → b.storage ≡ some p → 0 < references p (refs bs ++ hs))
      → Ends (λ (bs', w'). AssignedAt region user hs w i v vs bs' w') (assign_at i b bs w)
  unfolding assign_at
  assign_at-AssignedAt i [] [] hs w few sound shown foreign sh held = ends (record {
    sound = sound;
    shown = tt;
    undisturbed = λ q t zs _ there. there;
    foreign = foreign;
  })
  assign_at-AssignedAt i [] (u ∷ us) hs w few sound shown foreign sh held = elim shown [ ]
  assign_at-AssignedAt i (c ∷ cs) [] hs w few sound shown foreign sh held = elim shown [ ]
  assign_at-AssignedAt zero (c ∷ cs) (u ∷ us) hs w few sound (shows, shown) foreign sh held =
      let others = refs cs ++ hs in
      let size = length-append (refs cs) hs in
      Ends-bind
        (copy_assign-Assigned others w c.storage b v (omega (arith, size, length-refs cs)) sound sh
          held)
        λ (h, w') a. ends (record {
          sound = a.sound;
          shown = (
            a.shows,
            ShowAll-Undisturbed others w w' cs us a.undisturbed
                (λ q. omega (arith, references-append q (refs cs) hs)) shown,
          );
          undisturbed = λ q t zs more there.
              a.undisturbed q t zs (omega (arith, references-append q (refs cs) hs)) there;
          foreign = a.foreign region user foreign;
        })
  assign_at-AssignedAt (suc i) (c ∷ cs) (u ∷ us) hs w few sound (shows, shown) foreign sh held =
      Ends-bind
        (assign_at-AssignedAt i cs us (c.storage ∷ hs) w (omega arith)
          (Sound-inwards w c.storage (refs cs) hs sound) shown foreign sh
          λ p e. omega (
            arith,
            held p e,
            references-append p (refs cs) hs,
            references-append p (refs cs) (c.storage ∷ hs),
          ))
        λ (cs', w') a. ends (record {
          sound = Sound-outwards w' c.storage (refs cs') hs a.sound;
          shown = (
            Shows-Undisturbed (c.storage ∷ hs) w w' c u a.undisturbed shows
                (λ q e. omega (arith, points_own c q e)),
            a.shown,
          );
          undisturbed = λ q t zs more there. a.undisturbed q t zs (omega arith) there;
          foreign = a.foreign;
        })
