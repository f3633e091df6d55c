-- ===== src/ByteBuffer/Life.antt =====
-- Making, copying and destroying a `ByteBuffer` keep all the buffers sound.
pub mod Fresh
use noctisplanet_foundation.Prelude.{
  ℕ, suc, ◌+◌, ◌^◌, ◌≤◌, ◌<◌, ◌≡◌, ◌≢◌, refl, sym, ap, ◌∙◌, ◌⊎◌, inl, inr, List, [], ◌∷◌, Option,
  none, some, length, arith, Ends, ends, Ends-weaken, subst,
}
use native.Mathlib.Decide.{ℕ_discrete}
use noctisplanet_foundation.Memory.{Memory, ByteBufferAllocator, IsLawful}
use noctisplanet_foundation.CopyOnWriteBacked.{Block, put, make, copy_construct, drop_reference}
use noctisplanet_foundation.CopyOnWriteBacked.Counted.{
  references, Counted, element_at, make-Counted, block_of, Counted-drop_none,
}
use noctisplanet_foundation.CopyOnWriteBacked.Shared.{
  copy_construct-Retained, Released, release-Released,
}
use noctisplanet_foundation.ByteBuffer.{World, ByteBuffer, storage_element, new_buffer}
use noctisplanet_foundation.ByteBuffer.Capacity.{size_max}
use noctisplanet_foundation.ByteBuffer.Storage.{ByteBufferStorage, new_storage}
use noctisplanet_foundation.ByteBuffer.Storage.Live.{contents, IsLive, Keeps}
use noctisplanet_foundation.ByteBuffer.Storage.Life.{
  new_storage-Made, Destroyed, destroy_storage-Destroyed,
}
use noctisplanet_foundation.ByteBuffer.Life.Fresh.{Created, added-Created}
use noctisplanet_foundation.ByteBuffer.Sound.{
  some_eq, Sound, At, Shows, Undisturbed, Foreign, IsLive-kept,
}

-- In a sound world with fewer than 2 ^ 32 - 1 references, making a buffer with a lawful allocator and
-- any capacity below 2 ^ 64 gives a sound world in which the new buffer shows nothing and every block
-- is and holds what it was and held, whether or not the allocation succeeds.
pub new_buffer-Created :
    (w : World) (hs : List (Option ℕ)) (a : ByteBufferAllocator) (n : ℕ)
    → Sound w hs
    → length hs + 1 < 2 ^ 32
    → IsLawful a
    → n ≤ size_max
    → Created w hs (new_buffer a n w)
unfolding new_buffer make
new_buffer-Created w hs a n sound few lawful small =
    let made = new_storage-Made a n w.world lawful small in
    added-Created w hs sound few (new_storage a n w.world).0 (new_storage a n w.world).1 made.bytes
      made.live made.keeps

-- A copy of a buffer shares its block, and nothing has changed but the count.
pub record Shared (w : World) (h : Option ℕ) (hs : List (Option ℕ)) (res : Option ℕ × World)
    : Type 0 where
  pub same : res.0 ≡ h
  pub sound : Sound res.1 (res.0 ∷ h ∷ hs)
  pub undisturbed : (q : ℕ) (t : ByteBufferStorage) (zs : List ℕ) → At w q t zs → At res.1 q t zs
  pub foreign : (x : ℕ) (zs : List ℕ) → Foreign w x zs → Foreign res.1 x zs

-- In a sound world with fewer than 2 ^ 32 - 2 other references, copying a reference ends without
-- undefined behaviour, gives a reference to the same block, and leaves a sound world in which every
-- block is and holds what it was and held.
pub copy_construct-Shared :
    (w : World) (p : ℕ) (hs : List (Option ℕ))
    → Sound w (some p ∷ hs)
    → length hs + 2 < 2 ^ 32
    → Ends (Shared w (some p) hs) (copy_construct (some p) w)
copy_construct-Shared w p hs sound few =
    Ends-weaken (copy_construct-Retained w p hs few sound.counted) λ res (same, r). record {
      same = same;
      sound =
          subst (λ (h : Option ℕ). Sound res.1 (h ∷ some p ∷ hs)) (sym same)
            (record {
              counted = r.counted;
              live = λ q t e.
                  let (zs, l) = sound.live q t (sym (r.elements q) ∙ e) in (zs, rw r.world l);
              apart = λ i j x t u et eu bt bu.
                  sound.apart i j x t u (sym (r.elements i) ∙ et) (sym (r.elements j) ∙ eu) bt bu;
            });
      undisturbed = λ q t zs a. record { found = r.elements q ∙ a.found; live = rw r.world a.live };
      foreign = λ x zs f. record {
        held = rw r.world f.held;
        outside = λ q t e. f.outside q t (sym (r.elements q) ∙ e);
      };
    }

-- If none of `hs` points to the same block, the block is gone, and so is the region that it owned.
abbrev pub Freed : World → Option ℕ → List (Option ℕ) → World → Type 0
Freed w none hs w' = Unit
Freed w (some p) hs w' =
    references p hs ≡ 0
    → (s : ByteBufferStorage) → element_at (w.blocks p) ≡ some s
    → (element_at (w'.blocks p) ≡ none) × ((r : ℕ) → s.bytes ≡ some r → w'.world.regions r ≡ none)

-- What destroying a buffer with the reference `h` leaves, `hs` being the others.
pub record Gone (w : World) (h : Option ℕ) (hs : List (Option ℕ)) (w' : World) : Type 0 where
  pub freed : Freed w h hs w'
  pub sound : Sound w' hs
  pub undisturbed : Undisturbed hs w w'
  pub foreign : (x : ℕ) (zs : List ℕ) → Foreign w x zs → Foreign w' x zs

module _ (w : World) (p : ℕ) (hs : List (Option ℕ)) (sound : Sound w (some p ∷ hs))
    (s : ByteBufferStorage) (xs : List ℕ) (a : At w p s xs) (w' : World)
    (r : Released storage_element (Destroyed s w.world) w p hs w') where
  others-same : (q : ℕ) → q ≢ p → element_at (w'.blocks q) ≡ element_at (w.blocks q)
  others-same q ne = ap element_at (r.others q ne)

  shared-Gone : 0 < references p hs → Gone w (some p) hs w'
  shared-Gone more =
      let (here, world) = r.kept more in
      let same : (q : ℕ) → element_at (w'.blocks q) ≡ element_at (w.blocks q) = λ q.
        elim (ℕ_discrete q p) [
          | yes is ↦ subst (λ i. element_at (w'.blocks i) ≡ element_at (w.blocks i)) (sym is) here
          | no ne ↦ others-same q ne
        ] in
      record {
        freed = λ none_left. absurd (omega arith);
        sound = record {
          counted = r.counted;
          live = λ q t e. let (zs, l) = sound.live q t (sym (same q) ∙ e) in (zs, rw world l);
          apart = λ i j x t u et eu bt bu.
              sound.apart i j x t u (sym (same i) ∙ et) (sym (same j) ∙ eu) bt bu;
        };
        undisturbed = λ q t zs _ b. record { found = same q ∙ b.found; live = rw world b.live };
        foreign = λ x zs f. record {
          held = rw world f.held;
          outside = λ q t e. f.outside q t (sym (same q) ∙ e);
        };
      }

  module _ (last : references p hs ≡ 0) where
    other : (q : ℕ) (t : ByteBufferStorage) → element_at (w'.blocks q) ≡ some t → q ≢ p
    other q t e is =
        let absent : element_at (w'.blocks q) ≡ none = rw is (ap element_at (r.destroyed last).0) in
        let clash = sym absent ∙ e in cc

    still-IsLive :
        (q : ℕ) (t : ByteBufferStorage) (zs : List ℕ) → q ≢ p → At w q t zs → IsLive w'.world t zs
    still-IsLive q t zs ne b =
        IsLive-kept w.world w'.world s.bytes none t zs
          (λ x ys h apart. ((r.destroyed last).1.keeps x apart ∙ h, λ e. cc)) b.live
          λ x own mine. ne (sound.apart q p x t s b.found a.found own mine)

    last-Freed : Freed w (some p) hs w'
    last-Freed none_left t e = (
      ap element_at (r.destroyed last).0,
      λ x own. (r.destroyed last).1.gone x (ap (λ u. u.bytes) (some_eq (sym a.found ∙ e)) ∙ own),
    )

    last-Gone : Gone w (some p) hs w'
    last-Gone = record {
      freed = last-Freed;
      sound = record {
        counted = r.counted;
        live = λ q t e.
            let ne = other q t e in
            let old = sym (others-same q ne) ∙ e in
            let (zs, l) = sound.live q t old in
            (zs, still-IsLive q t zs ne (record { found = old; live = l }));
        apart = λ i j x t u et eu bt bu.
            sound.apart i j x t u (sym (others-same i (other i t et)) ∙ et)
              (sym (others-same j (other j u eu)) ∙ eu) bt bu;
      };
      undisturbed = λ q t zs more b.
          let ne : q ≢ p = ground (arith, last) in
          record { found = others-same q ne ∙ b.found; live = still-IsLive q t zs ne b };
      foreign = λ x zs f. record {
        held = (r.destroyed last).1.keeps x (f.outside p s a.found) ∙ f.held;
        outside = λ q t e. f.outside q t (sym (others-same q (other q t e)) ∙ e);
      };
    }

  released-Gone : Gone w (some p) hs w'
  released-Gone = elim (ℕ_discrete (references p hs) 0) [
    | yes last ↦ last-Gone last
    | no more ↦ shared-Gone (omega arith)
  ]

-- In a sound world, dropping a buffer's reference ends without undefined behaviour; if none of the
-- remaining references points to the same block, then that block is gone and the region that it owned
-- is freed; the world is sound for the remaining references, a region that belonged to no block still
-- holds what it did and belongs to none, and every block that one of them points to is and holds what
-- it was and held.
pub drop_reference-Gone :
    (w : World) (h : Option ℕ) (hs : List (Option ℕ))
    → Sound w (h ∷ hs)
    → Ends (Gone w h hs) (drop_reference storage_element h w)
unfolding drop_reference
drop_reference-Gone w none hs sound = ends (record {
  freed = tt;
  sound = record {
    counted = Counted-drop_none w hs sound.counted;
    live = sound.live;
    apart = sound.apart;
  };
  undisturbed = λ q t zs _ a. a;
  foreign = λ x zs f. record { held = f.held; outside = f.outside };
})
drop_reference-Gone w (some p) hs sound =
    let (b, found) = block_of w p hs sound.counted in
    let here = ap element_at found in
    let (xs, l) = sound.live p b.element here in
    Ends-weaken
      (release-Released storage_element (Destroyed b.element w.world) w p hs sound.counted λ t et _.
        subst
          (λ (u : ByteBufferStorage).
            Ends (Destroyed b.element w.world) (storage_element.destroy u w.world))
          (some_eq (sym here ∙ et)) (destroy_storage-Destroyed b.element w.world xs l))
      (released-Gone w p hs sound b.element xs (record { found = here; live = l }))
