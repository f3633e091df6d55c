-- ===== src/ByteBuffer/Unshare.antt =====
-- `mutableBytes` and the two writers first make the buffer's reference the only one to its block; this
-- is what that leaves of the soundness of all the buffers.
use noctisplanet_foundation.Prelude.{
  ℕ, ◌+◌, ◌^◌, ◌<◌, ◌≡◌, ◌≢◌, refl, sym, ap, ◌∙◌, ◌⊎◌, inl, inr, List, [], ◌∷◌, Option, none, some,
  length, arith, Ends, Ends-weaken, Option-cases, subst,
}
use native.Mathlib.Decide.{ℕ_discrete}
use noctisplanet_foundation.Memory.{Memory}
use noctisplanet_foundation.CopyOnWriteBacked.{unique}
use noctisplanet_foundation.CopyOnWriteBacked.Counted.{references, Counted, element_at}
use noctisplanet_foundation.CopyOnWriteBacked.Unique.{
  Unshared, already, split, Copies, unique-Unshared,
}
use noctisplanet_foundation.ByteBuffer.{World, storage_element}
use noctisplanet_foundation.ByteBuffer.Storage.{ByteBufferStorage, copy_storage}
use noctisplanet_foundation.ByteBuffer.Storage.Live.{contents, IsLive, Keeps}
use noctisplanet_foundation.ByteBuffer.Storage.Life.{Copied, copy_storage-Copied}
use noctisplanet_foundation.ByteBuffer.Sound.{Sound, At, Undisturbed, IsLive-kept, some_eq}

-- The only reference to a block with the bytes of the old one, and nothing else is disturbed.
pub record Own (w : World) (p : ℕ) (s : ByteBufferStorage) (xs : List ℕ) (hs : List (Option ℕ))
    (res : Option ℕ × World) : Type 0 where
  pub block : ℕ
  pub storage : ByteBufferStorage
  pub is : res.0 ≡ some block
  pub alone : references block hs ≡ 0
  pub sound : Sound res.1 (some block ∷ hs)
  pub at : At res.1 block storage xs
  pub room : storage.capacity ≡ s.capacity
  pub undisturbed : Undisturbed hs w res.1
  pub regions :
      (q : ℕ) (zs : List ℕ)
      → w.world.regions q ≡ some zs
      → s.bytes ≢ some q
      → (res.1.world.regions q ≡ some zs) × (storage.bytes ≢ some q)

-- A shared block can be copied: it holds no memory, or the allocation for the copy succeeds.
abbrev pub CanSplit : World → ℕ → ByteBufferStorage → List (Option ℕ) → Type 0
CanSplit w p s hs =
    0 < references p hs → (s.bytes ≡ none) ⊎ ((s.allocator.allocate s.capacity w.world).0 ≢ none)

-- A copy of `s`, with all its bytes and memory of its own.
record Cloned (w : World) (s : ByteBufferStorage) (xs : List ℕ) (made : ByteBufferStorage × Memory)
    : Type 0 where
  live : IsLive made.1 made.0 xs
  keeps : Keeps w.world none made.1 made.0.bytes
  room : made.0.capacity ≡ s.capacity

module _ (w : World) (hs : List (Option ℕ)) (p : ℕ) (s : ByteBufferStorage) (xs : List ℕ)
    (sound : Sound w (some p ∷ hs)) (at : At w p s xs) where
  no_memory :
      (s.bytes ≡ none) ⊎ ((s.allocator.allocate s.capacity w.world).0 ≡ none)
      → CanSplit w p s hs
      → 0 < references p hs
      → s.bytes ≡ none
  no_memory (inl e) can shared = e
  no_memory (inr failed) can shared = elim (can shared) [
    | inl e ↦ e
    | inr succeeds ↦ absurd (succeeds failed)
  ]

  -- A storage without memory has no bytes, and neither has its copy.
  without :
      (made : ByteBufferStorage × Memory)
      → Copied s w.world xs made
      → s.bytes ≡ none
      → made.0.bytes ≡ none
      → Cloned w s xs made
  without made c e e' =
      let empty : xs ≡ [] = some_eq (sym at.live.held ∙ ap (contents w.world) e) in
      let empty' : c.bytes ≡ [] = some_eq (sym c.live.held ∙ ap (contents made.1) e') in
      record {
        live = subst (IsLive made.1 made.0) (empty' ∙ sym empty) c.live;
        keeps = c.keeps;
        room = omega (arith, c.live.size, at.live.size, ap length empty, ap length empty');
      }

  cloned : CanSplit w p s hs → Copies storage_element (Cloned w s xs) w p hs
  cloned can t e shared =
      let same : s ≡ t = some_eq (sym at.found ∙ e) in
      subst (λ (u : ByteBufferStorage). Ends (Cloned w s xs) (copy_storage u w.world)) same
        (Ends-weaken (copy_storage-Copied s w.world xs at.live) λ made c. clone made c shared)
    where
      clone :
          (made : ByteBufferStorage × Memory)
          → Copied s w.world xs made
          → 0 < references p hs
          → Cloned w s xs made
      clone made c shared = elim c.same [
        | inl failed ↦ without made c (no_memory failed.0 can shared) failed.1
        | inr (all, room) ↦ record {
          live = subst (IsLive made.1 made.0) all c.live;
          keeps = c.keeps;
          room = room;
        }
      ]

  module _ (t : ByteBufferStorage) (m : Memory) (c : Cloned w s xs (t, m)) (w' : World)
      (new : element_at (w'.blocks w.next) ≡ some t) (memory : w'.world ≡ m)
      (counted : Counted w' (some w.next ∷ hs)) (alone : references w.next hs ≡ 0)
      (others : (q : ℕ)
        → 0 < references q hs
        → element_at (w'.blocks q) ≡ element_at (w.blocks q)) where
    -- A block of the new store is the copy or an old one that is still referred to.
    new_or_old :
        (q : ℕ) (u : ByteBufferStorage)
        → element_at (w'.blocks q) ≡ some u
        → ((q ≡ w.next) × (t ≡ u)) ⊎ ((0 < references q hs) × (element_at (w.blocks q) ≡ some u))
    new_or_old q u e = elim (ℕ_discrete q w.next) [
      | yes is ↦ inl (is, some_eq (sym new ∙ (ap (λ i. element_at (w'.blocks i)) (sym is) ∙ e)))
      | no ne ↦ elim (Option-cases (w'.blocks q)) [
        | inl absent ↦ absurd (ground (arith, absent))
        | inr (b, found) ↦
            let more : 0 < references q hs = ground (arith, counted.counts q b found) in
            inr (more, sym (others q more) ∙ e)
      ]
    ]

    split-IsLive :
        (q : ℕ) (u : ByteBufferStorage)
        → element_at (w'.blocks q) ≡ some u
        → (zs : List ℕ) × IsLive w'.world u zs
    split-IsLive q u e = elim (new_or_old q u e) [
      | inl (_, same) ↦ (xs, rw (memory, sym same) c.live)
      | inr (_, old) ↦
          let (zs, l) = sound.live q u old in
          (zs, rw memory (IsLive-kept w.world m none t.bytes u zs c.keeps l λ r _ h. cc))
    ]

    -- The copy's region is none of the old ones.
    foreign :
        (q r : ℕ) (u : ByteBufferStorage)
        → element_at (w.blocks q) ≡ some u
        → u.bytes ≡ some r
        → t.bytes ≢ some r
    foreign q r u old own =
        let (zs, l) = sound.live q u old in
        let held : w.world.regions r ≡ some zs =
          subst (λ (o : Option ℕ). contents w.world o ≡ some zs) own l.held in
        (c.keeps r zs held λ h. cc).1

    split-apart :
        (i j r : ℕ) (u v : ByteBufferStorage)
        → element_at (w'.blocks i) ≡ some u
        → element_at (w'.blocks j) ≡ some v
        → u.bytes ≡ some r
        → v.bytes ≡ some r
        → i ≡ j
    split-apart i j r u v eu ev bu bv = elim (new_or_old i u eu) [
      | inl (here, same) ↦ elim (new_or_old j v ev) [
        | inl (here', _) ↦ here ∙ sym here'
        | inr (_, old) ↦
            absurd (foreign j r v old bv (ap (λ (x : ByteBufferStorage). x.bytes) same ∙ bu))
      ]
      | inr (_, old) ↦ elim (new_or_old j v ev) [
        | inl (_, same) ↦
            absurd (foreign i r u old bu (ap (λ (x : ByteBufferStorage). x.bytes) same ∙ bv))
        | inr (_, old') ↦ sound.apart i j r u v old old' bu bv
      ]
    ]

    split-Own : Own w p s xs hs (some w.next, w')
    split-Own = record {
      block = w.next;
      storage = t;
      is = refl;
      alone = alone;
      sound = record { counted = counted; live = split-IsLive; apart = split-apart };
      at = record { found = new; live = rw memory c.live };
      room = c.room;
      undisturbed = λ q u zs more a. record {
        found = others q more ∙ a.found;
        live = rw memory (IsLive-kept w.world m none t.bytes u zs c.keeps a.live λ r _ h. cc);
      };
      regions = λ q zs e ne. rw memory (c.keeps q zs e λ h. cc);
    }

  -- `unique` of a buffer's storage ends without undefined behaviour.
  pub unique-Own :
      length hs + 2 < 2 ^ 32
      → CanSplit w p s hs
      → Ends (Own w p s xs hs) (unique storage_element (some p) w)
  unique-Own few can =
      Ends-weaken
        (unique-Unshared storage_element (Cloned w s xs) w p hs few sound.counted (cloned can))
        λ res u. owned res u
    where
      owned :
          (res : Option ℕ × World)
          → Unshared storage_element (Cloned w s xs) w p hs res
          → Own w p s xs hs res
      owned res (already alone) = record {
        block = p;
        storage = s;
        is = refl;
        alone = alone;
        sound = sound;
        at = at;
        room = refl;
        undisturbed = λ q t zs more a. a;
        regions = λ q zs e ne. (e, ne);
      }
      owned res (split shared c new memory counted alone others) =
          split-Own _ _ c _ new memory counted alone others
