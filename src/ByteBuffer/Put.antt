-- ===== src/ByteBuffer/Put.antt =====
-- `storage.unique()->setBytes(...)`, the step that both writers make: what it leaves of all the buffers.
use noctisplanet_foundation.Prelude.{
  ℕ, ◌+◌, ◌^◌, ◌≤◌, ◌<◌, ◌≡◌, ◌≢◌, refl, sym, ap, ◌∙◌, ◌⊎◌, inl, inr, List, [], ◌∷◌, Option, none,
  some, length, take, arith, Run, ok, ◌>>=◌, Ends, ends, Ends-bind, subst, Option-cases,
}
use noctisplanet_foundation.Memory.{Memory, Pointer, splice}
use noctisplanet_foundation.Memory.Laws.{Readable}
use noctisplanet_foundation.CopyOnWriteBacked.{read, assign}
use noctisplanet_foundation.CopyOnWriteBacked.Counted.{references, element_at}
use noctisplanet_foundation.ByteBuffer.{World, set_unique}
use noctisplanet_foundation.ByteBuffer.Capacity.{size_max}
use noctisplanet_foundation.ByteBuffer.Storage.{ByteBufferStorage, set_bytes}
use noctisplanet_foundation.ByteBuffer.Storage.Live.{contents, IsLive, Keeps}
use noctisplanet_foundation.ByteBuffer.Storage.Write.{
  Written, nothing, everything, set_bytes-Written,
}
use noctisplanet_foundation.ByteBuffer.Sound.{Sound, At, Undisturbed, some_eq}
use noctisplanet_foundation.ByteBuffer.Replace.{assign-Replaced}
use noctisplanet_foundation.ByteBuffer.Unshare.{Own, CanSplit, unique-Own}

-- What a block holds after `n` of the bytes have been put at `at`: none because there are none or the
-- old capacity is too small, or all of them, over bytes that begin with the old ones.
pub data Holding (c : ℕ) (xs : List ℕ) (at : ℕ) (bytes : List ℕ) : ℕ → List ℕ → Type 0 where
  unchanged : (length bytes ≡ 0) ⊎ (c < at + length bytes) → Holding c xs at bytes 0 xs
  put_all :
      (base : List ℕ)
      → at + length bytes ≤ length base
      → take (length xs) base ≡ xs
      → Holding c xs at bytes (length bytes) (splice at bytes base)

pub record Put (w : World) (s : ByteBufferStorage) (xs : List ℕ) (hs : List (Option ℕ)) (at : ℕ)
    (bytes : List ℕ) (res : ℕ × Option ℕ × World) : Type 0 where
  pub block : ℕ
  pub storage : ByteBufferStorage
  pub all : List ℕ
  pub is : res.1 ≡ some block
  pub sound : Sound res.2 (some block ∷ hs)
  pub there : At res.2 block storage all
  pub undisturbed : Undisturbed hs w res.2
  pub holding : Holding s.capacity xs at bytes res.0 all
  pub alone : references block hs ≡ 0
  pub regions :
      (q : ℕ) (zs : List ℕ)
      → w.world.regions q ≡ some zs
      → s.bytes ≢ some q
      → (res.2.world.regions q ≡ some zs) × (storage.bytes ≢ some q)

-- What one call of `setBytes` leaves, in the terms of the soundness of the buffers.
record Set (s : ByteBufferStorage) (m : Memory) (xs : List ℕ) (at : ℕ) (bytes : List ℕ)
    (res : ℕ × ByteBufferStorage × Memory) : Type 0 where
  all : List ℕ
  live : IsLive res.2 res.1 all
  keeps : Keeps m s.bytes res.2 res.1.bytes
  holding : Holding s.capacity xs at bytes res.0 all

contents-same :
    (m m' : Memory) (b : Option ℕ)
    → ((q : ℕ) → m'.regions q ≡ m.regions q)
    → contents m' b ≡ contents m b
contents-same m m' none e = refl
contents-same m m' (some r) e = e r

set-Set :
    (s : ByteBufferStorage) (m : Memory) (xs : List ℕ) (at : ℕ) (bytes : List ℕ)
    → IsLive m s xs
    → (res : ℕ × ByteBufferStorage × Memory) → Written s m xs at bytes res
    → Set s m xs at bytes res
set-Set s m xs at bytes l res (nothing {m'} why same) = record {
  all = xs;
  live = record {
    held = contents-same m m' s.bytes same ∙ l.held;
    size = l.size;
    bounded = l.bounded;
    lawful = l.lawful;
  };
  keeps = λ q zs e ne. (same q ∙ e, ne);
  holding = unchanged (elim why [
    | inl empty ↦ inl empty
    | inr (inl no_block) ↦
        let no_bytes : xs ≡ [] = some_eq (sym l.held ∙ ap (contents m) no_block) in
        room (omega (arith, l.size, ap length no_bytes))
    | inr (inr small) ↦ inr small
  ]);
}
  where
    room : s.capacity ≡ 0 → (length bytes ≡ 0) ⊎ (s.capacity < at + length bytes)
    room e = ground (arith, e)
set-Set s m xs at bytes l res (everything base more fits prefix live keeps same) = record {
  all = splice at bytes base;
  live = live;
  keeps = keeps;
  holding = put_all base fits prefix;
}

pub read_lem :
    (w : World) (p : ℕ) (s : ByteBufferStorage)
    → element_at (w.blocks p) ≡ some s
    → read (some p) w ≡ ok s
unfolding read
read_lem w p s e = elim (Option-cases (w.blocks p)) [
  | inl absent ↦ absurd (ground (arith, absent))
  | inr (b, found) ↦
      let same : b.element ≡ s = some_eq (sym (ap element_at found) ∙ e) in rw (found, same)
]

-- The source is known once the block is unshared, and readable then; a block that has to grow does
-- not contain it.
abbrev pub Given :
    World
    → List (Option ℕ)
    → ℕ
    → ByteBufferStorage
    → List ℕ
    → (ByteBufferStorage → Run (Option Pointer))
    → (ByteBufferStorage → Pointer)
    → List ℕ
    → ℕ
    → Type 0
Given w hs p s xs source from bytes at_index =
    (res : Option ℕ × World) (o : Own w p s xs hs res)
    → (source o.storage ≡ ok (some (from o.storage)))
      × Readable res.1.world (from o.storage) bytes
      × ((at_index + length bytes ≤ o.storage.capacity)
          ⊎ (o.storage.bytes ≢ some (from o.storage).region))

module _ (w : World) (hs : List (Option ℕ)) (p : ℕ) (s : ByteBufferStorage) (xs : List ℕ)
    (sound : Sound w (some p ∷ hs)) (at : At w p s xs) (few : length hs + 2 < 2 ^ 32)
    (can : CanSplit w p s hs) (source : ByteBufferStorage → Run (Option Pointer))
    (from : ByteBufferStorage → Pointer) (bytes : List ℕ) (at_index : ℕ)
    (word : length bytes ≤ size_max) where
  module _ (given : Given w hs p s xs source from bytes at_index) where
    Put-set :
        (res : Option ℕ × World) (o : Own w p s xs hs res)
        → (set : ℕ × ByteBufferStorage × Memory) → Set o.storage res.1.world xs at_index bytes set
        → Ends
            (Put w s xs hs at_index bytes)
            (assign (some o.block) set.1 set.2 res.1 >>= λ w₂. ok (set.0, some o.block, w₂))
    Put-set res o set r =
        Ends-bind
          (assign-Replaced res.1 hs o.block o.storage set.1 xs r.all set.2 o.sound o.at r.live
            r.keeps)
          λ w₂ replaced. ends (record {
            block = o.block;
            storage = set.1;
            all = r.all;
            is = refl;
            sound = replaced.sound';
            there = replaced.at';
            undisturbed = λ q t zs more a.
                replaced.others q t zs (ground (arith, o.alone)) (o.undisturbed q t zs more a);
            holding = subst (λ (c : ℕ). Holding c xs at_index bytes set.0 r.all) o.room r.holding;
            alone = o.alone;
            regions = λ q zs e ne.
                let (e', ne') = o.regions q zs e ne in
                let (e'', ne'') = r.keeps q zs e' ne' in (rw replaced.memory e'', ne'');
          })

    Own-Put :
        (res : Option ℕ × World)
        → Own w p s xs hs res
        → Ends (Put w s xs hs at_index bytes) (do
          t ← read res.0 res.1
          bytes' ← source t
          (n, s', m) ← set_bytes t bytes' (length bytes) at_index res.1.world
          w₂ ← assign res.0 s' m res.1
          ok (n, res.0, w₂))
    Own-Put res o =
        let (known, readable, room) = given res o in
        rw (o.is, read_lem res.1 o.block o.storage o.at.found, known)
          (Ends-bind
            (set_bytes-Written o.storage res.1.world xs at_index (from o.storage) bytes o.at.live
              readable word room)
            λ set written.
              Put-set res o set
                (set-Set o.storage res.1.world xs at_index bytes o.at.live set written))

    pub set_unique-Put :
        Ends (Put w s xs hs at_index bytes) (set_unique (some p) source (length bytes) at_index w)
    unfolding set_unique
    set_unique-Put = Ends-bind (unique-Own w hs p s xs sound at few can) Own-Put
