-- ===== src/ByteBuffer/Life/Fresh.antt =====
-- A block that is added to the store keeps all the buffers sound.
use noctisplanet_foundation.Prelude.{
  ℕ, suc, ◌+◌, ◌^◌, ◌<◌, ◌≡◌, ◌≢◌, refl, sym, ap, ◌∙◌, ◌⊎◌, inl, inr, List, [], ◌∷◌, Option, none,
  some, length, arith, subst,
}
use native.Mathlib.Decide.{ℕ_discrete}
use noctisplanet_foundation.Memory.{Memory}
use noctisplanet_foundation.CopyOnWriteBacked.{Block, put, make}
use noctisplanet_foundation.CopyOnWriteBacked.Counted.{Counted, element_at, make-Counted}
use noctisplanet_foundation.ByteBuffer.{World, ByteBuffer}
use noctisplanet_foundation.ByteBuffer.Storage.{ByteBufferStorage}
use noctisplanet_foundation.ByteBuffer.Storage.Live.{contents, IsLive, Keeps}
use noctisplanet_foundation.ByteBuffer.Sound.{some_eq, Sound, At, Shows, Foreign, IsLive-kept}

-- What making a buffer leaves: it shows nothing, and no block has changed.
pub record Created (w : World) (hs : List (Option ℕ)) (res : ByteBuffer × World) : Type 0 where
  pub sound : Sound res.1 (res.0.storage ∷ hs)
  pub shows : Shows res.1 res.0 []
  pub undisturbed : (q : ℕ) (t : ByteBufferStorage) (zs : List ℕ) → At w q t zs → At res.1 q t zs
  pub foreign : (x : ℕ) (zs : List ℕ) → Foreign w x zs → Foreign res.1 x zs

module _ (w : World) (hs : List (Option ℕ)) (sound : Sound w hs) (few : length hs + 1 < 2 ^ 32)
    (s : ByteBufferStorage) (m : Memory) (xs : List ℕ) (l : IsLive m s xs)
    (keeps : Keeps w.world none m s.bytes) where
  abbrev fresh_block : Block ByteBufferStorage
  fresh_block = record { element = s; retain_count = 1 }

  abbrev added : World
  added = record w { blocks = put w.blocks w.next (some fresh_block); next = suc w.next; world = m }

  added-cases :
      (q : ℕ) (t : ByteBufferStorage)
      → element_at (added.blocks q) ≡ some t
      → ((q ≡ w.next) × (s ≡ t)) ⊎ ((q ≢ w.next) × (element_at (w.blocks q) ≡ some t))
  added-cases q t e = elim (ℕ_discrete q w.next) [
    | yes is ↦
        let here : element_at (added.blocks q) ≡ some s = ground arith in
        inl (is, some_eq (sym here ∙ e))
    | no ne ↦
        let there : element_at (added.blocks q) ≡ element_at (w.blocks q) = ground arith in
        inr (ne, sym there ∙ e)
  ]

  added-At : (q : ℕ) (t : ByteBufferStorage) (zs : List ℕ) → At w q t zs → At added q t zs
  added-At q t zs a =
      let old : q ≢ w.next = λ is.
        let absent : element_at (w.blocks q) ≡ none =
          ap element_at (sound.counted.fresh q (omega arith)) in
        let clash = sym absent ∙ a.found in cc in
      let there : element_at (added.blocks q) ≡ element_at (w.blocks q) = ground arith in
      record {
        found = there ∙ a.found;
        live = IsLive-kept w.world m none s.bytes t zs keeps a.live λ r _ h. cc;
      }

  added-IsLive :
      (q : ℕ) (t : ByteBufferStorage)
      → element_at (added.blocks q) ≡ some t
      → (zs : List ℕ) × IsLive m t zs
  added-IsLive q t e = elim (added-cases q t e) [
    | inl (_, same) ↦ (xs, rw (sym same) l)
    | inr (_, old) ↦
        let (zs, lz) = sound.live q t old in
        (zs, IsLive-kept w.world m none s.bytes t zs keeps lz λ r _ h. cc)
  ]

  -- The region of the new storage is none of the old ones.
  foreign :
      (q r : ℕ) (t : ByteBufferStorage)
      → element_at (w.blocks q) ≡ some t
      → t.bytes ≡ some r
      → s.bytes ≢ some r
  foreign q r t old own =
      let (zs, lz) = sound.live q t old in
      let held : w.world.regions r ≡ some zs =
        subst (λ (o : Option ℕ). contents w.world o ≡ some zs) own lz.held in
      (keeps r zs held λ h. cc).1

  added-apart :
      (i j r : ℕ) (t u : ByteBufferStorage)
      → element_at (added.blocks i) ≡ some t
      → element_at (added.blocks j) ≡ some u
      → t.bytes ≡ some r
      → u.bytes ≡ some r
      → i ≡ j
  added-apart i j r t u et eu bt bu = elim (added-cases i t et) [
    | inl (here, same) ↦ elim (added-cases j u eu) [
      | inl (here', _) ↦ here ∙ sym here'
      | inr (_, old) ↦
          absurd (foreign j r u old bu (ap (λ (x : ByteBufferStorage). x.bytes) same ∙ bt))
    ]
    | inr (_, old) ↦ elim (added-cases j u eu) [
      | inl (_, same) ↦
          absurd (foreign i r t old bt (ap (λ (x : ByteBufferStorage). x.bytes) same ∙ bu))
      | inr (_, old') ↦ sound.apart i j r t u old old' bt bu
    ]
  ]

  pub added-Created :
      Created w hs (record { reader_index = 0; writer_index = 0; storage = some w.next }, added)
  unfolding make
  added-Created =
      let here : element_at (added.blocks w.next) ≡ some s = ground arith in
      let moved : Counted (record w { world = m }) hs = record {
        counts = sound.counted.counts;
        absent = sound.counted.absent;
        fresh = sound.counted.fresh;
        few = sound.counted.few;
      } in
      record {
        sound = record {
          counted = make-Counted s (record w { world = m }) hs few moved;
          live = added-IsLive;
          apart = added-apart;
        };
        shows = record {
          block = w.next;
          storage = s;
          all = xs;
          is = refl;
          there = record { found = here; live = l };
          ordered = omega arith;
          within = omega arith;
          shown = refl;
        };
        undisturbed = added-At;
        foreign = λ x zs f. record {
          held = (keeps x zs f.held (λ h. cc)).0;
          outside = λ q t e. elim (added-cases q t e) [
            | inl (_, same) ↦ λ own.
                (keeps x zs f.held (λ h. cc)).1 (ap (λ (u : ByteBufferStorage). u.bytes) same ∙ own)
            | inr (_, old) ↦ f.outside q t old
          ];
        };
      }
