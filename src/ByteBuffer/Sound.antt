-- ===== src/ByteBuffer/Sound.antt =====
-- The invariant over all the buffers of a program: counts that are right, a live block behind every
-- storage, no region owned twice; and what a buffer shows to its reader.
use noctisplanet_foundation.Prelude.{
  ℕ, ◌-◌, ◌≤◌, ◌<◌, ◌≡◌, ◌≢◌, refl, sym, ap, ◌∙◌, List, ◌∷◌, Option, none, some, length, arith, inl,
  inr, ◌⊎◌, Option-cases,
}
use native.Mathlib.Decide.{ℕ_discrete}
use noctisplanet_foundation.Memory.{Memory}
use noctisplanet_foundation.Memory.Laws.{slice}
use noctisplanet_foundation.CopyOnWriteBacked.Counted.{references, Counted, element_at}
use noctisplanet_foundation.ByteBuffer.{World, ByteBuffer}
use noctisplanet_foundation.ByteBuffer.Storage.{ByteBufferStorage}
use noctisplanet_foundation.ByteBuffer.Storage.Live.{contents, IsLive, Keeps}

-- `hs` are all the references to storage that the program holds.
pub record Sound (w : World) (hs : List (Option ℕ)) : Type 0 where
  pub counted : Counted w hs
  pub live :
      (p : ℕ) (s : ByteBufferStorage)
      → element_at (w.blocks p) ≡ some s
      → (xs : List ℕ) × IsLive w.world s xs
  pub apart :
      (p q r : ℕ) (s t : ByteBufferStorage)
      → element_at (w.blocks p) ≡ some s
      → element_at (w.blocks q) ≡ some t
      → s.bytes ≡ some r
      → t.bytes ≡ some r
      → p ≡ q

-- The block `p` is the storage `s` and holds the bytes `xs`.
pub record At (w : World) (p : ℕ) (s : ByteBufferStorage) (xs : List ℕ) : Type 0 where
  pub found : element_at (w.blocks p) ≡ some s
  pub live : IsLive w.world s xs

-- The bytes between the cursors of `b` are `v`, and the cursors are in order and within the block.
pub record Shows (w : World) (b : ByteBuffer) (v : List ℕ) : Type 0 where
  pub block : ℕ
  pub storage : ByteBufferStorage
  pub all : List ℕ
  pub is : b.storage ≡ some block
  pub there : At w block storage all
  pub ordered : b.reader_index ≤ b.writer_index
  pub within : b.writer_index ≤ length all
  pub shown : slice b.reader_index (b.writer_index - b.reader_index) all ≡ v

-- What every block that one of `hs` refers to was and held, it still is and holds.
abbrev pub Undisturbed : List (Option ℕ) → World → World → Type 0
Undisturbed hs w w' =
    (q : ℕ) (t : ByteBufferStorage) (zs : List ℕ) → 0 < references q hs → At w q t zs → At w' q t zs

-- So the buffers over those blocks show what they showed.
pub Shows-Undisturbed :
    (hs : List (Option ℕ)) (w w' : World) (b : ByteBuffer) (v : List ℕ)
    → Undisturbed hs w w'
    → Shows w b v
    → ((q : ℕ) → b.storage ≡ some q → 0 < references q hs)
    → Shows w' b v
Shows-Undisturbed hs w w' b v keep sh held = record {
  block = sh.block;
  storage = sh.storage;
  all = sh.all;
  is = sh.is;
  there = keep sh.block sh.storage sh.all (held sh.block sh.is) sh.there;
  ordered = sh.ordered;
  within = sh.within;
  shown = sh.shown;
}

-- No other of the references `hs` points to the block of `b`.
abbrev pub Alone : List (Option ℕ) → ByteBuffer → Type 0
Alone hs b = (q : ℕ) → b.storage ≡ some q → references q hs ≡ 0

-- The region `r` holds `zs` and belongs to no block.
pub record Foreign (w : World) (r : ℕ) (zs : List ℕ) : Type 0 where
  pub held : w.world.regions r ≡ some zs
  pub outside :
      (p : ℕ) (t : ByteBufferStorage) → element_at (w.blocks p) ≡ some t → t.bytes ≢ some r

contents-kept :
    (m m' : Memory) (b b' : Option ℕ) (o : Option ℕ) (zs : List ℕ)
    → Keeps m b m' b'
    → contents m o ≡ some zs
    → ((r : ℕ) → o ≡ some r → b ≢ some r)
    → contents m' o ≡ some zs
contents-kept m m' b b' none zs keeps e ne = e
contents-kept m m' b b' (some r) zs keeps e ne = (keeps r zs e (ne r refl)).0

-- A storage that owns another region is not touched.
pub IsLive-kept :
    (m m' : Memory) (b b' : Option ℕ) (t : ByteBufferStorage) (zs : List ℕ)
    → Keeps m b m' b'
    → IsLive m t zs
    → ((r : ℕ) → t.bytes ≡ some r → b ≢ some r)
    → IsLive m' t zs
IsLive-kept m m' b b' t zs keeps l ne = record {
  held = contents-kept m m' b b' t.bytes zs keeps l.held ne;
  size = l.size;
  bounded = l.bounded;
  lawful = l.lawful;
}

pub some_eq {ℓ} : {A : Type ℓ} {x y : A} → some x ≡ some y → x ≡ y
some_eq e = cc

pub At-unique :
    {w : World} {p : ℕ} {s t : ByteBufferStorage} {xs ys : List ℕ}
    → At w p s xs
    → At w p t ys
    → (s ≡ t) × (xs ≡ ys)
At-unique {w} a b =
    let same = some_eq (sym a.found ∙ b.found) in
    (
      same,
      some_eq (
          sym a.live.held
          ∙ (ap (λ (u : ByteBufferStorage). contents w.world u.bytes) same ∙ b.live.held)),
    )

module _ (w w' : World) (h : Option ℕ) (hs : List (Option ℕ)) (p : ℕ) (s : ByteBufferStorage)
    (xs : List ℕ) (sound : Sound w (h ∷ hs)) (sound' : Sound w' (some p ∷ hs)) (at : At w' p s xs)
    (undisturbed : Undisturbed hs w w') where
  -- A block of the new world is `p` or an undisturbed one.
  undisturbed_or_new :
      (q : ℕ) (t : ByteBufferStorage)
      → element_at (w'.blocks q) ≡ some t
      → (s ≡ t) ⊎ (element_at (w.blocks q) ≡ some t)
  undisturbed_or_new q t e = elim (ℕ_discrete q p) [
    | yes is ↦ inl (some_eq (sym at.found ∙ (ap (λ i. element_at (w'.blocks i)) (sym is) ∙ e)))
    | no ne ↦ elim (Option-cases (w'.blocks q)) [
      | inl absent ↦ absurd (ground (arith, absent))
      | inr (b, found) ↦
          let more : 0 < references q hs = ground (arith, sound'.counted.counts q b found) in
          elim (Option-cases (w.blocks q)) [
            | inl absent ↦ absurd (ground (arith, sound.counted.absent q absent))
            | inr (old, there) ↦
                let here = ap element_at there in
                let (zs, l) = sound.live q old.element here in
                let still = undisturbed q old.element zs more (record { found = here; live = l }) in
                inr (here ∙ (sym still.found ∙ e))
          ]
    ]
  ]

  -- A region that belongs to no block is still outside if it is outside `p`.
  pub Foreign-Undisturbed :
      (r : ℕ) (zs : List ℕ)
      → Foreign w r zs
      → w'.world.regions r ≡ some zs
      → s.bytes ≢ some r
      → Foreign w' r zs
  Foreign-Undisturbed r zs f held ne = record {
    held = held;
    outside = λ q t e. elim (undisturbed_or_new q t e) [
      | inl same ↦ rw (sym same) ne
      | inr old ↦ f.outside q t old
    ];
  }
