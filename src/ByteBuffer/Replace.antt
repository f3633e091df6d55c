-- ===== src/ByteBuffer/Replace.antt =====
-- Changing the storage of one block, and the memory with it, keeps all the buffers sound.
use noctisplanet_foundation.Prelude.{
  ℕ, ◌≡◌, ◌≢◌, refl, sym, ap, ◌∙◌, List, ◌∷◌, Option, some, arith, Ends, ends,
}
use native.Mathlib.Decide.{ℕ_discrete}
use noctisplanet_foundation.Memory.{Memory}
use noctisplanet_foundation.CopyOnWriteBacked.{Block, put, assign}
use noctisplanet_foundation.CopyOnWriteBacked.Counted.{element_at, block_of}
use noctisplanet_foundation.ByteBuffer.{World}
use noctisplanet_foundation.ByteBuffer.Storage.{ByteBufferStorage}
use noctisplanet_foundation.ByteBuffer.Storage.Live.{IsLive, Keeps}
use noctisplanet_foundation.ByteBuffer.Sound.{Sound, At, some_eq, IsLive-kept}

module _ (w : World) (hs : List (Option ℕ)) (p : ℕ) (s s' : ByteBufferStorage) (xs ys : List ℕ)
    (m : Memory) (sound : Sound w (some p ∷ hs)) (at : At w p s xs) (l : IsLive m s' ys)
    (keeps : Keeps w.world s.bytes m s'.bytes) where
  -- The world after the storage `p` has been changed to `s'`, and the memory to `m`.
  pub record Replaced (w' : World) : Type 0 where
    pub sound' : Sound w' (some p ∷ hs)
    pub at' : At w' p s' ys
    pub others : (q : ℕ) (t : ByteBufferStorage) (zs : List ℕ) → q ≢ p → At w q t zs → At w' q t zs
    pub memory : w'.world ≡ m

  element-other :
      (q : ℕ) (b : Option (Block ByteBufferStorage))
      → q ≢ p
      → element_at (put w.blocks p b q) ≡ element_at (w.blocks q)
  element-other q b ne = ground arith

  element_self :
      (b : Option (Block ByteBufferStorage)) → element_at (put w.blocks p b p) ≡ element_at b
  element_self b = ground arith

  -- No other block owns a region of `s` or of `s'`.
  other_bytes :
      (q r : ℕ) (t : ByteBufferStorage)
      → q ≢ p
      → element_at (w.blocks q) ≡ some t
      → t.bytes ≡ some r
      → (s.bytes ≢ some r) × (s'.bytes ≢ some r)
  other_bytes q r t ne h e =
      let (zs, lz) = sound.live q t h in
      let mine : s.bytes ≢ some r = λ e'. ne (sound.apart q p r t s h at.found e e') in
      (mine, (keeps r zs (rw e at lz.held) mine).1)

  module _ (b : Block ByteBufferStorage) (found : w.blocks p ≡ some b) where
    abbrev changed : World
    changed = record w { blocks = put w.blocks p (some (record b { element = s' })); world = m }

    changed-IsLive :
        (q : ℕ) (t : ByteBufferStorage)
        → element_at (changed.blocks q) ≡ some t
        → (zs : List ℕ) × IsLive m t zs
    changed-IsLive q t e = elim (ℕ_discrete q p) [
      | yes is ↦
          let here : element_at (changed.blocks p) ≡ some t = rw is at e in
          let new : s' ≡ t = some_eq (sym (element_self _) ∙ here) in (ys, rw new at l)
      | no ne ↦
          let there = sym (element-other q _ ne) ∙ e in
          let (zs, lz) = sound.live q t there in
          (
            zs,
            IsLive-kept w.world m s.bytes s'.bytes t zs keeps lz
                λ r tb. (other_bytes q r t ne there tb).0,
          )
    ]

    changed-apart :
        (i j r : ℕ) (t u : ByteBufferStorage)
        → element_at (changed.blocks i) ≡ some t
        → element_at (changed.blocks j) ≡ some u
        → t.bytes ≡ some r
        → u.bytes ≡ some r
        → i ≡ j
    changed-apart i j r t u et eu bt bu =
        let mine = λ (v : ByteBufferStorage) (e : element_at (changed.blocks p) ≡ some v).
          some_eq (sym (element_self (some (record b { element = s' }))) ∙ e) in
        let clash =
          λ (q : ℕ) (v v' : ByteBufferStorage) (ne : q ≢ p)
              (e : element_at (changed.blocks p) ≡ some v)
              (e' : element_at (changed.blocks q) ≡ some v') (o : v.bytes ≡ some r)
              (o' : v'.bytes ≡ some r).
            (other_bytes q r v' ne (sym (element-other q _ ne) ∙ e') o').1
              (ap (λ (x : ByteBufferStorage). x.bytes) (mine v e) ∙ o) in
        elim (ℕ_discrete i p) [
          | yes ip ↦ elim (ℕ_discrete j p) [
            | yes jp ↦ ip ∙ sym jp
            | no jn ↦ absurd (clash j t u jn (rw ip at et) eu bt bu)
          ]
          | no ni ↦ elim (ℕ_discrete j p) [
            | yes jp ↦ absurd (clash i u t ni (rw jp at eu) et bu bt)
            | no jn ↦
                sound.apart i j r t u (sym (element-other i _ ni) ∙ et)
                  (sym (element-other j _ jn) ∙ eu) bt bu
          ]
        ]

  pub assign-Replaced : Ends Replaced (assign (some p) s' m w)
  unfolding assign
  assign-Replaced =
      let (b, found) = block_of w p hs sound.counted in
      let c = sound.counted in
      rw found (
        ends (record {
          sound' = record {
            counted = record {
              counts = λ q b' e. ground (arith, c.counts q b', c.counts p b found);
              absent = λ q e. ground (arith, c.absent q);
              fresh = λ q h. ground (arith, c.fresh q, found);
              few = c.few;
            };
            live = changed-IsLive b found;
            apart = changed-apart b found;
          };
          at' = record { found = element_self _; live = l };
          others = λ q t zs ne a. record {
            found = element-other q _ ne ∙ a.found;
            live =
                IsLive-kept w.world m s.bytes s'.bytes t zs keeps a.live
                  λ r tb. (other_bytes q r t ne a.found tb).0;
          };
          memory = refl;
        }))
