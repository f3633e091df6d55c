-- ===== src/ByteBuffer/Program/At.antt =====
-- One action on one of the buffers of a program: the other buffers show what they showed.
use noctisplanet_foundation.Prelude.{
  ℕ, zero, suc, ◌+◌, ◌^◌, ◌≤◌, ◌<◌, ◌≡◌, refl, sym, ap, List, [], ◌∷◌, ◌++◌, Option, some, length,
  length-append, arith, Ends, ends, Ends-bind,
}
use noctisplanet_foundation.CopyOnWriteBacked.Counted.{points, references, Counted-reorder}
use noctisplanet_foundation.ByteBuffer.{World, ByteBuffer}
use noctisplanet_foundation.ByteBuffer.Capacity.{size_max}
use noctisplanet_foundation.ByteBuffer.Sound.{Sound, Undisturbed, Foreign, Shows-Undisturbed}
use noctisplanet_foundation.ByteBuffer.Queue.{Answer}
use noctisplanet_foundation.ByteBuffer.Program.{
  Action, act_at, EffectAt, none_there, on_this, on_later, ReadyAt,
}
use noctisplanet_foundation.ByteBuffer.Program.Acted.{refs, ShowAll, Acted, act-Acted}

pub append_assoc : (xs ys zs : List (Option ℕ)) → (xs ++ ys) ++ zs ≡ xs ++ (ys ++ zs)
append_assoc [] ys zs = refl
append_assoc (x ∷ xs) ys zs = rw (append_assoc xs ys zs) refl

refs-append : (bs cs : List ByteBuffer) → refs (bs ++ cs) ≡ refs bs ++ refs cs
refs-append [] cs = refl
refs-append (b ∷ bs) cs = rw (refs-append bs cs) refl

pub references-append :
    (q : ℕ) (xs ys : List (Option ℕ)) → references q (xs ++ ys) ≡ references q xs + references q ys
references-append q [] ys = omega arith
references-append q (x ∷ xs) ys = omega (arith, references-append q xs ys)

pub Sound-reorder :
    (w : World) (hs hs' : List (Option ℕ))
    → ((q : ℕ) → references q hs' ≡ references q hs)
    → length hs' ≡ length hs
    → Sound w hs
    → Sound w hs'
Sound-reorder w hs hs' same size sound = record {
  counted = Counted-reorder w hs hs' same size sound.counted;
  live = sound.live;
  apart = sound.apart;
}

-- The first of the references among the last ones, and back.
module _ (w : World) (h : Option ℕ) (xs hs : List (Option ℕ)) where
  same_references : (q : ℕ) → references q (xs ++ h ∷ hs) ≡ references q (h ∷ (xs ++ hs))
  same_references q = omega (arith, references-append q xs (h ∷ hs), references-append q xs hs)

  same_length : length (xs ++ h ∷ hs) ≡ length (h ∷ (xs ++ hs))
  same_length = omega (arith, length-append xs (h ∷ hs), length-append xs hs)

  pub Sound-inwards : Sound w (h ∷ (xs ++ hs)) → Sound w (xs ++ h ∷ hs)
  Sound-inwards = Sound-reorder w (h ∷ (xs ++ hs)) (xs ++ h ∷ hs) same_references same_length

  pub Sound-outwards : Sound w (xs ++ h ∷ hs) → Sound w (h ∷ (xs ++ hs))
  Sound-outwards =
      Sound-reorder w (xs ++ h ∷ hs) (h ∷ (xs ++ hs)) (λ q. sym (same_references q))
        (sym same_length)

pub length-refs : (bs : List ByteBuffer) → length (refs bs) ≡ length bs
length-refs [] = refl
length-refs (b ∷ bs) = ap suc (length-refs bs)

pub points_own : (b : ByteBuffer) (q : ℕ) → b.storage ≡ some q → points q b.storage ≡ 1
points_own b q e = rw e (ground arith)

ShowAll-append :
    (w : World) (bs cs : List ByteBuffer) (vs us : List (List ℕ))
    → ShowAll w bs vs
    → ShowAll w cs us
    → ShowAll w (bs ++ cs) (vs ++ us)
ShowAll-append w [] cs [] us s t = t
ShowAll-append w [] cs (v ∷ vs) us s t = elim s [ ]
ShowAll-append w (b ∷ bs) cs [] us s t = elim s [ ]
ShowAll-append w (b ∷ bs) cs (v ∷ vs) us (s, ss) t = (s, ShowAll-append w bs cs vs us ss t)

pub ShowAll-Undisturbed :
    (hs : List (Option ℕ)) (w w' : World) (bs : List ByteBuffer) (vs : List (List ℕ))
    → Undisturbed hs w w'
    → ((q : ℕ) → references q (refs bs) ≤ references q hs)
    → ShowAll w bs vs
    → ShowAll w' bs vs
ShowAll-Undisturbed hs w w' [] [] keep held s = tt
ShowAll-Undisturbed hs w w' [] (v ∷ vs) keep held s = elim s [ ]
ShowAll-Undisturbed hs w w' (b ∷ bs) [] keep held s = elim s [ ]
ShowAll-Undisturbed hs w w' (b ∷ bs) (v ∷ vs) keep held (s, ss) = (
  Shows-Undisturbed hs w w' b v keep s λ q e. omega (arith, held q, points_own b q e),
  ShowAll-Undisturbed hs w w' bs vs keep (λ q. omega (arith, held q)) ss,
)

-- What an action on the buffer at an index leaves, `hs` being references that are none of the buffers'.
pub record ActedAt (region : ℕ) (user : List ℕ) (hs : List (Option ℕ)) (w : World) (action : Action)
    (i : ℕ) (vs : List (List ℕ)) (res : Answer × List ByteBuffer × World) : Type 0 where
  pub values : List (List ℕ)
  pub user_after : List ℕ
  pub extent : length user_after ≡ length user
  pub effect : EffectAt user action i vs res.0 values user_after
  pub sound : Sound res.2 (refs res.1 ++ hs)
  pub shown : ShowAll res.2 res.1 values
  pub undisturbed : Undisturbed hs w res.2
  pub foreign : Foreign res.2 region user_after

module _ (region : ℕ) (user : List ℕ) (word : length user ≤ size_max) (action : Action) where
  this-ActedAt :
      (hs : List (Option ℕ)) (w : World) (b : ByteBuffer) (bs : List ByteBuffer) (v : List ℕ)
      (vs : List (List ℕ))
      → ShowAll w bs vs
      → (res : Answer × List ByteBuffer × World) → Acted region user (refs bs ++ hs) w action v res
      → ActedAt region user hs w action 0 (v ∷ vs) (res.0, res.1 ++ bs, res.2)
  this-ActedAt hs w b bs v vs shown (answer, new, w') a =
      let others = refs bs ++ hs in
      record {
        values = a.values ++ vs;
        user_after = a.user_after;
        extent = a.extent;
        effect = on_this a.effect;
        sound = rw (refs-append new bs, append_assoc (refs new) (refs bs) hs) a.sound;
        shown = ShowAll-append w' new bs a.values vs a.shown (
            ShowAll-Undisturbed others w w' bs vs a.undisturbed
              (λ q. omega (arith, references-append q (refs bs) hs)) shown);
        undisturbed = λ q t zs more there.
            a.undisturbed q t zs (omega (arith, references-append q (refs bs) hs)) there;
        foreign = a.foreign;
      }

  -- results
  pub act_at-ActedAt :
      (i : ℕ) (bs : List ByteBuffer) (vs : List (List ℕ)) (hs : List (Option ℕ)) (w : World)
      → length bs + length hs + 1 < 2 ^ 32
      → Sound w (refs bs ++ hs)
      → ShowAll w bs vs
      → Foreign w region user
      → ReadyAt (length user) w i action bs
      → Ends (ActedAt region user hs w action i vs) (act_at region i action bs w)
  unfolding act_at
  act_at-ActedAt i [] [] hs w few sound shown foreign ready = ends (record {
    values = [];
    user_after = user;
    extent = refl;
    effect = none_there;
    sound = sound;
    shown = tt;
    undisturbed = λ q t zs _ there. there;
    foreign = foreign;
  })
  act_at-ActedAt i [] (v ∷ vs) hs w few sound shown foreign ready = elim shown [ ]
  act_at-ActedAt i (b ∷ bs) [] hs w few sound shown foreign ready = elim shown [ ]
  act_at-ActedAt zero (b ∷ bs) (v ∷ vs) hs w few sound (shows, shown) foreign ready =
      Ends-bind
        (act-Acted region user (refs bs ++ hs)
          (omega (arith, length-append (refs bs) hs, length-refs bs)) word w b v sound shows foreign
          action ready)
        λ (answer, new, w') a. ends (this-ActedAt hs w b bs v vs shown (answer, new, w') a)
  act_at-ActedAt (suc i) (b ∷ bs) (v ∷ vs) hs w few sound (shows, shown) foreign ready =
      Ends-bind
        (act_at-ActedAt i bs vs (b.storage ∷ hs) w (omega arith)
          (Sound-inwards w b.storage (refs bs) hs sound) shown foreign ready)
        λ (answer, bs', w') a. ends (record {
          values = v ∷ a.values;
          user_after = a.user_after;
          extent = a.extent;
          effect = on_later a.effect;
          sound = Sound-outwards w' b.storage (refs bs') hs a.sound;
          shown = (
            Shows-Undisturbed (b.storage ∷ hs) w w' b v a.undisturbed shows
                (λ q e. omega (arith, points_own b q e)),
            a.shown,
          );
          undisturbed = λ q t zs more there. a.undisturbed q t zs (omega arith) there;
          foreign = a.foreign;
        })
