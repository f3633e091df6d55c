-- ===== src/ByteBuffer/Program/Acted.antt =====
-- One action on one buffer of a program, whatever other references share its block.
use noctisplanet_foundation.Prelude.{
  ℕ, ◌+◌, ◌^◌, ◌≤◌, ◌<◌, ◌≡◌, refl, inr, List, [], ◌∷◌, ◌++◌, Option, some, length, take, drop,
  arith, Ends, ends, Ends-bind, subst,
}
use noctisplanet_foundation.Memory.{pointer, splice}
use noctisplanet_foundation.Memory.Laws.{slice, length-slice, Readable}
use noctisplanet_foundation.ByteBuffer.{World, ByteBuffer, write_bytes, clear}
use noctisplanet_foundation.ByteBuffer.Capacity.{size_max}
use noctisplanet_foundation.ByteBuffer.Sound.{Sound, At, Shows, Undisturbed, Foreign}
use noctisplanet_foundation.ByteBuffer.Unshare.{CanSplit}
use noctisplanet_foundation.ByteBuffer.Append.{
  Outcome, nothing_written, all_written, Appended, write_bytes-Appended,
}
use noctisplanet_foundation.ByteBuffer.Consume.{read_string-take, skip_bytes-drop}
use noctisplanet_foundation.ByteBuffer.Consume.Caller.{read_bytes-ReadTo}
use noctisplanet_foundation.ByteBuffer.Discard.{discard_read_bytes-Discarded}
use noctisplanet_foundation.ByteBuffer.Life.{copy_construct-Shared, drop_reference-Gone}
use noctisplanet_foundation.ByteBuffer.Queue.{Answer, number, text, nothing}
use noctisplanet_foundation.ByteBuffer.Program.{
  Action, append, read_to, bytes_read, take_string, skip, discard, reset, copy, destroy, act,
  Effect, appended, refused, string_taken, skipped, discarded, emptied, copied, destroyed,
  Allocates, Ready,
}

abbrev pub refs : List ByteBuffer → List (Option ℕ)
refs [] = []
refs (b ∷ bs) = b.storage ∷ refs bs

-- Each buffer shows the byte string at the same place.
abbrev pub ShowAll : World → List ByteBuffer → List (List ℕ) → Type 0
ShowAll w [] [] = Unit
ShowAll w (b ∷ bs) (v ∷ vs) = Shows w b v × ShowAll w bs vs
ShowAll w _ _ = ⊥

-- What an action on one buffer leaves, `hs` being the other references.
pub record Acted (region : ℕ) (user : List ℕ) (hs : List (Option ℕ)) (w : World) (action : Action)
    (v : List ℕ) (res : Answer × List ByteBuffer × World) : Type 0 where
  pub values : List (List ℕ)
  pub user_after : List ℕ
  pub extent : length user_after ≡ length user
  pub effect : Effect user action v res.0 values user_after
  pub sound : Sound res.2 (refs res.1 ++ hs)
  pub shown : ShowAll res.2 res.1 values
  pub undisturbed : Undisturbed hs w res.2
  pub foreign : Foreign res.2 region user_after

module _ (region : ℕ) (user : List ℕ) (hs : List (Option ℕ)) (few : length hs + 2 < 2 ^ 32)
    (word : length user ≤ size_max) (w : World) (b : ByteBuffer) (v : List ℕ)
    (sound : Sound w (b.storage ∷ hs)) (sh : Shows w b v) (foreign : Foreign w region user) where
  can_split : Allocates w b → CanSplit w sh.block sh.storage hs
  can_split allocates shared = inr (allocates sh.block sh.storage sh.is sh.there.found)

  -- A call that leaves the world as it is.
  Left-Acted :
      (action : Action) (answer : Answer) (v' : List ℕ) (b' : ByteBuffer)
      → b'.storage ≡ b.storage
      → Shows w b' v'
      → Effect user action v answer (v' ∷ []) user
      → Acted region user hs w action v (answer, b' ∷ [], w)
  Left-Acted action answer v' b' same shows effect = record {
    values = v' ∷ [];
    user_after = user;
    extent = refl;
    effect = effect;
    sound = rw same sound;
    shown = (shows, tt);
    undisturbed = λ q t zs _ a. a;
    foreign = foreign;
  }

  outcome-Effect :
      (offset count n at c : ℕ) (w' : World) (b' : ByteBuffer)
      → length (slice offset count user) ≡ count
      → Outcome c at v (slice offset count user) w' b' n
      → (v' : List ℕ) × Effect user (append offset count) v (number n) (v' ∷ []) user
        × Shows w' b' v'
  outcome-Effect offset count n at c w' b' size (nothing_written why shows same) =
      (v, refused, shows)
  outcome-Effect offset count n at c w' b' size (all_written room more fits shows same) =
      let sent = slice offset count user in (v ++ sent, rw size appended, shows)

  append-Acted :
      (offset count : ℕ)
      → offset + count ≤ length user
      → Allocates w b
      → Ends (Acted region user hs w (append offset count) v) (act region (append offset count) b w)
  unfolding act
  append-Acted offset count fits allocates =
      let sent = slice offset count user in
      let size = length-slice offset count user fits in
      let readable : Readable w.world (pointer region offset) sent = record {
        all = user;
        live = foreign.held;
        within = omega (arith, size);
        bytes_there = rw size;
      } in
      Ends-bind
        (subst
          (λ (n : ℕ).
            Ends (Appended w b sh.storage.capacity hs v sent)
              (write_bytes b (some (pointer region offset)) n w))
          size
          (write_bytes-Appended w b hs v sent sh (pointer region offset) sound few
            (can_split allocates) readable (omega (arith, size))
            (foreign.outside sh.block sh.storage sh.there.found)))
        λ (n, b', w') a.
          let (v', effect, shows) =
            outcome-Effect offset count n b.writer_index sh.storage.capacity w' b' size a.outcome in
          ends (record {
            values = v' ∷ [];
            user_after = user;
            extent = refl;
            effect = effect;
            sound = a.sound;
            shown = (shows, tt);
            undisturbed = a.undisturbed;
            foreign = a.foreign region user foreign;
          })

  clear-Shows : Shows w (clear b) []
  unfolding clear
  clear-Shows = record {
    block = sh.block;
    storage = sh.storage;
    all = sh.all;
    is = sh.is;
    there = sh.there;
    ordered = omega arith;
    within = omega arith;
    shown = refl;
  }

  clear-Acted : Acted region user hs w reset v (nothing, clear b ∷ [], w)
  unfolding clear
  clear-Acted = Left-Acted reset nothing [] (clear b) refl clear-Shows emptied

  -- Where the blocks are what they were, the buffer shows what it did, by the same reference.
  kept-Shows :
      (w' : World) (h : Option ℕ)
      → h ≡ some sh.block
      → At w' sh.block sh.storage sh.all
      → Shows w' (record b { storage = h }) v
  kept-Shows w' h e there = record {
    block = sh.block;
    storage = sh.storage;
    all = sh.all;
    is = e;
    there = there;
    ordered = sh.ordered;
    within = sh.within;
    shown = sh.shown;
  }

  copy-Acted : Ends (Acted region user hs w copy v) (act region copy b w)
  unfolding act
  copy-Acted =
      let sound' = subst (λ (h : Option ℕ). Sound w (h ∷ hs)) sh.is sound in
      rw sh.is (
        Ends-bind (copy_construct-Shared w sh.block hs sound' few) λ (h, w') c.
          let there = c.undisturbed sh.block sh.storage sh.all sh.there in
          ends (record {
            values = v ∷ v ∷ [];
            user_after = user;
            extent = refl;
            effect = copied;
            sound =
                rw c.same
                  (subst (λ (h : Option ℕ). Sound w' (h ∷ some sh.block ∷ hs)) c.same c.sound);
            shown = (kept-Shows w' (some sh.block) refl there, (kept-Shows w' h c.same there, tt));
            undisturbed = λ q t zs _ a. c.undisturbed q t zs a;
            foreign = c.foreign region user foreign;
          }))

  pub act-Acted :
      (action : Action)
      → Ready (length user) w action b
      → Ends (Acted region user hs w action v) (act region action b w)
  unfolding act
  act-Acted (append offset count) (fits, allocates) = append-Acted offset count fits allocates
  act-Acted (read_to offset count) fits =
      Ends-bind (read_bytes-ReadTo hs region user w b v sound sh foreign offset count fits)
        λ (n, b', w') out. ends (record {
          values = drop count v ∷ [];
          user_after = splice offset (take count v) user;
          extent = out.extent;
          effect = rw out.count_read bytes_read;
          sound = out.sound_after;
          shown = (out.shows, tt);
          undisturbed = λ q t zs _ a. out.there q t zs a;
          foreign = out.foreign_after;
        })
  act-Acted (take_string n) ready =
      Ends-bind (read_string-take w b v sh n) λ (string, b') (same, l). ends (
        Left-Acted (take_string n) (text string) (drop n v) b' l.same l.shows
          (rw same string_taken))
  act-Acted (skip n) ready = Ends-bind (skip_bytes-drop w b v sh n) λ (count, b') (same, l).
      ends (Left-Acted (skip n) (number count) (drop n v) b' l.same l.shows (rw same skipped))
  act-Acted discard allocates =
      Ends-bind (discard_read_bytes-Discarded w b hs v sh sound few (can_split allocates))
        λ (b', w') d. ends (record {
          values = v ∷ [];
          user_after = user;
          extent = refl;
          effect = discarded;
          sound = d.sound;
          shown = (d.shows, tt);
          undisturbed = d.undisturbed;
          foreign = d.foreign region user foreign;
        })
  act-Acted reset ready = ends clear-Acted
  act-Acted copy ready = copy-Acted
  act-Acted destroy ready = Ends-bind (drop_reference-Gone w b.storage hs sound) λ w' g.
      ends (record {
        values = [];
        user_after = user;
        extent = refl;
        effect = destroyed;
        sound = g.sound;
        shown = tt;
        undisturbed = g.undisturbed;
        foreign = g.foreign region user foreign;
      })
