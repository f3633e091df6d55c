-- ===== src/ByteBuffer/Program/Refines.antt =====
-- Any sequence of actions on the buffers of a program does what it does to byte strings that share nothing.
use noctisplanet_foundation.Prelude.{
  zero, suc, refl, sym, subst, ◌∙◌, get_elem?, set, none, some, ℕ, ◌+◌, ◌^◌, ◌≤◌, ◌<◌, ◌≡◌, List,
  [], ◌∷◌, ◌++◌, Option, length, ok, Ends, ends, Ends-bind, Ends-value, Ends-weaken, arith,
  length-append,
}
use noctisplanet_foundation.ByteBuffer.{World, ByteBuffer, new_buffer}
use noctisplanet_foundation.ByteBuffer.Life.{new_buffer-Created}
use noctisplanet_foundation.Memory.{ByteBufferAllocator, IsLawful}
use noctisplanet_foundation.ByteBuffer.Capacity.{size_max}
use noctisplanet_foundation.ByteBuffer.Sound.{Sound, Shows, Undisturbed, Foreign}
use noctisplanet_foundation.ByteBuffer.Queue.{Answer, nothing}
use noctisplanet_foundation.ByteBuffer.Program.{
  Command, on, assign_to, create, assign_from, obey, obey_all, Obeyed, acted, assigned,
  none_to_assign, created, Effects, done, next, ReadyFor, ReadyAt,
}
use noctisplanet_foundation.ByteBuffer.Program.Acted.{refs, ShowAll}
use noctisplanet_foundation.ByteBuffer.Program.At.{
  act_at-ActedAt, ShowAll-Undisturbed, length-refs, references-append, points_own,
}
use noctisplanet_foundation.ByteBuffer.Program.Assign.{assign_at-AssignedAt}
use noctisplanet_foundation.CopyOnWriteBacked.Counted.{references}

-- Each command has what it needs when its turn comes, `others` being the number of references that are none of
-- the buffers'.
abbrev pub ReadyAll : (region size others : ℕ) → List Command → List ByteBuffer → World → Type 0
ReadyAll region size others [] bs w = Unit
ReadyAll region size others (command ∷ commands) bs w =
    (length bs + others + 1 < 2 ^ 32)
    × ReadyFor size w command bs
    × ((answer : Answer) (bs' : List ByteBuffer) (w' : World)
        → obey region command bs w ≡ ok (answer, bs', w')
        → ReadyAll region size others commands bs' w')

-- What stands at an index of the buffers stands there among the byte strings.
data Found (w : World) (bs : List ByteBuffer) (vs : List (List ℕ)) (j : ℕ)
    : Option ByteBuffer → Type 0 where
  missing : get_elem? vs j ≡ none → Found w bs vs j none
  there :
      {b : ByteBuffer} (v : List ℕ)
      → get_elem? vs j ≡ some v
      → Shows w b v
      → ((p : ℕ) → b.storage ≡ some p → 0 < references p (refs bs))
      → Found w bs vs j (some b)

found :
    (w : World) (bs : List ByteBuffer) (vs : List (List ℕ)) (j : ℕ)
    → ShowAll w bs vs
    → Found w bs vs j (get_elem? bs j)
found w [] [] j shown = missing refl
found w [] (v ∷ vs) j shown = elim shown [ ]
found w (b ∷ bs) [] j shown = elim shown [ ]
found w (b ∷ bs) (v ∷ vs) zero (shows, shown) =
    there v refl shows λ p e. omega (arith, points_own b p e)
found w (b ∷ bs) (v ∷ vs) (suc j) (shows, shown) = later (get_elem? bs j) (found w bs vs j shown)
  where
    later : (o : Option ByteBuffer) → Found w bs vs j o → Found w (b ∷ bs) (v ∷ vs) (suc j) o
    later _ (missing e) = missing e
    later _ (there v e s held) = there v e s λ p e. omega (arith, held p e)

-- What the commands leave, `P` saying what they do to the byte strings and to the caller's region, of `size`.
pub record Left (region size : ℕ) (hs : List (Option ℕ)) (w : World)
    (P : List (List ℕ) → List ℕ → Type 0) (bs : List ByteBuffer) (w' : World) : Type 0 where
  pub values : List (List ℕ)
  pub user_after : List ℕ
  pub extent : length user_after ≡ size
  pub effect : P values user_after
  pub sound : Sound w' (refs bs ++ hs)
  pub shown : ShowAll w' bs values
  pub undisturbed : Undisturbed hs w w'
  pub foreign : Foreign w' region user_after

module _ (region size : ℕ) (word : size ≤ size_max) (hs : List (Option ℕ)) where
  module _ (user : List ℕ) (long : length user ≡ size) where
    create-Left :
        (allocator : ByteBufferAllocator) (capacity : ℕ) (bs : List ByteBuffer) (vs : List (List ℕ))
        (w : World)
        → length bs + length hs + 1 < 2 ^ 32
        → Sound w (refs bs ++ hs)
        → ShowAll w bs vs
        → Foreign w region user
        → IsLawful allocator
        → capacity ≤ size_max
        → let (b, w') = new_buffer allocator capacity w in
          Left region size hs w (Obeyed user (create allocator capacity) vs nothing) (b ∷ bs) w'
    create-Left allocator capacity bs vs w few sound shown foreign lawful fits =
        let w' = (new_buffer allocator capacity w).1 in
        let total = length-append (refs bs) hs in
        let c =
          new_buffer-Created w (refs bs ++ hs) allocator capacity sound
            (omega (arith, total, length-refs bs)) lawful fits in
        record {
          values = [] ∷ vs;
          user_after = user;
          extent = long;
          effect = created;
          sound = c.sound;
          shown = (
            c.shows,
            ShowAll-Undisturbed (refs bs) w w' bs vs (λ q t zs _ there. c.undisturbed q t zs there)
                (λ q. omega arith) shown,
          );
          undisturbed = λ q t zs _ there. c.undisturbed q t zs there;
          foreign = c.foreign region user foreign;
        }

    assign_from-Left :
        (to from : ℕ) (o : Option ByteBuffer) (bs : List ByteBuffer) (vs : List (List ℕ))
        (w : World)
        → length bs + length hs + 1 < 2 ^ 32
        → Sound w (refs bs ++ hs)
        → ShowAll w bs vs
        → Foreign w region user
        → Found w bs vs from o
        → Ends
            (λ (answer, bs', w').
              Left region size hs w (Obeyed user (assign_to to from) vs answer) bs' w')
            (assign_from to o bs w)
    unfolding assign_from
    assign_from-Left to from _ bs vs w few sound shown foreign (missing e) = ends (record {
      values = vs;
      user_after = user;
      extent = long;
      effect = none_to_assign e;
      sound = sound;
      shown = shown;
      undisturbed = λ q t zs _ held. held;
      foreign = foreign;
    })
    assign_from-Left to from _ bs vs w few sound shown foreign (there {b} v e shows held) =
        Ends-bind
          (assign_at-AssignedAt region user b v to bs vs hs w few sound shown foreign shows
            λ p is. omega (arith, held p is, references-append p (refs bs) hs))
          λ (bs', w') a. ends (record {
            values = set vs to v;
            user_after = user;
            extent = long;
            effect = assigned e;
            sound = a.sound;
            shown = a.shown;
            undisturbed = a.undisturbed;
            foreign = a.foreign;
          })

    obey-Left :
        (command : Command) (bs : List ByteBuffer) (vs : List (List ℕ)) (w : World)
        → length bs + length hs + 1 < 2 ^ 32
        → Sound w (refs bs ++ hs)
        → ShowAll w bs vs
        → Foreign w region user
        → ReadyFor size w command bs
        → Ends
            (λ (answer, bs', w'). Left region size hs w (Obeyed user command vs answer) bs' w')
            (obey region command bs w)
    unfolding obey
    obey-Left (on i action) bs vs w few sound shown foreign ready =
        Ends-weaken
          (act_at-ActedAt region user (omega (arith, long)) action i bs vs hs w few sound shown
            foreign (subst (λ (n : ℕ). ReadyAt n w i action bs) (sym long) ready))
          λ (answer, bs', w') a. record {
            values = a.values;
            user_after = a.user_after;
            extent = a.extent ∙ long;
            effect = acted a.effect;
            sound = a.sound;
            shown = a.shown;
            undisturbed = a.undisturbed;
            foreign = a.foreign;
          }
    obey-Left (assign_to to from) bs vs w few sound shown foreign ready =
        assign_from-Left to from (get_elem? bs from) bs vs w few sound shown foreign
          (found w bs vs from shown)
    obey-Left (create allocator capacity) bs vs w few sound shown foreign (lawful, fits) =
        ends (create-Left allocator capacity bs vs w few sound shown foreign lawful fits)

  -- Let a world be sound for the buffers of a program and other references, let the buffers show the
  -- byte strings `vs`, whatever blocks they share, and let the caller's region, with the bytes
  -- `user`, belong to no block. Take any sequence of commands: to write from that region, read to it,
  -- read as a string, skip, discard, clear, copy or destroy the buffer at an index, to assign the
  -- buffer at one index to the one at another, or to make a buffer. Let there be, when a command's
  -- turn comes, fewer than 2 ^ 32 - 1 references; the range to write from or read to within the
  -- region; memory to be had for a copy of the block of a buffer to be written or discarded; and a
  -- lawful allocator and a capacity below 2 ^ 64 for a buffer to be made. Then the sequence ends
  -- without undefined behaviour or a failed assertion; its answers, the byte strings that the buffers
  -- show then and the bytes of the caller's region are those that `Effects` allows, in which an
  -- action is on the string at its index only, an assignment replaces it by the one assigned, a new
  -- buffer adds an empty one, a write appends all of its bytes or none, and only a read changes the
  -- caller's region; the world is sound, the caller's region belongs to no block, and every block
  -- that another reference points to is and holds what it was and held.
  pub obey_all-Left :
      (commands : List Command) (bs : List ByteBuffer) (vs : List (List ℕ)) (user : List ℕ)
      (w : World)
      → length user ≡ size
      → Sound w (refs bs ++ hs)
      → ShowAll w bs vs
      → Foreign w region user
      → ReadyAll region size (length hs) commands bs w
      → Ends
          (λ (answers, bs', w'). Left region size hs w (Effects user commands vs answers) bs' w')
          (obey_all region commands bs w)
  unfolding obey_all
  obey_all-Left [] bs vs user w long sound shown foreign ready = ends (record {
    values = vs;
    user_after = user;
    extent = long;
    effect = done;
    sound = sound;
    shown = shown;
    undisturbed = λ q t zs _ there. there;
    foreign = foreign;
  })
  obey_all-Left (command ∷ commands) bs vs user w long sound shown foreign (few, ready, later) =
      let (res, e, a) =
        Ends-value (obey-Left user long command bs vs w few sound shown foreign ready) in
      rw e (
        Ends-bind
          (obey_all-Left commands res.1 a.values a.user_after res.2 a.extent a.sound a.shown
            a.foreign (later res.0 res.1 res.2 e))
          λ (answers, bs', w') c. ends (record {
            values = c.values;
            user_after = c.user_after;
            extent = c.extent;
            effect = next a.effect c.effect;
            sound = c.sound;
            shown = c.shown;
            undisturbed =
                λ q t zs more there. c.undisturbed q t zs more (a.undisturbed q t zs more there);
            foreign = c.foreign;
          }))
