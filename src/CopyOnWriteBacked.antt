-- ===== src/CopyOnWriteBacked.antt =====
-- Sources/NPFoundation/include/NPFoundation/CopyOnWriteBacked.h: references that share an element
-- until one of them is about to write to it.
-- The blocks are a store, a block's address its number, and a `CopyOnWriteBacked<T>` is its field
-- `block`: the address, or `none` for the null pointer that a move leaves. `new` gives an address
-- that was not used before; it is taken not to fail, as the code takes it. The element that a block
-- owns is kept in the block. What the copy constructor and the destructor of `T` do to the rest of
-- the program is the state `world`.
-- The count is a 32-bit word, changed in one step each time, as an atomic is.
pub mod Counted
pub mod Shared
pub mod Assign
pub mod Unique
pub mod Threads
mod Examples
use noctisplanet_foundation.Prelude.{
  ℕ, suc, ◌+◌, ◌-◌, ◌%◌, ◌^◌, ◌≡◌, Bool, true, false, not, Option, none, some, ltb, ◌==◌,
  if◌then◌else◌, Run, ok, ◌>>=◌, present,
}

pub record Block (T : Type 0) : Type 0 where
  pub element : T
  pub retain_count : ℕ

pub record Store (T W : Type 0) : Type 0 where
  pub blocks : ℕ → Option (Block T)
  pub next : ℕ
  pub world : W

-- "T must be copy-constructible": its copy constructor and its destructor.
pub record Element (T W : Type 0) : Type 0 where
  pub copy : T → W → Run (T × W)
  pub destroy : T → W → Run W

abbrev pub uint32 : ℕ → ℕ
uint32 n = n % 2 ^ 32

module _ {T : Type 0} where
  abbrev pub put : (ℕ → Option (Block T)) → ℕ → Option (Block T) → ℕ → Option (Block T)
  put blocks p b q = if p == q then b else blocks q

module _ {T W : Type 0} where
  -- `CopyOnWriteBacked(T *element)`, and `CopyOnWriteMake` once the element is constructed.
  unfoldable pub make : T → Store T W → Option ℕ × Store T W
  make element st = (
    some st.next,
    record st {
      blocks = put st.blocks st.next (some (record { element = element; retain_count = 1 }));
      next = suc st.next;
    },
  )

  -- `Block::retain`
  unfoldable pub retain : ℕ → Store T W → Run (Store T W)
  retain p st = do
    b ← present (st.blocks p)
    let more = record b { retain_count = uint32 (b.retain_count + 1) }
    ok (record st { blocks = put st.blocks p (some more) })

  -- `CopyOnWriteBacked(const CopyOnWriteBacked &)`
  unfoldable pub copy_construct : Option ℕ → Store T W → Run (Option ℕ × Store T W)
  unfolding retain
  copy_construct other st = do p ← present other; st' ← retain p st; ok (other, st')

  unfoldable pub retain_count : Option ℕ → Store T W → Run ℕ
  retain_count this st = do p ← present this; b ← present (st.blocks p); ok b.retain_count

  -- `read` and `operator->`
  unfoldable pub read : Option ℕ → Store T W → Run T
  read this st = do p ← present this; b ← present (st.blocks p); ok b.element

  -- A write through the pointer that `unique` hands out.
  unfoldable pub assign : Option ℕ → T → W → Store T W → Run (Store T W)
  assign this element world st = do
    p ← present this
    b ← present (st.blocks p)
    ok (record st {
      blocks = put st.blocks p (some (record b { element = element }));
      world = world;
    })

-- `CopyOnWriteBacked(CopyOnWriteBacked &&)`: the new reference, and what is left of `other`.
unfoldable pub move_construct : Option ℕ → Option ℕ × Option ℕ
move_construct other = (other, none)

abbrev pub same_block : Option ℕ → Option ℕ → Bool
same_block none none = true
same_block none (some q) = false
same_block (some p) none = false
same_block (some p) (some q) = p == q

module _ {T W : Type 0} (e : Element T W) where
  -- `Block::release`: whoever sees the count at 1 before the decrement destroys the block.
  unfoldable pub release : ℕ → Store T W → Run (Store T W)
  release p st = do
    b ← present (st.blocks p)
    let fewer = record b { retain_count = uint32 (b.retain_count + 2 ^ 32 - 1) }
    if b.retain_count == 1
        then (do
          w ← e.destroy b.element st.world
          ok (record st { blocks = put st.blocks p none; world = w }))
        else ok (record st { blocks = put st.blocks p (some fewer) })

  -- `~CopyOnWriteBacked()`, and the same test in the two assignments.
  unfoldable pub drop_reference : Option ℕ → Store T W → Run (Store T W)
  unfolding release
  drop_reference none st = ok st
  drop_reference (some p) st = release p st

  -- `operator=(const CopyOnWriteBacked &)`: the reference assigned to.
  unfoldable pub copy_assign : Option ℕ → Option ℕ → Store T W → Run (Option ℕ × Store T W)
  unfolding retain drop_reference
  copy_assign this other st =
      let share : Run (Option ℕ × Store T W) = do
        p ← present other
        st' ← retain p st
        st'' ← drop_reference this st'
        ok (other, st'')
      in if not (same_block this other) then share else ok (this, st)

  -- `operator=(CopyOnWriteBacked &&)`, with the test `this != &other`: the reference assigned to, and
  -- what is left of `other`.
  unfoldable pub move_assign :
      Bool → Option ℕ → Option ℕ → Store T W → Run (Option ℕ × Option ℕ × Store T W)
  unfolding drop_reference
  move_assign distinct this other st =
      let take_over : Run (Option ℕ × Option ℕ × Store T W) = do
        st' ← drop_reference this st
        ok (other, none, st')
      in if distinct then take_over else ok (this, other, st)

  -- `unique`: the reference, now the only one to its block.
  unfoldable pub unique : Option ℕ → Store T W → Run (Option ℕ × Store T W)
  unfolding retain_count read
  unique this st =
      let split : Run (Option ℕ × Store T W) = do
        p ← present this
        element ← read this st
        (copied, w) ← e.copy element st.world
        let (unshared, st') = make copied (record st { world = w })
        st'' ← release p st'
        ok (unshared, st'')
      in do count ← retain_count this st; if ltb 1 count then split else ok (this, st)
