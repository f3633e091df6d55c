-- ===== src/CopyOnWriteBacked/Threads.antt =====
-- One block of Sources/NPFoundation/include/NPFoundation/CopyOnWriteBacked.h that several threads refer to.
-- An access to the atomic counter is one step; what `release` and `unique` do after it comes later, when
-- other threads may have gone on. One thread goes through `unique`, the others retain and release.
use noctisplanet_foundation.Prelude.{
  ℕ, suc, ◌+◌, ◌-◌, ◌^◌, ◌≤◌, ◌<◌, ◌≡◌, refl, ap, ◌∙◌, Bool, true, false, arith, ◌==◌,
  if◌then◌else◌, ltb,
}
use noctisplanet_foundation.CopyOnWriteBacked.{uint32}

-- Where the thread is in `unique`: it holds its reference; it has loaded the counter; it has found itself
-- alone; it has copied the element and is to release the block; it refers to the copy.
pub data Phase : Type 0 where
  holding : Phase
  loaded : ℕ → Phase
  alone : Phase
  copied : Phase
  moved : Phase

-- The counter; the references that the other threads hold; how many threads have seen the counter at 1
-- when they decremented it and are to delete the block; how often it has been deleted.
pub record Sharing : Type 0 where
  pub retain_count : ℕ
  pub others : ℕ
  pub phase : Phase
  pub deleting : ℕ
  pub deleted : ℕ

-- `retainCount.fetch_sub(1) == 1`
abbrev pub last : ℕ → ℕ
last count = if count == 1 then 1 else 0

pub data Step : Sharing → Sharing → Type 0 where
  -- A thread copies a reference; there are fewer than the counter can count.
  retained :
      {s : Sharing}
      → 0 < s.others
      → s.others + 2 < 2 ^ 32
      → Step s (record s { retain_count = uint32 (s.retain_count + 1); others = suc s.others })
  released :
      {s : Sharing}
      → 0 < s.others
      → Step s (record s {
        retain_count = uint32 (s.retain_count + 2 ^ 32 - 1);
        others = s.others - 1;
        deleting = s.deleting + last s.retain_count;
      })
  destroyed :
      {s : Sharing}
      → 0 < s.deleting
      → Step s (record s { deleting = s.deleting - 1; deleted = suc s.deleted })
  -- `unique` loads the counter, and goes by what it has loaded.
  counted : {s : Sharing} → s.phase ≡ holding → Step s (record s { phase = loaded s.retain_count })
  found_alone :
      {s : Sharing} (n : ℕ)
      → s.phase ≡ loaded n
      → ltb 1 n ≡ false
      → Step s (record s { phase = alone })
  found_shared :
      {s : Sharing} (n : ℕ)
      → s.phase ≡ loaded n
      → ltb 1 n ≡ true
      → Step s (record s { phase = copied })
  let_go :
      {s : Sharing}
      → s.phase ≡ copied
      → Step s (record s {
        retain_count = uint32 (s.retain_count + 2 ^ 32 - 1);
        phase = moved;
        deleting = s.deleting + last s.retain_count;
      })

pub data Reaches (s : Sharing) : Sharing → Type 0 where
  here : Reaches s s
  then_step : {t u : Sharing} → Reaches s t → Step t u → Reaches s u

-- The thread's own reference to the block.
abbrev pub own : Phase → ℕ
own moved = 0
own _ = 1

-- The thread has seen that nobody else refers to the block.
abbrev sees_alone : Phase → Bool
sees_alone (loaded n) = if ltb 1 n then false else true
sees_alone alone = true
sees_alone _ = false

-- The thread holds the only reference to a block, or `n` others hold one too.
abbrev pub begin : ℕ → Sharing
begin n = record { retain_count = suc n; others = n; phase = holding; deleting = 0; deleted = 0 }

record Sound (s : Sharing) : Type 0 where
  counts : s.retain_count ≡ s.others + own s.phase
  few : s.others + 1 < 2 ^ 32
  ended : s.deleting + s.deleted + (if s.retain_count == 0 then 0 else 1) ≡ 1
  alone_for_good : sees_alone s.phase ≡ true → s.others ≡ 0

own-le : (phase : Phase) → own phase ≤ 1
own-le holding = omega arith
own-le (loaded n) = omega arith
own-le alone = omega arith
own-le copied = omega arith
own-le moved = omega arith

step-Sound : {s t : Sharing} → Step s t → Sound s → Sound t
step-Sound {s} (retained more fits) d = record {
  counts = omega (arith, d.counts, own-le s.phase);
  few = omega arith;
  ended = ground (arith, d.counts, d.ended, own-le s.phase);
  alone_for_good = λ e. absurd (omega (arith, d.alone_for_good e));
}
step-Sound {s} (released more) d = record {
  counts = omega (arith, d.counts, d.few, own-le s.phase);
  few = omega (arith, d.few);
  ended = ground (arith, d.counts, d.ended, d.few, own-le s.phase);
  alone_for_good = λ e. omega (arith, d.alone_for_good e);
}
step-Sound {s} (destroyed some_left) d = record {
  counts = d.counts;
  few = d.few;
  ended = omega (arith, d.ended);
  alone_for_good = d.alone_for_good;
}
step-Sound {s} (counted now) d =
    let mine : own s.phase ≡ 1 = ap own now in
    record {
      counts = omega (arith, d.counts);
      few = d.few;
      ended = d.ended;
      alone_for_good = λ e. ground (arith, d.counts);
    }
step-Sound {s} (found_alone n now one) d =
    let mine : own s.phase ≡ 1 = ap own now in
    let seen : sees_alone s.phase ≡ true = ap sees_alone now ∙ rw one refl in
    record {
      counts = omega (arith, d.counts);
      few = d.few;
      ended = d.ended;
      alone_for_good = λ e. d.alone_for_good seen;
    }
step-Sound {s} (found_shared n now more) d =
    let mine : own s.phase ≡ 1 = ap own now in
    record {
      counts = omega (arith, d.counts);
      few = d.few;
      ended = d.ended;
      alone_for_good = λ e. absurd cc;
    }
step-Sound {s} (let_go now) d =
    let mine : own s.phase ≡ 1 = ap own now in
    record {
      counts = omega (arith, d.counts, d.few);
      few = d.few;
      ended = ground (arith, d.counts, d.ended, d.few);
      alone_for_good = λ e. absurd cc;
    }

Reaches-Sound : (n : ℕ) → n + 1 < 2 ^ 32 → {s : Sharing} → Reaches (begin n) s → Sound s
Reaches-Sound n few here = record {
  counts = omega arith;
  few = few;
  ended = ground arith;
  alone_for_good = λ e. absurd cc;
}
Reaches-Sound n few (then_step r step) = step-Sound step (Reaches-Sound n few r)

-- What threads can rely on.
pub record Safe (s : Sharing) : Type 0 where
  pub counts : s.retain_count ≡ s.others + own s.phase
  pub while_referred : 0 < s.others + own s.phase → (s.deleting ≡ 0) × (s.deleted ≡ 0)
  pub in_the_end : s.others + own s.phase ≡ 0 → s.deleting ≡ 0 → s.deleted ≡ 1
  pub once : s.deleted ≤ 1
  pub alone_for_good : s.phase ≡ alone → s.others ≡ 0

-- From a block that one thread and `n` others refer to, fewer than 2 ^ 32 in all, in any state that
-- threads reach by copying and releasing references and one of them by `unique`, with fewer
-- references than the counter can count: the counter is the number of references; while there is one,
-- the block is neither deleted nor about to be; once there is none and no deletion is left to do, it
-- has been deleted once, and it is never deleted twice; and a thread that `unique` has left with its
-- block is the only one to refer to it.
pub Reaches-Safe : (n : ℕ) → n + 1 < 2 ^ 32 → (s : Sharing) → Reaches (begin n) s → Safe s
Reaches-Safe n few s r =
    let d = Reaches-Sound n few r in
    record {
      counts = d.counts;
      while_referred = λ more. ground (arith, d.counts, d.ended);
      in_the_end = λ none_left over. ground (arith, d.counts, d.ended);
      once = omega (arith, d.ended);
      alone_for_good = λ now. d.alone_for_good (ap sees_alone now);
    }
