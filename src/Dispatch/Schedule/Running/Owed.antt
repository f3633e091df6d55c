-- ===== src/Dispatch/Schedule/Running/Owed.antt =====
-- How often the callback is still to be dispatched: every turn of the queue or of a timer keeps the number of
-- dispatches made and owed.
use noctisplanet_foundation.Prelude.{
  ℕ, suc, ◌+◌, ◌%◌, ◌^◌, ◌≤◌, ◌<◌, ◌≡◌, refl, ap, List, [], ◌∷◌, ◌++◌, arith, ◌==◌, if◌then◌else◌,
}
use noctisplanet_foundation.Dispatch.Schedule.{
  Debounce, Event, signal, cancel, expire, on_debounce_signal, on_expire, step,
}
use noctisplanet_foundation.Dispatch.Schedule.Latest.{signals}
use noctisplanet_foundation.Dispatch.Schedule.Running.{times, timers_after}

abbrev count : ℕ → List ℕ → ℕ
count n [] = 0
count n (m ∷ ms) = times (n == m) + count n ms

-- What the blocks of the queue dispatch, one after the other.
abbrev pub due : List Event → Debounce → ℕ
due [] d = 0
due (task ∷ tasks) d = times (step task d).0 + due tasks (step task d).1

-- What the blocks of the queue and the timers dispatch.
abbrev pub owed : List Event → Debounce → List ℕ → ℕ
owed [] d timers = if d.canceled then 0 else count d.generation timers
owed (task ∷ tasks) d timers =
    times (step task d).0 + owed tasks (step task d).1 (timers_after task d timers)

count-middle :
    (n : ℕ) (before : List ℕ) (m : ℕ) (after : List ℕ)
    → count n (before ++ m ∷ after) ≡ times (n == m) + count n (before ++ after)
count-middle n [] m after = refl
count-middle n (b ∷ before) m after = omega (arith, count-middle n before m after)

timers_after-middle :
    (task : Event) (d : Debounce) (before : List ℕ) (m : ℕ) (after : List ℕ)
    → (b : List ℕ) × (timers_after task d (before ++ m ∷ after) ≡ b ++ m ∷ after)
      × (timers_after task d (before ++ after) ≡ b ++ after)
unfolding timers_after
timers_after-middle signal d before m after = ((on_debounce_signal d).0 ∷ before, refl, refl)
timers_after-middle cancel d before m after = (before, refl, refl)
timers_after-middle (expire c) d before m after = (before, refl, refl)

-- A timer that expires is owed what its handler dispatches.
pub owed-expire :
    (tasks : List Event) (d : Debounce) (before : List ℕ) (m : ℕ) (after : List ℕ)
    → owed (tasks ++ expire m ∷ []) d (before ++ after) ≡ owed tasks d (before ++ m ∷ after)
unfolding step on_expire timers_after
owed-expire [] d before m after = ground (arith, count-middle d.generation before m after)
owed-expire (task ∷ tasks) d before m after =
    let (b, with_m, without) = timers_after-middle task d before m after in
    rw (with_m, without)
      (ap (λ (n : ℕ). times (step task d).0 + n) (owed-expire tasks (step task d).1 b m after))

pub owed-cancel :
    (tasks : List Event) (d : Debounce) (timers : List ℕ)
    → owed (tasks ++ cancel ∷ []) d timers ≡ due tasks d
unfolding step
owed-cancel [] d timers = refl
owed-cancel (task ∷ tasks) d timers =
    ap (λ (n : ℕ). times (step task d).0 + n)
      (owed-cancel tasks (step task d).1 (timers_after task d timers))

-- No timer is of a generation after `n`.
abbrev pub UpTo : ℕ → List ℕ → Type 0
UpTo n [] = Unit {0}
UpTo n (m ∷ ms) = (m ≤ n) × UpTo n ms

pub UpTo-weaken : (n n' : ℕ) (ms : List ℕ) → n ≤ n' → UpTo n ms → UpTo n' ms
UpTo-weaken n n' [] le u = tt
UpTo-weaken n n' (m ∷ ms) le (h, u) = (omega arith, UpTo-weaken n n' ms le u)

pub UpTo-remove :
    (n : ℕ) (before : List ℕ) (m : ℕ) (after : List ℕ)
    → UpTo n (before ++ m ∷ after)
    → UpTo n (before ++ after)
UpTo-remove n [] m after (h, u) = u
UpTo-remove n (b ∷ before) m after (h, u) = (h, UpTo-remove n before m after u)

count-later : (n g : ℕ) (ms : List ℕ) → UpTo n ms → n < g → count g ms ≡ 0
count-later n g [] u lt = refl
count-later n g (m ∷ ms) (h, u) lt = ground (arith, count-later n g ms u lt)

times-same : (n : ℕ) → times (n == n) ≡ 1
times-same n = ground arith

-- Running a block counts the signals and keeps the timers below the generation.
pub step-generation :
    (task : Event) (tasks : List Event) (d : Debounce) (timers : List ℕ) (n : ℕ)
    → d.generation + signals (task ∷ tasks) ≡ n
    → n < 2 ^ 64
    → UpTo d.generation timers
    → let d' = (step task d).1 in
      (d'.generation + signals tasks ≡ n) × UpTo d'.generation (timers_after task d timers)
unfolding step timers_after on_debounce_signal
step-generation signal tasks d timers n e few u =
    let g = (d.generation + 1) % 2 ^ 64 in
    (omega arith, (omega arith, UpTo-weaken d.generation g timers (omega arith) u))
step-generation cancel tasks d timers n e few u = (e, u)
step-generation (expire c) tasks d timers n e few u = (e, u)

-- After a signal one dispatch more is owed than what the blocks before it dispatch.
pub owed-signal :
    (tasks : List Event) (d : Debounce) (timers : List ℕ) (n : ℕ)
    → d.generation + signals tasks ≡ n
    → suc n < 2 ^ 64
    → UpTo d.generation timers
    → owed (tasks ++ signal ∷ []) d timers ≡ suc (due tasks d)
unfolding step timers_after on_debounce_signal
owed-signal [] d timers n e few u =
    let g = (d.generation + 1) % 2 ^ 64 in
    omega (arith, times-same g, count-later d.generation g timers u (omega arith))
owed-signal (task ∷ tasks) d timers n e few u =
    let (e', u') = step-generation task tasks d timers n e (omega arith) u in
    omega (arith, owed-signal tasks (step task d).1 (timers_after task d timers) n e' few u')
