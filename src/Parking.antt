-- ===== src/Parking.antt =====
-- parking/src/lib.rs: parkers, the wakers that point to them, and the two loops that wait.
-- An `Instant` and a `Duration` are numbers; the threads and tasks of std are named by numbers.
pub mod Laws
use colock.Base.{
  ℕ, ◌+◌, ◌-◌, Bool, true, false, Option, none, some, List, [], ◌∷◌, ◌++◌, if◌then◌else◌, update,
  ◌==◌,
}

-- What a waker does outside the parkers.
pub data Signal : Type 0 where
  unpark : (thread : ℕ) → Signal
  wake_task : (task : ℕ) → Signal

-- `should_wakeup` of the parker at each address, and the signals sent so far.
pub record World : Type 0 where
  pub should_wakeup : ℕ → Bool
  pub signals : List Signal

pub data MaybeAsync : Type 0 where
  on_thread : (handle : ℕ) → MaybeAsync
  on_task : (waker : ℕ) → MaybeAsync

-- A null pointer is `none`.
pub record Waker : Type 0 where
  pub parker : Option ℕ
  pub inner : MaybeAsync

-- `Parker::new` and `Parker::prepare_park` on the parker at `p`.
abbrev pub store_flag : ℕ → Bool → World → World
store_flag p b w = record w { should_wakeup = update w.should_wakeup p b }

abbrev pub new_parker : ℕ → World → World
new_parker p w = store_flag p false w

abbrev pub prepare_park : ℕ → World → World
prepare_park p w = store_flag p false w

-- `Waker::new`, where `current` is the calling thread.
abbrev pub waker : ℕ → ℕ → Waker
waker p current = record { parker = some p; inner = on_thread current }

abbrev pub async_waker : ℕ → ℕ → Waker
async_waker p task = record { parker = some p; inner = on_task task }

abbrev pub new_task_unattached : ℕ → Waker
new_task_unattached task = record { parker = none; inner = on_task task }

abbrev pub mark_parker : Option ℕ → World → World
mark_parker none w = w
mark_parker (some p) w = store_flag p true w

abbrev pub signal_of : MaybeAsync → Signal
signal_of (on_thread handle) = unpark handle
signal_of (on_task task) = wake_task task

unfoldable pub wake : Waker → World → World
wake k w =
    let marked = mark_parker k.parker w in
    record marked { signals = marked.signals ++ signal_of k.inner ∷ [] }

-- A round of `park_until`: the time it reads, and the flag that it loads after `park_timeout`.
pub record Round : Type 0 where
  pub now : ℕ
  pub seen : Bool

-- Subtracting a later `Instant` from an earlier one is zero. `none`: still waiting after these.
unfoldable pub park_until : ℕ → List Round → Option Bool
park_until timeout [] = none
park_until timeout (r ∷ rounds) =
    let later = park_until timeout rounds in
    if timeout - r.now == 0 then some false else if r.seen then some true else later

-- `Instant::now() + duration`, with the time that this reads.
unfoldable pub park_for : ℕ → ℕ → List Round → Option Bool
park_for now duration rounds = park_until (now + duration) rounds

-- The flag at each load of `park`; the loads after the last one are not made.
unfoldable pub park : List Bool → Option (List Bool)
park [] = none
park (seen ∷ loads) = let later = park loads in if seen then some loads else later
