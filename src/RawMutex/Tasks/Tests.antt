-- ===== src/RawMutex/Tasks/Tests.antt =====
-- The test `async_lock_timeout` of colock/src/mutex/raw_mutex.rs: task 0 holds the lock, and task 1
-- drops its future when the time is up.
use colock.Base.{ℕ, ◌≡◌, refl, true, false, Option, none, some, [], ◌∷◌, length}
use colock.RawMutex.Flags.{is_locked}
use colock.RawMutex.Queue.{pop_last, remove}
use colock.RawMutex.Thread.{advance, first_try, next_try, should_sleep, start_unlock, pop_sleeper}
use colock.RawMutex.Poller.{poll_loop}
use colock.RawMutex.Tasks.{poll_it, drop_it, unlock_it, Tasks, Task, first, act_at, unlock_loop}
use colock.RawMutex.Tasks.Schedule.{task_step, all_acts}

-- The count of the queue once the time is up, and the tasks at the end.
abbrev counted : Option Tasks → Option (ℕ × Tasks)
counted none = none
counted (some t) = elim (task_step true 0 unlock_it t) [
  | none ↦ none
  | some u ↦ some (length t.shared.queue, u)
]

unfoldable pub async_lock_timeout : Option (ℕ × Tasks)
async_lock_timeout =
    counted (all_acts true ((0, poll_it) ∷ (1, poll_it) ∷ (1, drop_it) ∷ []) (some first))

abbrev Asserts : Option (ℕ × Tasks) → Type 0
Asserts none = ⊥
Asserts (some (count, t)) =
    (count ≡ 0) × (t.task 1 ≡ Task.away) × (is_locked t.shared.state ≡ false)

-- The queue is empty, task 1 has not got the lock, and the mutex is free in the end.
async_lock_timeout_passes : Asserts async_lock_timeout
unfolding async_lock_timeout task_step act_at poll_loop unlock_loop advance first_try next_try
    should_sleep start_unlock pop_sleeper pop_last remove
async_lock_timeout_passes = (refl, refl, refl)
