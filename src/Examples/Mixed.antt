-- ===== src/Examples/Mixed.antt =====
-- Threads and a task at one mutex: a schedule, and the theorems at the states it comes to.
use colock.Base.{
  update, ℕ, zero, suc, ◌≡◌, refl, true, false, Option, none, some, List, [], ◌∷◌, ◌++◌, ◌*◌, ◌<◌,
  arith, subst, of_some,
}
use colock.RawMutex.Flags.{is_locked}
use colock.RawMutex.Thread.{
  Shared, trying, lock, call, unlock, run, advance, first_try, next_try, enter_queue, should_sleep,
  start_unlock, pop_sleeper, wake_sleeper, clear_waiting,
}
use colock.RawMutex.Queue.{pop_last, remove}
use colock.RawMutex.System.{plain}
use colock.RawMutex.Timed.{unfair}
use colock.RawMutex.Mixed.{
  polling, finished, Move, by_thread, poll_it, run_it, drop_node, take_queue, go, Mixed, init,
  MixedReach,
}
use colock.RawMutex.Mixed.Exclusion.{has_lock, mixed_exclusion}
use colock.RawMutex.Mixed.Defs.{is_asleep, is_active}
use colock.RawMutex.Mixed.Schedule.{mixed_step, all_moves, all_moves-MixedReach}
use colock.LockSpec.{LockStep}
use colock.RawMutex.Mixed.Spec.{MutexShows, mixed_refines_lock}
use colock.RawMutex.Mixed.Progress.{CanGo, mixed_progress}
use colock.Counter.Client
use colock.Counter.Client.{begin, work, read, write, finish, Client, at_phase, move_one}
use colock.Counter.Async.{task_lock, do_lots_and_lots_async, do_lots_and_lots_async_lem}
use colock.Examples.Count.{ended}

abbrev times : {A : Type 0} → ℕ → A → List A
times zero v = []
times (suc n) v = v ∷ times n v

abbrev mixed_end : Option Mixed → Mixed
mixed_end none = init
mixed_end (some s) = s

-- Thread 0 takes the lock, thread 1 sleeps, task 2 is pending, and 0 begins to unlock.
abbrev three_moves : List (ℕ × Move)
three_moves =
    ((0, by_thread (call lock)) ∷ (0, by_thread run) ∷ (1, by_thread (call lock)) ∷ [])
    ++ times 7 (1, by_thread run)
    ++ ((2, poll_it) ∷ times 6 (2, run_it))
    ++ ((0, by_thread unlock) ∷ [])

abbrev unlocking : Mixed
unlocking = mixed_end (all_moves plain false three_moves (some init))

unlocking-MixedReach : MixedReach plain false unlocking
unfolding mixed_step go advance first_try next_try enter_queue should_sleep start_unlock drop_node
    take_queue
unlocking-MixedReach =
    all_moves-MixedReach three_moves (some init) _
      (λ s e. subst (MixedReach plain false) (of_some e) MixedReach.start) refl

unlocking_facts :
    (is_locked unlocking.shared.state ≡ false)
    × (is_asleep unlocking.shared unlocking.place 2 ≡ true)
unfolding mixed_step go advance first_try next_try enter_queue should_sleep start_unlock drop_node
    take_queue
unlocking_facts = (refl, refl)

mixed_progress_example :
    ((j : ℕ) × (is_active unlocking.shared unlocking.place j ≡ true))
    × ((k : ℕ) × CanGo unlocking.shared unlocking.place k)
mixed_progress_example = mixed_progress unlocking-MixedReach unlocking_facts.0 2 unlocking_facts.1

-- Task 2 is polled again before it is woken, and takes the lock.
abbrev taking : Mixed
taking =
    mixed_end
      (all_moves unfair true (three_moves ++ (2, poll_it) ∷ times 2 (2, run_it)) (some init))

taking-MixedReach : MixedReach unfair true taking
unfolding mixed_step go advance first_try next_try enter_queue should_sleep start_unlock drop_node
    take_queue
taking-MixedReach =
    all_moves-MixedReach (three_moves ++ (2, poll_it) ∷ times 2 (2, run_it)) (some init) _
      (λ s e. subst (MixedReach unfair true) (of_some e) MixedReach.start) refl

taken_by_task : has_lock (taking.place 2) ≡ true
unfolding mixed_step go advance first_try next_try enter_queue should_sleep start_unlock drop_node
    take_queue
taken_by_task = refl

mixed_exclusion_example : (◌≡◌ {A = ℕ} 2 2) × (is_locked taking.shared.state ≡ true)
mixed_exclusion_example = mixed_exclusion refl taking-MixedReach 2 2 taken_by_task taken_by_task

-- Two tasks that count once each; the second waits while the first has the lock.
abbrev two_count : List (ℕ × Client.Move)
two_count =
    ((0, begin) ∷ times 2 (0, work))
    ++ ((0, read) ∷ (1, begin) ∷ times 8 (1, work))
    ++ ((0, write) ∷ (0, finish) ∷ times 3 (0, work))
    ++ times 3 (1, work)
    ++ ((1, read) ∷ (1, write) ∷ (1, finish) ∷ [])

abbrev counted : Client Mixed
counted = ended task_lock (do_lots_and_lots_async 1 2 two_count)

counted_reached : do_lots_and_lots_async 1 2 two_count ≡ some counted
unfolding do_lots_and_lots_async move_one at_phase mixed_step go advance first_try next_try
    should_sleep start_unlock pop_sleeper wake_sleeper clear_waiting drop_node take_queue pop_last
    remove
counted_reached = refl

counted_over : (i : ℕ) → i < 2 → counted.todo i ≡ 0
unfolding do_lots_and_lots_async move_one at_phase mixed_step go advance first_try next_try
    should_sleep start_unlock pop_sleeper wake_sleeper clear_waiting drop_node take_queue pop_last
    remove
counted_over zero lt = refl
counted_over (suc zero) lt = refl
counted_over (suc (suc i)) lt = absurd (omega arith)

do_lots_and_lots_async_lem_example : counted.value ≡ 2 * 1
do_lots_and_lots_async_lem_example =
    do_lots_and_lots_async_lem 1 2 two_count counted counted_reached counted_over

-- Task 0 alone, in its first poll, takes the lock.
abbrev polling_first : Mixed
polling_first = record {
  shared = record (init.shared) { flags = update init.shared.flags 0 false };
  place = update init.place 0 (polling (trying lock));
}

polling_first-MixedReach : MixedReach unfair true polling_first
unfolding mixed_step go
polling_first-MixedReach =
    all_moves-MixedReach ((0, poll_it) ∷ []) (some init) _
      (λ s e. subst (MixedReach unfair true) (of_some e) MixedReach.start) refl

abbrev taken_first : Shared
taken_first = record (polling_first.shared) { state = 1 }

takes_lock : go 0 run_it (polling_first.place 0) polling_first.shared ≡ some (taken_first, finished)
unfolding go advance first_try
takes_lock = refl

mixed_refines_lock_example :
    (o' : Option ℕ) × MutexShows taken_first (update polling_first.place 0 finished) o'
    × LockStep 0 none o'
mixed_refines_lock_example =
    mixed_refines_lock refl polling_first-MixedReach 0 run_it none refl takes_lock
      (refl, λ j. ground arith)
