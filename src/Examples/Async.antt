-- ===== src/Examples/Async.antt =====
-- Futures of `lock_async` on one thread.
use colock.Base.{
  ℕ, ◌≡◌, ◌≢◌, refl, true, false, Option, none, some, List, [], ◌∷◌, arith, subst, of_some,
}
use colock.RawMutex.Flags.{is_locked}
use colock.RawMutex.Queue.{pop_last, remove}
use colock.RawMutex.Thread.{
  advance, first_try, next_try, should_sleep, start_unlock, pop_sleeper, wake_sleeper,
  clear_waiting,
}
use colock.RawMutex.Poller.{poll_loop}
use colock.RawMutex.Tasks.{
  waiting, holder, broken, Tasks, first, Act, poll_it, drop_it, unlock_it, unlock_loop, act_at,
  TaskReach,
}
use colock.RawMutex.Tasks.Schedule.{task_step, all_acts, all_acts-TaskReach}
use colock.RawMutex.Tasks.Awake.{
  tasks_exclusion, tasks_no_panic, tasks_some_woken, woken_drop_stalls,
}

abbrev acts_end : Option Tasks → Tasks
acts_end none = first
acts_end (some t) = t

-- Task 0 takes the lock, 1 and 2 wait, and 0 unlocks, which wakes 1.
abbrev three_acts : List (ℕ × Act)
three_acts = (0, poll_it) ∷ (1, poll_it) ∷ (2, poll_it) ∷ (0, unlock_it) ∷ []

abbrev woken_state : Tasks
woken_state = acts_end (all_acts true three_acts (some first))

woken_state-TaskReach : TaskReach true woken_state
unfolding task_step act_at poll_loop unlock_loop advance first_try next_try should_sleep
    start_unlock pop_sleeper wake_sleeper clear_waiting pop_last remove
woken_state-TaskReach =
    all_acts-TaskReach three_acts (some first) _
      (λ t e. subst (TaskReach true) (of_some e) TaskReach.start) refl

woken_state_facts :
    (woken_state.task 1 ≡ waiting)
    × (woken_state.task 2 ≡ waiting)
    × (is_locked woken_state.shared.state ≡ false)
    × (woken_state.shared.flags 1 ≡ true)
unfolding task_step act_at poll_loop unlock_loop advance first_try next_try should_sleep
    start_unlock pop_sleeper wake_sleeper clear_waiting pop_last remove
woken_state_facts = (refl, refl, refl, refl)

others_calm : (k : ℕ) → k ≢ 1 → woken_state.task k ≡ waiting → woken_state.shared.flags k ≡ false
unfolding task_step act_at poll_loop unlock_loop advance first_try next_try should_sleep
    start_unlock pop_sleeper wake_sleeper clear_waiting pop_last remove
others_calm k ne w = ground arith

tasks_some_woken_example :
    (j : ℕ) × (woken_state.task j ≡ waiting) × (woken_state.shared.flags j ≡ true)
tasks_some_woken_example =
    tasks_some_woken woken_state-TaskReach woken_state_facts.2 2 woken_state_facts.1

tasks_no_panic_example : woken_state.task 2 ≢ broken
tasks_no_panic_example = tasks_no_panic woken_state-TaskReach 2

woken_drop_stalls_example :
    (u : Tasks) × (act_at 1 drop_it (woken_state.task 1) woken_state ≡ some u)
    × (is_locked u.shared.state ≡ false)
    × (u.task 2 ≡ waiting)
    × ¬ ((k : ℕ) × (u.task k ≡ waiting) × (u.shared.flags k ≡ true))
woken_drop_stalls_example =
    woken_drop_stalls woken_state 1 2 (omega arith) woken_state_facts.0 woken_state_facts.1
      woken_state_facts.2 others_calm

-- After the next poll task 1 has the lock.
abbrev taken_state : Tasks
taken_state = acts_end (all_acts true ((1, poll_it) ∷ []) (some woken_state))

taken_state-TaskReach : TaskReach true taken_state
unfolding task_step act_at poll_loop unlock_loop advance first_try next_try should_sleep
    start_unlock pop_sleeper wake_sleeper clear_waiting pop_last remove
taken_state-TaskReach =
    all_acts-TaskReach ((1, poll_it) ∷ []) (some woken_state) _
      (λ t e. subst (TaskReach true) (of_some e) woken_state-TaskReach) refl

taken_state_holder : taken_state.task 1 ≡ holder
unfolding task_step act_at poll_loop unlock_loop advance first_try next_try should_sleep
    start_unlock pop_sleeper wake_sleeper clear_waiting pop_last remove
taken_state_holder = refl

taken_by_one : (◌≡◌ {A = ℕ} 1 1) × (is_locked taken_state.shared.state ≡ true)
taken_by_one = tasks_exclusion taken_state-TaskReach 1 1 taken_state_holder taken_state_holder
