-- ===== src/Examples/Mutex.antt =====
-- Runs of the mutex, and its theorems at the states that they come to.
use colock.Base.{ℕ, ◌≡◌, refl, true, false, Option, none, some, List, [], ◌∷◌, ◌++◌, arith}
use colock.RawMutex.Flags.{is_locked}
use colock.RawMutex.Thread.{
  Call, lock, timed_lock, idle, owner, waking, panicked, Action, call, unlock, unlock_fair, expire,
  run, advance, first_try, next_try, enter_queue, should_sleep, wake_up, start_unlock,
  start_unlock_fair, give_up, pop_sleeper, wake_sleeper, mark_fair,
}
use colock.RawMutex.Queue.{pop_last, remove}
use colock.RawMutex.System.{System, init, plain, Usage, Reach, start}
use colock.RawMutex.Schedule.{run_all, run_all-Reach, step_of}
use colock.RawMutex.Plain.Defs.{is_asleep, is_active, is_parked}
use colock.RawMutex.Plain.Safety.{mutual_exclusion, no_lost_wakeup, waker_alive}
use colock.RawMutex.Poller.{poll, poll_loop, pending, unshared, PollOutcome, poll-PollOutcome}
use colock.RawMutex.Timed.{unfair, timed_exclusion}
use colock.RawMutex.Hazards.{fair_bit_taken_twice, timeout_leaves_waker, fair_bit_fails_assert}

abbrev result : Option System → System
result none = init
result (some s) = s

abbrev everything : Usage
everything = record { timeouts = true; fairness = true }

abbrev Sched : Type 0
Sched = List (ℕ × Action)

-- Thread `i` finds the lock free; finds it taken with no sleeper; with a sleeper.
abbrev takes : ℕ → Call → Sched
takes i c = (i, call c) ∷ (i, run) ∷ []

abbrev sleeps_first : ℕ → Call → Sched
sleeps_first i c =
    (i, call c) ∷ (i, run) ∷ (i, run) ∷ (i, run) ∷ (i, run) ∷ (i, run) ∷ (i, run) ∷ (i, run) ∷ []

abbrev sleeps_next : ℕ → Call → Sched
sleeps_next i c = (i, call c) ∷ (i, run) ∷ (i, run) ∷ (i, run) ∷ (i, run) ∷ (i, run) ∷ []

-- Thread 0 has the lock, 1 and 2 sleep, and 0 starts to unlock.
abbrev unlocking : Sched
unlocking = takes 0 lock ++ (sleeps_first 1 lock ++ (sleeps_next 2 lock ++ (0, unlock) ∷ []))

abbrev free_state : System
free_state = result (run_all unlocking init)

abbrev waking_state : System
waking_state = result (run_all (unlocking ++ (0, run) ∷ []) init)

free_state-Reach : Reach plain free_state
unfolding run_all step_of advance first_try next_try enter_queue should_sleep start_unlock
free_state-Reach = run_all-Reach unlocking init _ start refl refl

waking_state-Reach : Reach plain waking_state
unfolding run_all step_of advance first_try next_try enter_queue should_sleep start_unlock
    pop_sleeper pop_last
waking_state-Reach = run_all-Reach (unlocking ++ (0, run) ∷ []) init _ start refl refl

abbrev owned_state : System
owned_state = result (run_all (takes 0 lock) init)

owned_state-Reach : Reach plain owned_state
unfolding run_all step_of advance first_try
owned_state-Reach = run_all-Reach (takes 0 lock) init _ start refl refl

owned_by_0 : owned_state.pc 0 ≡ owner
unfolding run_all step_of advance first_try
owned_by_0 = refl

owned_once : ◌≡◌ {A = ℕ} 0 0
owned_once = mutual_exclusion owned_state-Reach 0 0 owned_by_0 owned_by_0

free : is_locked free_state.shared.state ≡ false
unfolding run_all step_of advance first_try next_try enter_queue should_sleep start_unlock
free = refl

asleep_1 : is_asleep free_state.shared free_state.pc 1 ≡ true
unfolding run_all step_of advance first_try next_try enter_queue should_sleep start_unlock
asleep_1 = refl

somebody_on_the_way : (j : ℕ) × (is_active free_state.shared free_state.pc j ≡ true)
somebody_on_the_way = no_lost_wakeup free_state-Reach free 1 asleep_1

wakes_1 : waking_state.pc 0 ≡ waking 1 false
unfolding run_all step_of advance first_try next_try enter_queue should_sleep start_unlock
    pop_sleeper pop_last
wakes_1 = refl

waker_alive_example : (is_parked (waking_state.pc 1) ≡ true) × (waking_state.shared.flags 1 ≡ false)
waker_alive_example = waker_alive waking_state-Reach 0 1 false wakes_1

-- 0 unlocks and wakes 1; 3 takes the lock and hands it over to 2; 1 and 2 come out of `park`.
abbrev handing_over : Sched
handing_over =
    unlocking
    ++ ((0, run) ∷ (0, run) ∷ [])
    ++ ((3, call lock) ∷ (3, run) ∷ (3, run) ∷ [])
    ++ ((3, unlock_fair) ∷ (3, run) ∷ (3, run) ∷ (3, run) ∷ (1, run) ∷ (2, run) ∷ [])

abbrev handed_state : System
handed_state = result (run_all handing_over init)

handed_state-Reach : Reach everything handed_state
unfolding run_all step_of advance first_try next_try enter_queue should_sleep start_unlock
    pop_sleeper wake_sleeper start_unlock_fair mark_fair wake_up pop_last
handed_state-Reach = run_all-Reach handing_over init _ start refl refl

fair_bit_taken_twice_example :
    (t : System) × (run_all ((1, run) ∷ (2, run) ∷ (1, run) ∷ (2, run) ∷ []) handed_state ≡ some t)
    × (t.pc 1 ≡ owner)
    × (t.pc 2 ≡ owner)
unfolding run_all step_of advance first_try next_try enter_queue should_sleep start_unlock
    pop_sleeper wake_sleeper start_unlock_fair mark_fair wake_up pop_last
fair_bit_taken_twice_example =
    fair_bit_taken_twice handed_state 1 2 (omega arith) lock lock refl refl refl

-- 1 sleeps with a time limit, and 0 has just popped its node.
abbrev timing : Sched
timing = takes 0 lock ++ sleeps_first 1 timed_lock ++ ((0, unlock) ∷ (0, run) ∷ [])

abbrev timed_state : System
timed_state = result (run_all timing init)

timed_state-Reach : Reach everything timed_state
unfolding run_all step_of advance first_try next_try enter_queue should_sleep start_unlock
    pop_sleeper wake_sleeper start_unlock_fair mark_fair wake_up pop_last
timed_state-Reach = run_all-Reach timing init _ start refl refl

timeout_leaves_waker_example :
    (t : System) × (run_all ((1, expire) ∷ (1, run) ∷ []) timed_state ≡ some t)
    × (t.pc 0 ≡ waking 1 true)
    × (t.pc 1 ≡ idle)
unfolding run_all step_of advance first_try next_try enter_queue should_sleep start_unlock
    pop_sleeper wake_sleeper start_unlock_fair mark_fair wake_up pop_last
timeout_leaves_waker_example =
    timeout_leaves_waker timed_state 0 1 (omega arith) true refl refl refl

-- 0 hands the lock over to 1, which has not run yet, and 4 calls `lock`.
abbrev asserting : Sched
asserting =
    takes 0 lock
    ++ sleeps_first 1 lock
    ++ ((0, unlock_fair) ∷ (0, run) ∷ (0, run) ∷ (0, run) ∷ (4, call lock) ∷ [])

abbrev fair_state : System
fair_state = result (run_all asserting init)

fair_state-Reach : Reach everything fair_state
unfolding run_all step_of advance first_try next_try enter_queue should_sleep start_unlock
    pop_sleeper wake_sleeper start_unlock_fair mark_fair wake_up pop_last
fair_state-Reach = run_all-Reach asserting init _ start refl refl

fair_bit_fails_assert_example :
    (t : System) × (run_all ((4, run) ∷ (4, run) ∷ (4, run) ∷ (4, run) ∷ (4, run) ∷ []) fair_state
      ≡ some t)
    × (t.pc 4 ≡ panicked)
unfolding run_all step_of advance first_try next_try enter_queue should_sleep start_unlock
    pop_sleeper wake_sleeper start_unlock_fair mark_fair wake_up pop_last
fair_bit_fails_assert_example = fair_bit_fails_assert fair_state 4 refl refl refl refl

poll-PollOutcome_example : PollOutcome 1 (unshared 5 (2 ∷ 1 ∷ []) (λ _. false))
poll-PollOutcome_example = poll-PollOutcome 1 5 (2 ∷ 1 ∷ []) (λ _. false) (omega arith)

-- A task that waits for a held lock is queued, and once more after a poll that comes too early.
two_polls :
    (poll 1 (unshared 1 (2 ∷ []) (λ _. false))
      ≡ some (pending, unshared 3 (1 ∷ 2 ∷ []) (λ _. false)))
    × (poll 1 (unshared 3 (2 ∷ 1 ∷ []) (λ _. false))
        ≡ some (pending, unshared 3 (1 ∷ 2 ∷ []) (λ _. false)))
unfolding poll_loop advance first_try next_try should_sleep remove
two_polls = (refl, refl)

-- Thread 0 has the lock, and the time of thread 1 has run out.
abbrev given_up : Sched
given_up = takes 0 lock ++ (sleeps_first 1 timed_lock ++ (1, expire) ∷ (1, run) ∷ [])

abbrev given_up_state : System
given_up_state = result (run_all given_up init)

given_up_state-Reach : Reach unfair given_up_state
unfolding run_all step_of advance first_try next_try enter_queue should_sleep give_up remove
given_up_state-Reach = run_all-Reach given_up init _ start refl refl

given_up_owner : given_up_state.pc 0 ≡ owner
unfolding run_all step_of advance first_try next_try enter_queue should_sleep give_up remove
given_up_owner = refl

given_up_by_one : (◌≡◌ {A = ℕ} 0 0) × (is_locked given_up_state.shared.state ≡ true)
given_up_by_one = timed_exclusion refl given_up_state-Reach 0 0 given_up_owner given_up_owner
