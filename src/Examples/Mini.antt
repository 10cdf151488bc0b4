-- ===== src/Examples/Mini.antt =====
-- Runs of the small lock, and its theorems at the states that they come to.
use colock.Base.{
  arith, ℕ, ◌≡◌, ◌≢◌, refl, true, false, ◌++◌, Option, none, some, List, [], ◌∷◌, subst, of_some,
  update,
}
use colock.MiniLock.Word.{get_flag, get_ptr, address, owner_of}
use colock.MiniLock.Thread.{
  new, Shared, owner, locking, idle, parked, popping, waking, panicked, Action, lock, unlock, run,
  advance, lock_first, spin_round, push_or_lock, unlock_first, pop_round,
}
use colock.MiniLock.System.{System, Step, init, Reach, start}
use colock.MiniLock.Schedule.{one_step, go_on, go_on-Reach}
use colock.MiniLock.Stack.{Waits, is_asleep}
use colock.MiniLock.Waking.{is_active, mini_stack, mini_no_lost_wakeup, mini_node_alive}
use colock.LockSpec.{LockStep}
use colock.MiniLock.Spec.{MiniShows, mini_refines_lock}
use colock.MiniLock.Exclusion.{has_lock, mini_exclusion, mini_no_panic}

abbrev reached : Option System → System
reached none = init
reached (some s) = s

-- Thread 0 has the lock; thread 1 spins six rounds and parks; 0 unlocks, and is about to pop 1.
abbrev contended_run : List (ℕ × Action)
contended_run =
    (0, lock)
    ∷ (0, run)
    ∷ (1, lock)
    ∷ (1, run)
    ∷ (1, run)
    ∷ (1, run)
    ∷ (1, run)
    ∷ (1, run)
    ∷ (1, run)
    ∷ (1, run)
    ∷ (1, run)
    ∷ (1, run)
    ∷ (1, run)
    ∷ (0, unlock)
    ∷ (0, run)
    ∷ (0, run)
    ∷ (0, run)
    ∷ []

abbrev popped_state : System
popped_state = reached (go_on (contended_run ++ (0, run) ∷ []) (some init))

abbrev popping_state : System
popping_state = reached (go_on contended_run (some init))

-- It has unlocked, and wakes 1 next.
abbrev waking_state : System
waking_state = reached (go_on (contended_run ++ (0, run) ∷ (0, run) ∷ []) (some init))

from_init : (s : System) → some init ≡ some s → Reach s
from_init s e = subst Reach (of_some e) start

popping_state-Reach : Reach popping_state
unfolding one_step advance lock_first spin_round push_or_lock unlock_first pop_round
popping_state-Reach = go_on-Reach contended_run (some init) _ from_init refl

waking_state-Reach : Reach waking_state
unfolding one_step advance lock_first spin_round push_or_lock unlock_first pop_round
waking_state-Reach =
    go_on-Reach (contended_run ++ (0, run) ∷ (0, run) ∷ []) (some init) _ from_init refl

waking_state_facts :
    (waking_state.pc 0 ≡ waking 1)
    × (get_flag waking_state.shared.head ≡ false)
    × (is_asleep waking_state.shared waking_state.pc 1 ≡ true)
unfolding one_step advance lock_first spin_round push_or_lock unlock_first pop_round
waking_state_facts = (refl, refl, refl)

-- The word 5 is the node of thread 1, with LOCKED_BIT.
popping_state_word : popping_state.pc 0 ≡ popping 5
unfolding one_step advance lock_first spin_round push_or_lock unlock_first pop_round
popping_state_word = refl

popped_state-Reach : Reach popped_state
unfolding one_step advance lock_first spin_round push_or_lock unlock_first pop_round
popped_state-Reach = go_on-Reach (contended_run ++ (0, run) ∷ []) (some init) _ from_init refl

popped_state_head : popped_state.shared.head ≡ 1
unfolding one_step advance lock_first spin_round push_or_lock unlock_first pop_round
popped_state_head = refl

popped_state_owner : has_lock (popped_state.pc 0) ≡ true
unfolding one_step advance lock_first spin_round push_or_lock unlock_first pop_round
popped_state_owner = refl

mini_exclusion_example : (◌≡◌ {A = ℕ} 0 0) × (get_flag popped_state.shared.head ≡ true)
mini_exclusion_example = mini_exclusion popped_state-Reach 0 0 popped_state_owner popped_state_owner

popped_without_panic : popped_state.pc 1 ≢ panicked
popped_without_panic = mini_no_panic popped_state-Reach 1

mini_stack_example : (is : List ℕ) × Waits popped_state.shared popped_state.pc is
mini_stack_example = mini_stack popped_state-Reach

mini_no_lost_wakeup_example : (j : ℕ) × (is_active waking_state.shared waking_state.pc j ≡ true)
mini_no_lost_wakeup_example =
    mini_no_lost_wakeup waking_state-Reach waking_state_facts.1 1 waking_state_facts.2

mini_node_alive_example :
    (popping_state.pc (owner_of 5) ≡ parked)
    × (popping_state.shared.flags (owner_of 5) ≡ false)
    × (get_ptr 5 ≡ address (owner_of 5))
mini_node_alive_example = mini_node_alive popping_state-Reach 0 5 popping_state_word (omega arith)

-- Thread 0 alone, at its first access, takes the lock.
abbrev at_first : System
at_first = record { shared = new; pc = update (λ _. idle) 0 locking }

at_first-Reach : Reach at_first
unfolding advance
at_first-Reach = Reach.later Reach.start (Step.move 0 lock refl)

abbrev held_first : Shared
held_first = record new { head = 1 }

takes_mini : advance 0 run (at_first.pc 0) at_first.shared ≡ some (held_first, owner)
unfolding advance lock_first
takes_mini = refl

mini_refines_lock_example :
    (o' : Option ℕ) × MiniShows held_first (update at_first.pc 0 owner) o' × LockStep 0 none o'
mini_refines_lock_example =
    mini_refines_lock at_first-Reach 0 run none takes_mini (refl, λ j. ground arith)
