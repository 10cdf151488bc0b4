-- ===== src/Handover.antt =====
-- The test `it_works_threaded` of colock/src/mutex/raw_mutex.rs, colock/src/mutex/mod.rs and
-- mini_lock/src/lib.rs: two threads that meet at a barrier hand a lock to each other, over any lock
-- of Counter with the readings that the test makes. `std::sync::Barrier::wait` of a barrier for two
-- returns to both once both have called it.
use colock.Base.{ℕ, ◌-◌, Bool, true, false, Option, none, some, List, [], ◌∷◌, if◌then◌else◌, ◌==◌}
use colock.Counter.Exclusive.{Ask}
pub mod Laws
pub mod Handed
pub mod Nexts
pub mod Safety
pub mod Paired
pub mod Steps
pub mod Progress
pub mod RawMutex
pub mod Turns
pub mod Someone
pub mod Due
pub mod MiniLock

-- Outside any call, in `lock` or `lock_async`, in `unlock`, or with the lock.
pub data Where : Type 0 where
  resting entering leaving owning : Where

pub record WatchedLock (S : Type 0) : Type 0 where
  pub init : S
  pub step : ℕ → Ask → S → Option S
  pub place : S → ℕ → Where
  pub is_locked : S → Bool
  pub has_waiter : S → Bool

-- Where a thread is in its loop. `first_wait` and `last_wait` are its two calls of `wait`.
pub data Stage : Type 0 where
  starting taking first_wait watching asserting releasing last_wait finished failed : Stage

-- Thread 0 is the spawned one, the holder; thread 1 is the tester. Each has iterations left, with
-- the one that it is in.
pub record Hand (S : Type 0) : Type 0 where
  pub sys : S
  pub holder : Stage
  pub tester : Stage
  pub holder_left : ℕ
  pub tester_left : ℕ

pub data Go : Type 0 where
  holder_works holder_goes tester_works tester_goes both_meet : Go

module _ {S : Type 0} (lock : WatchedLock S) where
  abbrev pub begin : (num_iterations : ℕ) → Hand S
  begin n = record {
    sys = lock.init;
    holder = starting;
    tester = starting;
    holder_left = n;
    tester_left = n;
  }

  abbrev pub holder_at : Option S → Stage → Hand S → Option (Hand S)
  holder_at none p h = none
  holder_at (some s) p h = some (record h { sys = s; holder = p })

  abbrev pub tester_at : Option S → Stage → Hand S → Option (Hand S)
  tester_at none p h = none
  tester_at (some s) p h = some (record h { sys = s; tester = p })

  abbrev pub returned : Where → Option S → Option S
  returned owning s = s
  returned _ s = none

  abbrev pub at_rest : Where → Option S → Option S
  at_rest resting s = s
  at_rest _ s = none

  -- The holder goes on in its loop: from a call that has returned, or from a look at the queue.
  unfoldable pub holder_next : Stage → Hand S → Option (Hand S)
  holder_next starting h =
      if h.holder_left == 0
      then some (record h { holder = finished })
      else holder_at (lock.step 0 Ask.lock h.sys) taking h
  holder_next taking h = holder_at (returned (lock.place h.sys 0) (some h.sys)) first_wait h
  holder_next watching h =
      if lock.has_waiter h.sys then holder_at (lock.step 0 Ask.unlock h.sys) releasing h else some h
  holder_next releasing h = holder_at (at_rest (lock.place h.sys 0) (some h.sys)) last_wait h
  holder_next _ h = none

  unfoldable pub tester_next : Stage → Hand S → Option (Hand S)
  tester_next starting h =
      if h.tester_left == 0
      then some (record h { tester = finished })
      else some (record h { tester = first_wait })
  tester_next asserting h =
      if lock.is_locked h.sys
      then tester_at (lock.step 1 Ask.lock h.sys) taking h
      else some (record h { tester = failed })
  tester_next taking h =
      tester_at (returned (lock.place h.sys 1) (lock.step 1 Ask.unlock h.sys)) releasing h
  tester_next releasing h = tester_at (at_rest (lock.place h.sys 1) (some h.sys)) last_wait h
  tester_next _ h = none

  -- A thread in a call of the lock takes a step of it.
  unfoldable pub works : ℕ → Stage → S → Option S
  works i taking s = lock.step i Ask.run s
  works i releasing s = lock.step i Ask.run s
  works i _ s = none

  abbrev pub holder_met : Stage → Hand S → Option (Hand S)
  holder_met first_wait h = some (record h { holder = watching })
  holder_met last_wait h = some (record h { holder = starting; holder_left = h.holder_left - 1 })
  holder_met _ h = none

  abbrev pub tester_met : Stage → Option (Hand S) → Option (Hand S)
  tester_met first_wait (some h) = some (record h { tester = asserting })
  tester_met last_wait (some h) =
      some (record h { tester = starting; tester_left = h.tester_left - 1 })
  tester_met _ h = none

  unfoldable pub hand_step : Go → Hand S → Option (Hand S)
  hand_step holder_works h = holder_at (works 0 h.holder h.sys) h.holder h
  hand_step holder_goes h = holder_next h.holder h
  hand_step tester_works h = tester_at (works 1 h.tester h.sys) h.tester h
  hand_step tester_goes h = tester_next h.tester h
  hand_step both_meet h = tester_met h.tester (holder_met h.holder h)

  abbrev pub hand_steps : List Go → Option (Hand S) → Option (Hand S)
  hand_steps _ none = none
  hand_steps [] (some h) = some h
  hand_steps (g ∷ gs) (some h) = hand_steps gs (hand_step g h)
