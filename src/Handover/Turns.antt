-- ===== src/Handover/Turns.antt =====
-- Where a party stands after each of its steps at the raw mutex, when none of them uses `try_lock`.
use colock.Base.{ℕ, ◌≡◌, Bool, true, false, some, arith, ◌<◌}
use colock.Handover.Laws.{enters, leaves}
use colock.Handover.RawMutex.{place_of}
use colock.RawMutex.Thread.{
  try_lock, lock, trying, retrying, Action, Shared, advance, first_try, next_try, enter_queue,
  should_sleep, wake_up, after_park, start_unlock, pop_sleeper, wake_sleeper, clear_waiting,
}
use colock.RawMutex.Mixed.{Place, calling, Move, by_thread, poll_it, go, drop_node, take_queue}
use colock.RawMutex.Mixed.Defs.{IsMixed}
use colock.RawMutex.Mixed.Progress.{own_move}

-- In no call of `try_lock`.
abbrev pub no_try : Place → Bool
no_try (calling (trying try_lock)) = false
no_try (calling (retrying try_lock state)) = false
no_try p = true

-- A future of `lock_async`, or a call of `lock`.
abbrev pub first_of : Bool → Move
first_of true = poll_it
first_of false = by_thread (Action.call lock)

module _ (i : ℕ) (m m' : Shared) where
  pub lock_goes :
      (async : Bool) (p q : Place)
      → go i (first_of async) p m ≡ some (m', q)
      → (no_try p ≡ true → no_try q ≡ true) × (enters (place_of q) ≡ true)
  unfolding go advance first_try
  lock_goes async p q e = ground arith

  pub unlock_goes :
      (p q : Place)
      → go i (by_thread Action.unlock) p m ≡ some (m', q)
      → (no_try q ≡ true) × (leaves (place_of q) ≡ true)
  unfolding go advance start_unlock
  unlock_goes p q e = ground arith

  pub run_goes :
      (p q : Place)
      → IsMixed p
      → no_try p ≡ true
      → m.state < 4
      → go i (own_move p) p m ≡ some (m', q)
      → (no_try q ≡ true)
        × (enters (place_of p) ≡ true → enters (place_of q) ≡ true)
        × (leaves (place_of p) ≡ true → leaves (place_of q) ≡ true)
  unfolding go advance first_try next_try enter_queue should_sleep wake_up after_park pop_sleeper
      wake_sleeper clear_waiting drop_node take_queue
  run_goes (calling p) q usual calls byte e = ground arith
  run_goes p q usual calls byte e = ground arith
