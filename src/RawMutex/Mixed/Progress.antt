-- ===== src/RawMutex/Mixed/Progress.antt =====
-- While the lock is free and one sleeps, some thread or task can take a step of its own.
use colock.Base.{ℕ, ◌≡◌, refl, Bool, true, false, Option, none, some, arith, inl}
use colock.RawMutex.Flags.{is_locked}
use colock.RawMutex.Thread.{
  Shared, run, is_free, advance, first_try, next_try, enter_queue, should_sleep, wake_up,
  after_park, pop_sleeper, wake_sleeper, clear_waiting,
}
use colock.RawMutex.System.{plain}
use colock.RawMutex.Plain.Defs.{in_queue}
use colock.RawMutex.Mixed.{
  Place, calling, pending, Move, by_thread, poll_it, run_it, After, drop_node, take_queue, go,
  Mixed, MixedReach,
}
use colock.RawMutex.Mixed.Exclusion.{as_thread}
use colock.RawMutex.Mixed.Defs.{IsMixed, MixedInv, is_asleep, on_way, can_wake, is_active}
use colock.RawMutex.Mixed.Safety.{MixedReach-Inv}

-- The step that comes next without another choice of the client.
abbrev pub own_move : Place → Move
own_move (calling p) = by_thread run
own_move pending = poll_it
own_move p = run_it

-- An executor polls a task again when its waker was called.
abbrev pub is_due : Place → Bool → Bool
is_due pending flag = flag
is_due p flag = true

abbrev pub succeeds : After → Bool
succeeds none = false
succeeds (some _) = true

abbrev pub CanGo : Shared → (ℕ → Place) → ℕ → Type 0
CanGo m place j =
    (is_due (place j) (m.flags j) ≡ true)
    × (succeeds (go j (own_move (place j)) (place j) m) ≡ true)

module _ (m : Shared) (j : ℕ) where
  -- Who has the queue's lock never waits.
  pub inside_goes :
      (p : Place)
      → IsMixed p
      → in_queue (as_thread p) ≡ true
      → (is_due p (m.flags j) ≡ true) × (succeeds (go j (own_move p) p m) ≡ true)
  unfolding go advance should_sleep wake_sleeper clear_waiting
  inside_goes p usual inside = ground arith

  -- With that lock free, who is on its way does not wait.
  on_way_goes :
      (p : Place)
      → IsMixed p
      → (of_use : ℕ → Bool) → on_way p (m.flags j) of_use ≡ true
      → is_free m.queue_lock ≡ true
      → (is_due p (m.flags j) ≡ true) × (succeeds (go j (own_move p) p m) ≡ true)
  unfolding go advance first_try next_try enter_queue should_sleep wake_up after_park pop_sleeper
      wake_sleeper clear_waiting drop_node take_queue
  on_way_goes p usual of_use on free = ground arith

some-CanGo :
    (s : Mixed)
    → MixedInv s.shared s.place
    → (j : ℕ) × (is_active s.shared s.place j ≡ true)
    → (k : ℕ) × CanGo s.shared s.place k
some-CanGo s inv (j, on) = by_lock s.shared.queue_lock refl
  where
    by_lock : (l : Option ℕ) → s.shared.queue_lock ≡ l → (k : ℕ) × CanGo s.shared s.place k
    by_lock (some k) e = (k, inside_goes s.shared k (s.place k) (inv.places k) (inv.holder k e))
    by_lock none e = (
      j,
      on_way_goes s.shared j (s.place j) (inv.places j) (λ w. can_wake (s.place w)) on (rw e refl),
    )

-- In every state that any number of threads and tasks come to by lock, try_lock, unlock and polls
-- of lock_async futures, without time limits, fair unlocking or dropped pending futures, if the
-- lock is free and a thread sleeps unwoken or a task is pending with its waker not called, then
-- some thread or task is on its way to try for the lock or to wake one that will, and some thread
-- or task can take a step without a further choice of a client, where an executor polls a pending
-- task again only if its waker was called.
pub mixed_progress :
    {s : Mixed}
    → MixedReach plain false s
    → is_locked s.shared.state ≡ false
    → (i : ℕ) → is_asleep s.shared s.place i ≡ true
    → ((j : ℕ) × (is_active s.shared s.place j ≡ true)) × ((k : ℕ) × CanGo s.shared s.place k)
mixed_progress {s} r free i asleep =
    let inv = MixedReach-Inv r in
    let someone = inv.1 free i (inl asleep) in (someone, some-CanGo s inv.0 someone)
