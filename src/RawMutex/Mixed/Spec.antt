-- ===== src/RawMutex/Mixed/Spec.antt =====
-- The mutex as one lock: free, or held by one of the threads and tasks.
use colock.Base.{ℕ, ◌<◌, ◌⊎◌, ◌≡◌, refl, true, false, Option, none, some, arith, update, Bool}
use colock.RawMutex.Flags.{is_locked}
use colock.LockSpec.{LockStep, Shows, turn-LockStep}
use colock.RawMutex.Thread.{
  Shared, Action, advance, first_try, next_try, enter_queue, should_sleep, wake_up, after_park,
  start_unlock, pop_sleeper, wake_sleeper, clear_waiting, give_up,
}
use colock.RawMutex.System.{Usage, allows}
use colock.RawMutex.Timed.{IsTimed, unfair, allowed_unfair}
use colock.RawMutex.Mixed.{
  Place, calling, polling, Move, by_thread, run_it, drop_node, take_queue, go, Mixed, lets, act,
  MixedReach, start, later,
}
use colock.RawMutex.Mixed.Exclusion.{as_thread, has_lock, MixedReach-Held}

module _ (m m' : Shared) (i : ℕ) (byte : m.state < 4) where
  -- LOCKED_BIT comes up only for a new holder, and goes down with the old one.
  bit_of_holder :
      (v : Move) (p q : Place)
      → ((a : Action) → v ≡ by_thread a → allows unfair a ≡ true)
      → IsTimed (as_thread p)
      → go i v p m ≡ some (m', q)
      → has_lock q ≡ false
      → (is_locked m.state ≡ false) ⊎ (has_lock p ≡ true)
      → is_locked m'.state ≡ false
  unfolding go advance first_try next_try enter_queue should_sleep wake_up after_park start_unlock
      pop_sleeper wake_sleeper clear_waiting give_up drop_node take_queue
  bit_of_holder (by_thread a) (calling p) q al usual h out was = ground (arith, al a refl)
  bit_of_holder run_it (polling p) q al usual h out was = ground arith
  bit_of_holder v p q al usual h out was = ground arith

-- What the mutex shows: its LOCKED_BIT, and who has it.
abbrev pub MutexShows : Shared → (ℕ → Place) → Option ℕ → Type 0
MutexShows m place o = Shows (is_locked m.state) (λ j. has_lock (place j)) o

module _ {u : Usage} {drops : Bool} (no_fair : u.fairness ≡ false) where
  -- For any number of threads and tasks at one mutex without unlock_fair, a reachable state may
  -- show a lock: a free one, if LOCKED_BIT is clear and nobody has the lock, or one of party i,
  -- if LOCKED_BIT is set and i and nobody else has it. From a state that shows one, each step of
  -- a party leads to a state that shows one, and this lock is the same, or free before and now of
  -- the party that moved, or of that party before and now free.
  pub mixed_refines_lock :
      {s : Mixed}
      → MixedReach u drops s
      → (i : ℕ) (v : Move) {m : Shared} {p : Place} (o : Option ℕ) → lets u drops v ≡ true
      → go i v (s.place i) s.shared ≡ some (m, p)
      → MutexShows s.shared s.place o
      → (o' : Option ℕ) × MutexShows m (update s.place i p) o' × LockStep i o o'
  mixed_refines_lock {s} r i v {m} {p} o al h shows =
      let old = MixedReach-Held no_fair r in
      let new = MixedReach-Held no_fair (later r (act i v al h)) in
      turn-LockStep
        (record {
          others = λ j ne. ground arith;
          one = new.one_owner;
          bit_up = new.held;
          bit_down = λ out.
              bit_of_holder s.shared m i old.byte v (s.place i) p
                (λ a e. allowed_unfair u a no_fair (rw e at al)) (old.places i) h (ground arith);
        })
        o shows

  -- In every such state the mutex shows a lock.
  pub mixed_shows :
      {s : Mixed} → MixedReach u drops s → (o : Option ℕ) × MutexShows s.shared s.place o
  mixed_shows start = (none, (refl, λ j. refl))
  mixed_shows (later {s} r (act i v al h)) =
      let (o, shows) = mixed_shows r in
      let (o', shows', how) = mixed_refines_lock r i v o al h shows in (o', shows')
