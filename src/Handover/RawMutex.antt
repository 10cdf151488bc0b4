-- ===== src/Handover/RawMutex.antt =====
-- The raw mutex as a lock of `it_works_threaded` and `it_works_threaded_async`.
use colock.Base.{
  ℕ, ◌≡◌, ◌≢◌, refl, Bool, true, false, none, some, arith, mem, List, [], ◌∷◌, ap, Option,
}
use colock.Counter.Exclusive.{Ask}
use colock.Counter.Async.{mixed_step-others}
use colock.Handover.{
  Where, resting, entering, leaving, owning, WatchedLock, finished, failed, Hand, Go, begin,
  hand_steps,
}
use colock.Handover.Laws.{Watched}
use colock.Handover.Safety.{assertions_hold}
use colock.RawMutex.Thread.{Pc, lock, Action, idle, owner}
use colock.RawMutex.Flags.{is_locked}
use colock.RawMutex.System.{plain}
use colock.RawMutex.Mixed
use colock.RawMutex.Mixed.{Place, Move, by_thread, poll_it, init, MixedReach}
use colock.RawMutex.Mixed.Defs.{can_queue}
use colock.RawMutex.Mixed.Exclusion.{has_lock, MixedReach-Held}
use colock.RawMutex.Mixed.Progress.{own_move}
use colock.RawMutex.Mixed.Safety
use colock.RawMutex.Mixed.Schedule.{mixed_step, mixed_step-MixedReach}
use colock.RawMutex.Mixed.Spec.{mixed_shows}

-- `finished` is a poll that has returned, with the future not yet dropped.
abbrev pub place_of : Place → Where
place_of (Place.calling idle) = resting
place_of (Place.calling owner) = owning
place_of (Place.calling Pc.popping) = leaving
place_of (Place.calling (Pc.waking sleeper last)) = leaving
place_of (Place.calling Pc.clearing) = leaving
place_of p = entering

abbrev pub some_queued : List ℕ → Bool
some_queued [] = false
some_queued (i ∷ is) = true

-- How a party takes the lock: by a call of `lock`, or by a first poll of `lock_async`.
abbrev pub first_move : Move → Ask → Place → Move
first_move v Ask.lock p = v
first_move v Ask.run p = own_move p
first_move v Ask.unlock p = by_thread Action.unlock

-- `has_waiter` is `mutex.queue.count() != 0`.
abbrev pub mutex_watched : (ℕ → Move) → WatchedLock Mixed.Mixed
mutex_watched first = record {
  init = init;
  step = λ i a s. mixed_step plain false i (first_move (first i) a (s.place i)) s;
  place = λ s i. place_of (s.place i);
  is_locked = λ s. is_locked s.shared.state;
  has_waiter = λ s. some_queued s.shared.queue;
}

pub owning-has_lock : (p : Place) → place_of p ≡ owning → has_lock p ≡ true
owning-has_lock (Place.calling owner) e = refl
owning-has_lock p e = ground arith

resting-has_lock : (p : Place) → place_of p ≡ resting → has_lock p ≡ false
resting-has_lock (Place.calling idle) e = refl
resting-has_lock p e = ground arith

queued_calls : (p : Place) (flag : Bool) → can_queue p flag ≡ true → place_of p ≡ entering
queued_calls p flag e = ground arith

nobody_locked :
    {s : Mixed.Mixed}
    → MixedReach plain false s
    → ((i : ℕ) → place_of (s.place i) ≡ resting)
    → is_locked s.shared.state ≡ false
nobody_locked {s} r rest = by_owner (mixed_shows refl r)
  where
    by_owner :
        (o : Option ℕ) × Mixed.Spec.MutexShows s.shared s.place o → is_locked s.shared.state ≡ false
    by_owner (none, (free, nobody)) = free
    by_owner (some i, (up, has, only)) = cc (has, resting-has_lock (s.place i) (rest i))

head_queued : (is : List ℕ) → some_queued is ≡ true → (i : ℕ) × (mem i is ≡ true)
head_queued [] e = cc
head_queued (i ∷ is) e = (i, ground arith)

-- The raw mutex, by calls or by futures, has the laws of Watched.
pub mutex_watched-Watched :
    (first : ℕ → Move) → Watched (mutex_watched first) (MixedReach plain false)
mutex_watched-Watched first = record {
  good_init = MixedReach.start;
  good_step = λ i a s t r e. mixed_step-MixedReach i (first_move (first i) a (s.place i)) t r e;
  first = λ j. refl;
  others_keep = λ i a s t e j ne.
      ap place_of (mixed_step-others i (first_move (first i) a (s.place i)) s t e j ne);
  owner_locked = λ s r i own. (MixedReach-Held refl r).held i (owning-has_lock (s.place i) own);
  rest_free = λ s r rest. nobody_locked r rest;
  waiter_calls = λ s r has.
      let (i, there) = head_queued s.shared.queue has in
      (i, queued_calls (s.place i) (s.shared.flags i) ((Safety.MixedReach-Inv r).0.queued i there));
}

-- The two threads call `lock`.
abbrev pub by_calls : WatchedLock Mixed.Mixed
by_calls = mutex_watched (λ i. by_thread (Action.call lock))

-- The two tasks await `lock_async`.
abbrev pub by_futures : WatchedLock Mixed.Mixed
by_futures = mutex_watched (λ i. poll_it)

-- `gs` says which of the two goes on when, and how.
unfoldable pub it_works_threaded : ℕ → List Go → Option (Hand Mixed.Mixed)
it_works_threaded num_iterations gs = hand_steps by_calls gs (some (begin by_calls num_iterations))

unfoldable pub it_works_threaded_async : ℕ → List Go → Option (Hand Mixed.Mixed)
it_works_threaded_async num_iterations gs =
    hand_steps by_futures gs (some (begin by_futures num_iterations))

-- What the test asserts: the mutex is locked at each look of the tester, and free in the end.
abbrev pub Passes : Hand Mixed.Mixed → Type 0
Passes h =
    (h.tester ≢ failed)
    × (h.holder ≡ finished → h.tester ≡ finished → is_locked h.sys.shared.state ≡ false)

pub it_works_threaded_lem :
    (n : ℕ) (gs : List Go) (h : Hand Mixed.Mixed) → it_works_threaded n gs ≡ some h → Passes h
unfolding it_works_threaded
it_works_threaded_lem n gs h e = assertions_hold (mutex_watched-Watched _) n gs h e

pub it_works_threaded_async_lem :
    (n : ℕ) (gs : List Go) (h : Hand Mixed.Mixed) → it_works_threaded_async n gs ≡ some h → Passes h
unfolding it_works_threaded_async
it_works_threaded_async_lem n gs h e = assertions_hold (mutex_watched-Watched _) n gs h e
