-- ===== src/Handover/MiniLock.antt =====
-- The small lock as a lock of `it_works_threaded`.
use colock.Base.{
  ℕ, ◌≡◌, ◌≢◌, refl, true, false, none, some, arith, List, [], ◌∷◌, not, ap, Option, ◌==◌,
}
use colock.Counter.Locks.{mini_lock, mini_action, mini_others}
use colock.Handover.{
  Where, resting, entering, leaving, owning, WatchedLock, finished, failed, Hand, Go, begin,
  hand_steps,
}
use colock.Handover.Laws.{Watched}
use colock.Handover.Safety.{assertions_hold}
use colock.MiniLock.Thread.{Shared, Pc, idle, owner}
use colock.MiniLock.System
use colock.MiniLock.Schedule.{one_step-Reach}
use colock.MiniLock.Word.{get_flag, get_ptr}
use colock.MiniLock.Exclusion.{has_lock, mini_exclusion}
use colock.MiniLock.Waking.{mini_stack}
use colock.MiniLock.Stack.{is_asleep, Waits}
use colock.MiniLock.Spec.{MiniShows, mini_shows}

abbrev pub place_of : Pc → Where
place_of idle = resting
place_of owner = owning
place_of Pc.unlocking = leaving
place_of Pc.asserting = leaving
place_of Pc.loading = leaving
place_of (Pc.popping head) = leaving
place_of (Pc.releasing sleeper) = leaving
place_of (Pc.waking sleeper) = leaving
place_of p = entering

-- `has_waiter` is `!head.get_ptr().is_null()`.
abbrev pub mini_watched : WatchedLock System.System
mini_watched = record {
  init = System.init;
  step = mini_lock.step;
  place = λ s i. place_of (s.pc i);
  is_locked = λ s. get_flag s.shared.head;
  has_waiter = λ s. not (get_ptr s.shared.head == 0);
}

owning-has_lock : (p : Pc) → place_of p ≡ owning → has_lock p ≡ true
owning-has_lock owner e = refl
owning-has_lock p e = ground arith

resting-has_lock : (p : Pc) → place_of p ≡ resting → has_lock p ≡ false
resting-has_lock idle e = refl
resting-has_lock p e = ground arith

nobody_locked :
    {s : System.System}
    → System.Reach s
    → ((i : ℕ) → place_of (s.pc i) ≡ resting)
    → get_flag s.shared.head ≡ false
nobody_locked {s} r rest = by_owner (mini_shows r)
  where
    by_owner : (o : Option ℕ) × MiniShows s.shared s.pc o → get_flag s.shared.head ≡ false
    by_owner (none, (free, nobody)) = free
    by_owner (some i, (up, has, only)) = cc (has, resting-has_lock (s.pc i) (rest i))

asleep_calls :
    (m : Shared) (pc : ℕ → Pc) (i : ℕ) → is_asleep m pc i ≡ true → place_of (pc i) ≡ entering
asleep_calls m pc i e = ground arith

top-Waits :
    (m : Shared) (pc : ℕ → Pc) (is : List ℕ)
    → Waits m pc is
    → not (get_ptr m.head == 0) ≡ true
    → (i : ℕ) × (place_of (pc i) ≡ entering)
top-Waits m pc [] w has = absurd (ground (arith, w.chain))
top-Waits m pc (i ∷ is) w has = (i, asleep_calls m pc i (ground (arith, w.queued i)))

-- The small lock has the laws of Watched.
pub mini_watched-Watched : Watched mini_watched System.Reach
mini_watched-Watched = record {
  good_init = System.Reach.start;
  good_step = λ i a s t r e. one_step-Reach i (mini_action a) t r e;
  first = λ j. refl;
  others_keep = λ i a s t e j ne. ap place_of (mini_others i (mini_action a) s t e j ne);
  owner_locked =
      λ s r i own. let has = owning-has_lock (s.pc i) own in (mini_exclusion r i i has has).1;
  rest_free = λ s r rest. nobody_locked r rest;
  waiter_calls = λ s r has. let (is, w) = mini_stack r in top-Waits s.shared s.pc is w has;
}

unfoldable pub it_works_threaded_mini : ℕ → List Go → Option (Hand System.System)
it_works_threaded_mini num_iterations gs =
    hand_steps mini_watched gs (some (begin mini_watched num_iterations))

-- The assertions of the test on the lock, but not that on the clock.
pub it_works_threaded_mini_lem :
    (n : ℕ) (gs : List Go) (h : Hand System.System)
    → it_works_threaded_mini n gs ≡ some h
    → (h.tester ≢ failed)
      × (h.holder ≡ finished → h.tester ≡ finished → get_flag h.sys.shared.head ≡ false)
unfolding it_works_threaded_mini
it_works_threaded_mini_lem n gs h e = assertions_hold mini_watched-Watched n gs h e
