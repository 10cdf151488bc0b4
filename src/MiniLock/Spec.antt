-- ===== src/MiniLock/Spec.antt =====
-- The small lock as one lock: free, or held by one of the threads.
use colock.Base.{ℕ, ◌≡◌, ◌⊎◌, refl, true, false, Option, none, some, arith, update}
use colock.LockSpec.{LockStep, Shows, turn-LockStep}
use colock.MiniLock.Word.{get_flag}
use colock.MiniLock.Thread.{
  Pc, Shared, Action, idle, locking, lock, run, advance, lock_first, spin_round, push_or_lock,
  try_round, unlock_first, pop_round,
}
use colock.MiniLock.System.{System, move, Reach, start, later}
use colock.MiniLock.Exclusion.{has_lock, IsSane, Reach-Inv}

-- LOCKED_BIT comes up only for a new holder, and goes down with the old one.
bit_of_holder :
    (m m' : Shared) (i : ℕ) (a : Action) (p p' : Pc)
    → advance i a p m ≡ some (m', p')
    → IsSane p
    → (has_lock p ≡ true → get_flag m.head ≡ true)
    → has_lock p' ≡ false
    → (get_flag m.head ≡ false) ⊎ (has_lock p ≡ true)
    → get_flag m'.head ≡ false
unfolding advance lock_first spin_round push_or_lock try_round unlock_first pop_round
bit_of_holder m m' i lock idle p' h sane held out was = ground arith
bit_of_holder m m' i run locking p' h sane held out was = ground arith
bit_of_holder m m' i a p p' h sane held out was = ground arith

-- What the lock shows: its LOCKED_BIT, and who has it.
abbrev pub MiniShows : Shared → (ℕ → Pc) → Option ℕ → Type 0
MiniShows m pc o = Shows (get_flag m.head) (λ j. has_lock (pc j)) o

-- For any number of threads at a RawMiniLock, a reachable state may show a lock: a free one, if
-- LOCKED_BIT is clear and nobody has the lock, or one of thread i, if LOCKED_BIT is set and i and
-- nobody else has it. From a state that shows one, each step of a thread leads to a state that
-- shows one, and this lock is the same, or free before and now of the thread that moved, or of
-- that thread before and now free.
pub mini_refines_lock :
    {s : System}
    → Reach s
    → (i : ℕ) (a : Action) {m : Shared} {p : Pc} (o : Option ℕ)
    → advance i a (s.pc i) s.shared ≡ some (m, p)
    → MiniShows s.shared s.pc o
    → (o' : Option ℕ) × MiniShows m (update s.pc i p) o' × LockStep i o o'
mini_refines_lock {s} r i a {m} {p} o h shows =
    let old = Reach-Inv r in
    let new = Reach-Inv (later r (move i a h)) in
    turn-LockStep
      (record {
        others = λ j ne. ground arith;
        one = new.one;
        bit_up = new.held;
        bit_down = λ out.
            bit_of_holder s.shared m i a (s.pc i) p h (old.sane i) (old.held i) (ground arith);
      })
      o shows

-- In every such state the small lock shows a lock.
pub mini_shows : {s : System} → Reach s → (o : Option ℕ) × MiniShows s.shared s.pc o
mini_shows start = (none, (refl, λ j. refl))
mini_shows (later {s} r (move i a h)) =
    let (o, shows) = mini_shows r in
    let (o', shows', how) = mini_refines_lock r i a o h shows in (o', shows')
