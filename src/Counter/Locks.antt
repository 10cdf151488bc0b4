-- ===== src/Counter/Locks.antt =====
-- The raw mutex without time limits and fair unlocking, and the small lock, as exclusive locks.
use colock.Base.{
  ℕ, List, Option, ◌*◌, ◌<◌, ◌≡◌, ◌≢◌, refl, Bool, true, false, none, some, arith, ap, of_some,
}
use colock.Counter.Exclusive.{Ask, SharedLock, IsExclusive}
use colock.Counter.Client.{Client, Move, start, move_all}
use colock.Counter.Sum.{lots_and_lots}
use colock.RawMutex.Thread
use colock.RawMutex.System
use colock.RawMutex.Schedule
use colock.RawMutex.Plain.Defs
use colock.RawMutex.Plain.Safety.{mutual_exclusion}
use colock.MiniLock.Thread as Mini
use colock.MiniLock.System as MiniSystem
use colock.MiniLock.Schedule as MiniSchedule
use colock.MiniLock.Exclusion.{has_lock, mini_exclusion}

abbrev raw_action : Ask → Thread.Action
raw_action Ask.lock = Thread.Action.call Thread.Call.lock
raw_action Ask.unlock = Thread.Action.unlock
raw_action Ask.run = Thread.Action.run

abbrev pub raw_lock : SharedLock System.System
raw_lock = record {
  init = System.init;
  step = λ i a s. Schedule.step_of i (raw_action a) s;
  owns = λ s i. Defs.is_owner (s.pc i);
}

-- A step of thread `i` leaves the places of the others.
raw_others :
    (i : ℕ) (a : Thread.Action) (s t : System.System)
    → Schedule.step_of i a s ≡ some t
    → (j : ℕ) → j ≢ i
    → t.pc j ≡ s.pc j
unfolding Schedule.step_of
raw_others i a s t e j ne = by_next (Thread.advance i a (s.pc i) s.shared) e
  where
    by_next : (n : Thread.Next) → Schedule.moves_to s i n ≡ some t → t.pc j ≡ s.pc j
    by_next none e' = cc
    by_next (some (m, p)) e' = ground (arith, ap (λ r. r.pc j) (of_some e'))

-- Its owner has no step but those of a call.
raw_owner_waits :
    (i : ℕ) (s t : System.System)
    → Schedule.step_of i Thread.Action.run s ≡ some t
    → (p : Thread.Pc) → s.pc i ≡ p
    → Defs.is_owner p ≡ true
    → ⊥
unfolding Schedule.step_of Thread.advance
raw_owner_waits i s t e Thread.Pc.owner h o = cc (rw h at e)
raw_owner_waits i s t e p h o = ground arith

raw_owner : (p : Thread.Pc) → Defs.is_owner p ≡ true → p ≡ Thread.Pc.owner
raw_owner Thread.Pc.owner h = refl
raw_owner p h = ground arith

raw_plain : (a : Ask) → System.allows System.plain (raw_action a) ≡ true
raw_plain Ask.lock = refl
raw_plain Ask.unlock = refl
raw_plain Ask.run = refl

-- The raw mutex under lock and unlock has the laws of IsExclusive: one owner at a time, a step
-- changes no other ownership, and the owner keeps the lock until it unlocks.
pub raw_lock-IsExclusive : IsExclusive raw_lock (System.Reach System.plain)
raw_lock-IsExclusive = record {
  good_init = System.Reach.start;
  good_step = λ i a s t r e. Schedule.step_of-Reach i (raw_action a) t r (raw_plain a) e;
  one_owner = λ s r i j a b. mutual_exclusion r i j (raw_owner (s.pc i) a) (raw_owner (s.pc j) b);
  others_keep = λ i a s t e j ne. ap Defs.is_owner (raw_others i (raw_action a) s t e j ne);
  run_keeps = λ i s t e o. absurd (raw_owner_waits i s t e (s.pc i) refl o);
}

abbrev pub mini_action : Ask → Mini.Action
mini_action Ask.lock = Mini.Action.lock
mini_action Ask.unlock = Mini.Action.unlock
mini_action Ask.run = Mini.Action.run

abbrev is_owner : Mini.Pc → Bool
is_owner Mini.Pc.owner = true
is_owner p = false

abbrev pub mini_lock : SharedLock MiniSystem.System
mini_lock = record {
  init = MiniSystem.init;
  step = λ i a s. MiniSchedule.one_step i (mini_action a) s;
  owns = λ s i. is_owner (s.pc i);
}

pub mini_others :
    (i : ℕ) (a : Mini.Action) (s t : MiniSystem.System)
    → MiniSchedule.one_step i a s ≡ some t
    → (j : ℕ) → j ≢ i
    → t.pc j ≡ s.pc j
unfolding MiniSchedule.one_step
mini_others i a s t e j ne = by_next (Mini.advance i a (s.pc i) s.shared) e
  where
    by_next : (n : Mini.Next) → MiniSchedule.after_next s i n ≡ some t → t.pc j ≡ s.pc j
    by_next none e' = cc
    by_next (some (m, p)) e' = ground (arith, ap (λ r. r.pc j) (of_some e'))

mini_owner_waits :
    (i : ℕ) (s t : MiniSystem.System)
    → MiniSchedule.one_step i Mini.Action.run s ≡ some t
    → (p : Mini.Pc) → s.pc i ≡ p
    → is_owner p ≡ true
    → ⊥
unfolding MiniSchedule.one_step Mini.advance
mini_owner_waits i s t e Mini.Pc.owner h o = cc (rw h at e)
mini_owner_waits i s t e p h o = ground arith

mini_owner : (p : Mini.Pc) → is_owner p ≡ true → has_lock p ≡ true
mini_owner Mini.Pc.owner h = refl
mini_owner p h = ground arith

-- The small lock under lock and unlock has the laws of IsExclusive: one owner at a time, a step
-- changes no other ownership, and the owner keeps the lock until it unlocks.
mini_lock-IsExclusive : IsExclusive mini_lock MiniSystem.Reach
mini_lock-IsExclusive = record {
  good_init = MiniSystem.Reach.start;
  good_step = λ i a s t r e. MiniSchedule.one_step-Reach i (mini_action a) t r e;
  one_owner =
      λ s r i j a b. (mini_exclusion r i j (mini_owner (s.pc i) a) (mini_owner (s.pc j) b)).0;
  others_keep = λ i a s t e j ne. ap is_owner (mini_others i (mini_action a) s t e j ne);
  run_keeps = λ i s t e o. absurd (mini_owner_waits i s t e (s.pc i) refl o);
}

-- The test of mini_lock/src/lib.rs: `k` threads with `j` iterations each, of which `moves` says who
-- goes on when, and how.
unfoldable do_lots_and_lots_mini : (j k : ℕ) → List (ℕ × Move) → Option (Client MiniSystem.System)
do_lots_and_lots_mini j k moves = move_all mini_lock k moves (some (start mini_lock j))

-- If all iterations are over, the number under the small lock is k * j.
do_lots_and_lots_mini_lem :
    (j k : ℕ) (moves : List (ℕ × Move)) (c : Client MiniSystem.System)
    → do_lots_and_lots_mini j k moves ≡ some c
    → ((i : ℕ) → i < k → c.todo i ≡ 0)
    → c.value ≡ k * j
unfolding do_lots_and_lots_mini
do_lots_and_lots_mini_lem j k moves c e over =
    lots_and_lots mini_lock MiniSystem.Reach mini_lock-IsExclusive j k moves c e over
