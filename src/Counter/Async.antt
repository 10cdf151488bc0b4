-- ===== src/Counter/Async.antt =====
-- The test `do_lots_and_lots_async` of colock/src/mutex/mod.rs: the same client, with the futures of
-- `lock_async` in place of `lock`, on an executor of any number of threads.
use colock.Base.{
  ℕ, ◌*◌, ◌<◌, ◌≡◌, ◌≢◌, refl, Bool, true, false, Option, none, some, List, arith, ap, of_some,
  Bool-cases, inl, inr,
}
use colock.Counter.Exclusive.{Ask, SharedLock, IsExclusive}
use colock.Counter.Client.{Client, Move, start, move_all}
use colock.Counter.Sum.{lots_and_lots}
use colock.RawMutex.Thread.{Action, owner, advance}
use colock.RawMutex.System.{plain}
use colock.RawMutex.Mixed
use colock.RawMutex.Mixed.{
  Place, calling, pending, by_thread, poll_it, run_it, After, go, Mixed, init, lets, MixedReach,
}
use colock.RawMutex.Mixed.Exclusion.{has_lock, mixed_exclusion}
use colock.RawMutex.Mixed.Schedule.{placed, mixed_step, mixed_step-MixedReach}
use colock.RawMutex.Mixed.Progress.{own_move}

-- `lock_async().await` begins with a poll; the guard's drop is `unlock`.
abbrev pub move_of : Ask → Place → Mixed.Move
move_of Ask.lock p = poll_it
move_of Ask.run p = own_move p
move_of Ask.unlock p = by_thread Action.unlock

-- `lock_async` has returned.
abbrev pub has_guard : Place → Bool
has_guard (calling owner) = true
has_guard _ = false

abbrev pub task_lock : SharedLock Mixed.Mixed
task_lock = record {
  init = init;
  step = λ i a s. mixed_step plain false i (move_of a (s.place i)) s;
  owns = λ s i. has_guard (s.place i);
}

-- A step of one leaves the places of the others.
pub mixed_step-others :
    (i : ℕ) (v : Mixed.Move) (s t : Mixed.Mixed)
    → mixed_step plain false i v s ≡ some t
    → (j : ℕ) → j ≢ i
    → t.place j ≡ s.place j
unfolding mixed_step
mixed_step-others i v s t e j ne = elim (Bool-cases (lets plain false v)) [
  | inl al ↦ by_outcome (go i v (s.place i) s.shared) (rw al at e)
  | inr no_move ↦ cc (rw no_move at e)
]
  where
    by_outcome : (o : After) → placed s i o ≡ some t → t.place j ≡ s.place j
    by_outcome none h = cc
    by_outcome (some (m, p)) h = ground (arith, ap (λ r. r.place j) (of_some h))

-- Who has a guard has no step but those of a call.
guard_waits :
    (i : ℕ) (p : Place) (s t : Mixed.Mixed)
    → s.place i ≡ p
    → has_guard p ≡ true
    → mixed_step plain false i (own_move p) s ≡ some t
    → ⊥
unfolding mixed_step go advance
guard_waits i (calling owner) s t e g h = cc (rw e at h)
guard_waits i p s t e g h = ground arith

has_guard-has_lock : (p : Place) → has_guard p ≡ true → has_lock p ≡ true
has_guard-has_lock p g = ground arith

-- The futures of lock_async have the laws of IsExclusive.
task_lock-IsExclusive : IsExclusive task_lock (MixedReach plain false)
task_lock-IsExclusive = record {
  good_init = MixedReach.start;
  good_step = λ i a s t r e. mixed_step-MixedReach i (move_of a (s.place i)) t r e;
  one_owner = λ s r i j a b.
      (mixed_exclusion refl r i j (has_guard-has_lock (s.place i) a)
        (has_guard-has_lock (s.place j) b)).0;
  others_keep =
      λ i a s t e j ne. ap has_guard (mixed_step-others i (move_of a (s.place i)) s t e j ne);
  run_keeps = λ i s t e g. absurd (guard_waits i (s.place i) s t refl g e);
}

-- `k` tasks with `j` iterations each, of which `moves` says who goes on when, and how.
unfoldable pub do_lots_and_lots_async : (j k : ℕ) → List (ℕ × Move) → Option (Client Mixed.Mixed)
do_lots_and_lots_async j k moves = move_all task_lock k moves (some (start task_lock j))

-- If k tasks that each increment the number j times, each time with the lock that it awaits from
-- lock_async, have, by any interleaving of the atomic accesses of their polls and of their
-- accesses to the number, no iteration left, the number is k * j.
pub do_lots_and_lots_async_lem :
    (j k : ℕ) (moves : List (ℕ × Move)) (c : Client Mixed.Mixed)
    → do_lots_and_lots_async j k moves ≡ some c
    → ((i : ℕ) → i < k → c.todo i ≡ 0)
    → c.value ≡ k * j
unfolding do_lots_and_lots_async
do_lots_and_lots_async_lem j k moves c e over =
    lots_and_lots task_lock (MixedReach plain false) task_lock-IsExclusive j k moves c e over
