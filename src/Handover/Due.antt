-- ===== src/Handover/Due.antt =====
-- The raw mutex as a lock that goes on: with `lock` and `lock_async` only, and an executor that
-- polls a pending task again once its waker was called.
use colock.Base.{
  ℕ, ◌≡◌, refl, Bool, true, false, none, some, arith, ap, update, update_same, of_some, Bool-cases,
  inl, inr, eq_of_test, update_ne, ◌==◌, ◌∙◌, sym, subst, if◌then◌else◌, ◌⊎◌,
}
use colock.Counter.Exclusive.{Ask}
use colock.Handover.{resting, owning, WatchedLock}
use colock.Handover.Laws.{Watched, Lively, enters, leaves, is_busy}
use colock.Handover.RawMutex.{
  place_of, first_move, mutex_watched, mutex_watched-Watched, owning-has_lock,
}
use colock.Handover.Turns.{no_try, first_of, lock_goes, unlock_goes, run_goes}
use colock.RawMutex.Thread.{Action, Shared, advance, start_unlock}
use colock.RawMutex.System.{plain}
use colock.RawMutex.Mixed
use colock.RawMutex.Mixed.{
  Place, calling, pending, finished, Move, by_thread, poll_it, run_it, After, go, drop_node,
  take_queue, lets, MixedReach,
}
use colock.RawMutex.Mixed.Progress.{own_move, is_due, succeeds}
use colock.RawMutex.Mixed.Safety.{MixedReach-Inv}
use colock.RawMutex.Mixed.Schedule.{mixed_step}
use colock.Handover.Someone.{Waits, someone_goes}
use colock.RawMutex.Mixed.Exclusion.{mixed_exclusion}
use colock.RawMutex.Mixed.Schedule.{placed}
use colock.RawMutex.Mixed.Exclusion.{MixedReach-Held}

-- An executor polls a pending task again once its waker was called.
abbrev may_go : Ask → Place → Bool → Bool
may_go Ask.run p flag = is_due p flag
may_go a p flag = true

-- Each party calls `lock`, or awaits `lock_async`.
abbrev pub due_watched : (ℕ → Bool) → WatchedLock Mixed.Mixed
due_watched async = record (mutex_watched (λ i. first_of (async i))) {
  step = λ i a s.
      if may_go a (s.place i) (s.shared.flags i)
      then mixed_step plain false i (first_move (first_of (async i)) a (s.place i)) s
      else none;
}

-- No party is in a call of `try_lock`.
abbrev pub LockOnly : Mixed.Mixed → Type 0
LockOnly s = MixedReach plain false s × ((i : ℕ) → no_try (s.place i) ≡ true)

-- What a step has done.
record Went (i : ℕ) (v : Move) (s t : Mixed.Mixed) : Type 0 where
  now : Shared
  next : Place
  goes : go i v (s.place i) s.shared ≡ some (now, next)
  same : record { shared = now; place = update s.place i next } ≡ t

-- The move of an ask.
abbrev asked : (ℕ → Bool) → ℕ → Ask → Mixed.Mixed → Move
asked async i a s = first_move (first_of (async i)) a (s.place i)

mixed_step-Went :
    (i : ℕ) (v : Move) (s t : Mixed.Mixed) → mixed_step plain false i v s ≡ some t → Went i v s t
unfolding mixed_step
mixed_step-Went i v s t e = elim (Bool-cases (lets plain false v)) [
  | inl al ↦ by_outcome (go i v (s.place i) s.shared) refl (rw al at e)
  | inr no_move ↦ cc (rw no_move at e)
]
  where
    by_outcome :
        (o : After) → go i v (s.place i) s.shared ≡ o → placed s i o ≡ some t → Went i v s t
    by_outcome none g h = cc
    by_outcome (some (m, q)) g h = record { now = m; next = q; goes = g; same = of_some h }

-- A step that the outcome of its move allows.
step_of_success :
    (i : ℕ) (v : Move) (s : Mixed.Mixed)
    → lets plain false v ≡ true
    → succeeds (go i v (s.place i) s.shared) ≡ true
    → (t : Mixed.Mixed) × (mixed_step plain false i v s ≡ some t)
unfolding mixed_step
step_of_success i v s al e = by_outcome (go i v (s.place i) s.shared) refl e
  where
    by_outcome :
        (o : After)
        → go i v (s.place i) s.shared ≡ o
        → succeeds o ≡ true
        → (t : Mixed.Mixed) × ((if lets plain false v
              then placed s i (go i v (s.place i) s.shared)
              else none)
            ≡ some t)
    by_outcome none g h = cc
    by_outcome (some (m, q)) g h =
        (record { shared = m; place = update s.place i q }, rw (al, g) refl)

module _ (async : ℕ → Bool) where
  due_step-some :
      (i : ℕ) (a : Ask) (s t : Mixed.Mixed)
      → (due_watched async).step i a s ≡ some t
      → mixed_step plain false i (asked async i a s) s ≡ some t
  due_step-some i a s t e = elim (Bool-cases (may_go a (s.place i) (s.shared.flags i))) [
    | inl may ↦ rw may at e
    | inr not_yet ↦ cc (rw not_yet at e)
  ]

  went :
      (i : ℕ) (a : Ask) (s t : Mixed.Mixed)
      → (due_watched async).step i a s ≡ some t
      → Went i (asked async i a s) s t
  went i a s t e = mixed_step-Went i (asked async i a s) s t (due_step-some i a s t e)

  base : Watched (mutex_watched (λ i. first_of (async i))) (MixedReach plain false)
  base = mutex_watched-Watched (λ i. first_of (async i))

  -- A party is where its move has led it.
  place_now : {i : ℕ} {v : Move} {s t : Mixed.Mixed} (g : Went i v s t) → t.place i ≡ g.next
  place_now {i} {v} {s} g = ap (λ r. r.place i) (sym g.same) ∙ update_same s.place i g.next

  no_try_after :
      (i : ℕ) (a : Ask) (s t : Mixed.Mixed)
      → LockOnly s
      → (g : Went i (asked async i a s) s t) → no_try g.next ≡ true
  no_try_after i Ask.lock s t (r, only) g =
      (lock_goes i s.shared g.now (async i) (s.place i) g.next g.goes).0 (only i)
  no_try_after i Ask.unlock s t (r, only) g =
      (unlock_goes i s.shared g.now (s.place i) g.next g.goes).0
  no_try_after i Ask.run s t (r, only) g =
      (run_goes i s.shared g.now (s.place i) g.next ((MixedReach-Inv r).0.places i) (only i)
        (MixedReach-Held refl r).byte g.goes).0

  LockOnly-step :
      (i : ℕ) (a : Ask) (s t : Mixed.Mixed)
      → LockOnly s
      → (due_watched async).step i a s ≡ some t
      → LockOnly t
  LockOnly-step i a s t (r, only) e =
      (base.good_step i a s t r (due_step-some i a s t e), λ j. by_party j (Bool-cases (j == i)))
    where
      g : Went i (asked async i a s) s t
      g = went i a s t e

      by_party : (j : ℕ) → ((j == i) ≡ true) ⊎ ((j == i) ≡ false) → no_try (t.place j) ≡ true
      by_party j (inl this) =
          subst (λ k. no_try (t.place k) ≡ true) (sym (eq_of_test j i this))
            (ap no_try (place_now g) ∙ no_try_after i a s t (r, only) g)
      by_party j (inr other) =
          ap no_try (ap (λ q. q.place j) (sym g.same) ∙ update_ne s.place j i g.next (ground arith))
          ∙ only j

  pub due_watched-Watched : Watched (due_watched async) LockOnly
  due_watched-Watched = record {
    good_init = (base.good_init, λ i. refl);
    good_step = LockOnly-step;
    first = base.first;
    others_keep = λ i a s t e. base.others_keep i a s t (due_step-some i a s t e);
    owner_locked = λ s r. base.owner_locked s r.0;
    rest_free = λ s r. base.rest_free s r.0;
    waiter_calls = λ s r. base.waiter_calls s r.0;
  }

  lock_now :
      (i : ℕ) (s t : Mixed.Mixed)
      → (due_watched async).step i Ask.lock s ≡ some t
      → enters (place_of (t.place i)) ≡ true
  lock_now i s t e =
      let g = went i Ask.lock s t e in
      ap (λ p. enters (place_of p)) (place_now g)
      ∙ (lock_goes i s.shared g.now (async i) (s.place i) g.next g.goes).1

  unlock_now :
      (i : ℕ) (s t : Mixed.Mixed)
      → (due_watched async).step i Ask.unlock s ≡ some t
      → leaves (place_of (t.place i)) ≡ true
  unlock_now i s t e =
      let g = went i Ask.unlock s t e in
      ap (λ p. leaves (place_of p)) (place_now g)
      ∙ (unlock_goes i s.shared g.now (s.place i) g.next g.goes).1

  run_now :
      (i : ℕ) (s t : Mixed.Mixed)
      → LockOnly s
      → (due_watched async).step i Ask.run s ≡ some t
      → (enters (place_of (s.place i)) ≡ true → enters (place_of (t.place i)) ≡ true)
        × (leaves (place_of (s.place i)) ≡ true → leaves (place_of (t.place i)) ≡ true)
  run_now i s t (r, only) e =
      let g = went i Ask.run s t e in
      let ran =
        run_goes i s.shared g.now (s.place i) g.next ((MixedReach-Inv r).0.places i) (only i)
          (MixedReach-Held refl r).byte g.goes in
      (
        λ h. ap (λ p. enters (place_of p)) (place_now g) ∙ ran.1 h,
        λ h. ap (λ p. leaves (place_of p)) (place_now g) ∙ ran.2 h,
      )

  can_lock :
      (i : ℕ) (s : Mixed.Mixed)
      → place_of (s.place i) ≡ resting
      → (t : Mixed.Mixed) × ((due_watched async).step i Ask.lock s ≡ some t)
  unfolding go advance
  can_lock i s rest =
      step_of_success i (first_of (async i)) s (allowed (async i)) (goes (async i) (s.place i) rest)
    where
      allowed : (b : Bool) → lets plain false (first_of b) ≡ true
      allowed true = refl
      allowed false = refl

      goes :
          (b : Bool) (p : Place)
          → place_of p ≡ resting
          → succeeds (go i (first_of b) p s.shared) ≡ true
      goes b p at = ground arith

  can_unlock :
      (i : ℕ) (s : Mixed.Mixed)
      → place_of (s.place i) ≡ owning
      → (t : Mixed.Mixed) × ((due_watched async).step i Ask.unlock s ≡ some t)
  unfolding go advance start_unlock
  can_unlock i s own = step_of_success i (by_thread Action.unlock) s refl (goes (s.place i) own)
    where
      goes :
          (p : Place)
          → place_of p ≡ owning
          → succeeds (go i (by_thread Action.unlock) p s.shared) ≡ true
      goes p at = ground arith

  own_move_allowed : (p : Place) → lets plain false (own_move p) ≡ true
  own_move_allowed p = ground arith

  someone :
      (s : Mixed.Mixed)
      → LockOnly s
      → (i : ℕ) → is_busy (place_of (s.place i)) ≡ true
      → ((j : ℕ) × (is_busy (place_of (s.place j)) ≡ true)
          × (t : Mixed.Mixed) × ((due_watched async).step j Ask.run s ≡ some t))
        ⊎ Waits s
  someone s (r, only) i busy = elim (someone_goes s r i busy) [
    | inl (j, busy', (due, goes)) ↦
        let (t, e) =
          step_of_success j (own_move (s.place j)) s (own_move_allowed (s.place j)) goes in
        inl (j, busy', t, rw (due, e) refl)
    | inr waits ↦ inr waits
  ]

  pub due_watched-Lively : Lively (due_watched async) LockOnly
  due_watched-Lively = record {
    one_owner = λ s r i j own own'.
        (mixed_exclusion refl r.0 i j (owning-has_lock (s.place i) own)
          (owning-has_lock (s.place j) own')).0;
    lock_enters = lock_now;
    unlock_leaves = unlock_now;
    still_enters = λ i s t r was e. (run_now i s t r e).0 was;
    still_leaves = λ i s t r was e. (run_now i s t r e).1 was;
    can_lock = λ i s r rest. can_lock i s rest;
    can_unlock = λ i s r own. can_unlock i s own;
    someone = someone;
  }
