-- ===== src/RawMutex/Mixed/Exclusion.antt =====
-- Threads and tasks, with time limits and dropped futures, but without `unlock_fair`.
use colock.Base.{
  ℕ, ◌≡◌, ◌≢◌, refl, Bool, true, false, none, some, arith, update, ap, subst, update_same, sym,
  Bool-cases, eq_of_test, ◌==◌, inl, inr, ◌∙◌,
}
use colock.RawMutex.Flags.{is_locked}
use colock.RawMutex.Thread.{
  Call, Pc, idle, pushing, loading, parked, owner, timed_out, panicked, lock, Shared, Action, run,
  Next, advance, enter_queue,
}
use colock.RawMutex.System.{Usage, allows}
use colock.RawMutex.Timed.{IsTimed, Held, Held-init, Went, Went-Held, allowed_unfair, unfair}
use colock.RawMutex.Plain.Defs.{is_owner, in_queue}
use colock.RawMutex.Mixed.{
  Place, calling, polling, replacing, pending, finished, dropping, Move, by_thread, poll_it,
  drop_it, run_it, onwards, after_access, drop_node, take_queue, go, Mixed, act, MixedReach, start,
  later,
}

-- The place of a thread that has the same locks.
abbrev pub as_thread : Place → Pc
as_thread (calling p) = p
as_thread (polling p) = p
as_thread replacing = pushing lock
as_thread pending = parked lock
as_thread finished = owner
as_thread dropping = timed_out

abbrev pub has_lock : Place → Bool
has_lock p = is_owner (as_thread p)

-- The state, the queue's lock and who has which of both stay.
record Neutral (m m' : Shared) (p p' : Pc) : Type 0 where
  state : m'.state ≡ m.state
  lock : m'.queue_lock ≡ m.queue_lock
  owns : is_owner p' ≡ is_owner p
  inside : in_queue p' ≡ in_queue p
  usual : IsTimed p'

Neutral-Held :
    {m m' : Shared} {pc : ℕ → Pc} (i : ℕ) (p' : Pc)
    → Held m pc
    → Neutral m m' (pc i) p'
    → Held m' (update pc i p')
Neutral-Held i p' inv n = record {
  byte = ground (arith, inv.byte, n.state);
  places = λ j. ground (arith, inv.places j, n.usual);
  one_owner = λ j k a b. elim (Bool-cases (j == i)) [
    | inl sj ↦ elim (Bool-cases (k == i)) [
      | inl sk ↦ omega (arith, eq_of_test j i sj, eq_of_test k i sk)
      | inr dk ↦ eq_of_test j i sj ∙ inv.one_owner i k (sym n.owns ∙ rw sj at a) (rw dk at b)
    ]
    | inr dj ↦ elim (Bool-cases (k == i)) [
      | inl sk ↦ inv.one_owner j i (rw dj at a) (sym n.owns ∙ rw sk at b) ∙ sym (eq_of_test k i sk)
      | inr dk ↦ inv.one_owner j k (rw dj at a) (rw dk at b)
    ]
  ];
  held = λ j a. ground (arith, inv.held j, inv.held i, n.owns, n.state);
  guarded = λ j a. ground (arith, inv.guarded j, inv.guarded i, n.inside, n.lock);
}

Held-same : {m : Shared} {pc pc' : ℕ → Pc} → Held m pc → ((j : ℕ) → pc' j ≡ pc j) → Held m pc'
Held-same inv same = record {
  byte = inv.byte;
  places = λ j. rw (same j) (inv.places j);
  one_owner = λ j k a b. inv.one_owner j k (rw (same j) at a) (rw (same k) at b);
  held = λ j a. inv.held j (rw (same j) at a);
  guarded = λ j a. inv.guarded j (rw (same j) at a);
}

pub onwards-some :
    (f : Pc → Place) (o : Next) {m' : Shared} {q : Place}
    → onwards f o ≡ some (m', q)
    → (p : Pc) × (o ≡ some (m', p)) × (q ≡ f p)
onwards-some f none h = cc
onwards-some f (some (s, p)) h = (p, ground arith, ground arith)

-- The places that a poll does not come to are none of those it goes on from.
settled : (m : Shared) (p : Pc) → IsTimed p → Neutral m m p (as_thread (after_access p))
settled m p usual = record {
  state = refl;
  lock = refl;
  owns = ground arith;
  inside = ground arith;
  usual = ground arith;
}

module _ (m m' : Shared) (place : ℕ → Place) (i : ℕ) (inv : Held m (λ j. as_thread (place j))) where
  abbrev Kept : Place → Type 0
  Kept q = Held m' (λ j. as_thread (update place i q j))

  went :
      (a : Action) (p' : Pc) (q : Place)
      → Went m m' (λ j. as_thread (place j)) i a (as_thread (place i)) p'
      → as_thread q ≡ p'
      → Kept q
  went a p' q w same = Held-same (Went-Held inv i a p' w) (λ j. ground (arith, same))

  calmly : (q : Place) → Neutral m m' (as_thread (place i)) (as_thread q) → Kept q
  calmly q n = Held-same (Neutral-Held i (as_thread q) inv n) (λ j. ground arith)

  by_access :
      (p p' : Pc)
      → as_thread (place i) ≡ p
      → advance i run p m ≡ some (m', p')
      → Kept (after_access p')
  by_access p p' e h =
      let w : Went m m' (λ j. as_thread (place j)) i run (as_thread (place i)) p' = record {
        here = refl;
        usual = inv.places i;
        allowed = refl;
        step = rw e h;
      } in
      let here = Went-Held inv i run p' w in
      let now : update (λ j. as_thread (place j)) i p' i ≡ p' =
        update_same (λ j. as_thread (place j)) i p' in
      let usual : IsTimed p' = subst IsTimed now (here.places i) in
      let q = as_thread (after_access p') in
      Held-same
        (Neutral-Held i q here (subst (λ p. Neutral m' m' p q) (sym now) (settled m' p' usual)))
        (λ j. ground arith)

  -- The push of a poll enters the queue as that of a thread does, but leaves the flag.
  enters :
      (q : Place) (c : Call)
      → place i ≡ polling (pushing c)
      → take_queue i c m ≡ some (m', q)
      → Kept q
  unfolding take_queue enter_queue advance
  enters q c e h =
      let m1 : Shared = record m { queue_lock = some i; flags = update m.flags i false } in
      let w : Went m m1 (λ j. as_thread (place j)) i run (as_thread (place i)) (loading c) =
        record {
          here = refl;
          usual = inv.places i;
          allowed = refl;
          step = rw e (ground (arith, h));
        } in
      let there = Went-Held inv i run (loading c) w in
      Held-same {pc = update (λ j. as_thread (place j)) i (loading c)}
        (record {
          byte = ground (arith, there.byte, h);
          places = there.places;
          one_owner = there.one_owner;
          held = λ j a. ground (arith, there.held j a, h);
          guarded = λ j a. ground (arith, there.guarded j a, h);
        })
        (λ j. ground (arith, h))

  -- A step of a thread or a task.
  go-Kept :
      (v : Move) (p q : Place)
      → place i ≡ p
      → ((a : Action) → v ≡ by_thread a → allows unfair a ≡ true)
      → go i v p m ≡ some (m', q)
      → Kept q
  unfolding go drop_node
  go-Kept (by_thread a) (calling p) q e al h =
      let (p', h', eq) = onwards-some calling (advance i a p m) h in
      went a p' q
        (record {
          here = refl;
          usual = inv.places i;
          allowed = al a refl;
          step = rw (ap as_thread e) h';
        })
        (rw eq refl)
  go-Kept poll_it (calling idle) q e al h = calmly q (ground (arith, e, h))
  go-Kept poll_it pending q e al h = calmly q (ground (arith, e, h))
  go-Kept drop_it pending q e al h = calmly q (ground (arith, e, h))
  go-Kept run_it (polling (pushing c)) q e al h = enters q c e h
  go-Kept run_it (polling p) q e al h =
      let (p', h', eq) = onwards-some after_access (advance i run p m) h in
      rw eq (by_access p p' (ap as_thread e) h')
  go-Kept run_it replacing q e al h = calmly q (ground (arith, e, h))
  go-Kept run_it finished q e al h = calmly q (ground (arith, e, h))
  go-Kept run_it dropping q e al h = calmly q (ground (arith, e, h))
  go-Kept v p q e al h = cc

module _ {u : Usage} {drops : Bool} (no_fair : u.fairness ≡ false) where
  pub MixedReach-Held :
      {s : Mixed} → MixedReach u drops s → Held s.shared (λ j. as_thread (s.place j))
  MixedReach-Held start = Held-init
  MixedReach-Held (later {s} r (act i v {m} {p} al h)) =
      go-Kept s.shared m s.place i (MixedReach-Held r) v (s.place i) p refl
        (λ a e. allowed_unfair u a no_fair (rw e at al)) h

  -- In every state that any number of threads and tasks come to at one mutex without unlock_fair,
  -- by calls with or without time limits and by polls and drops of lock_async futures, one atomic
  -- access or operation under the queue lock at a time in any order, at most one of them has the
  -- lock, and while one has it LOCKED_BIT is set.
  pub mixed_exclusion :
      {s : Mixed}
      → MixedReach u drops s
      → (i j : ℕ) → has_lock (s.place i) ≡ true
      → has_lock (s.place j) ≡ true
      → (i ≡ j) × (is_locked s.shared.state ≡ true)
  mixed_exclusion r i j a b = let inv = MixedReach-Held r in (inv.one_owner i j a b, inv.held i a)

  --
  pub mixed_no_panic : {s : Mixed} → MixedReach u drops s → (i : ℕ) → s.place i ≢ calling panicked
  mixed_no_panic r i e = ground (arith, (MixedReach-Held r).places i)
