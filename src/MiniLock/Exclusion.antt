-- ===== src/MiniLock/Exclusion.antt =====
-- At most one thread has the lock, from `lock` to the release in `unlock`.
use colock.Base.{
  ℕ, ◌≡◌, ◌≢◌, refl, Bool, true, false, some, arith, update, ◌==◌, Bool-cases, inl, inr, eq_of_test,
}
use colock.MiniLock.Word.{get_flag}
use colock.MiniLock.Thread.{
  Pc, idle, locking, owner, unlocking, asserting, loading, popping, releasing, panicked, Shared,
  Action, lock, run, advance, lock_first, spin_round, push_or_lock, try_round, unlock_first,
  pop_round,
}
use colock.MiniLock.System.{System, Step, move, Reach, start, later}

-- From the moment that the lock is taken to the one that it is released.
abbrev pub has_lock : Pc → Bool
has_lock owner = true
has_lock unlocking = true
has_lock asserting = true
has_lock loading = true
has_lock (popping _) = true
has_lock (releasing _) = true
has_lock _ = false

-- `pop` has read a word with the flag up, and nobody fails an assertion.
abbrev pub IsSane : Pc → Type 0
IsSane (popping head) = get_flag head ≡ true
IsSane panicked = ⊥
IsSane _ = Unit

pub record Inv (m : Shared) (pc : ℕ → Pc) : Type 0 where
  pub one : (i j : ℕ) → has_lock (pc i) ≡ true → has_lock (pc j) ≡ true → i ≡ j
  pub held : (i : ℕ) → has_lock (pc i) ≡ true → get_flag m.head ≡ true
  pub sane : (i : ℕ) → IsSane (pc i)

-- Thread `i` goes from `p` to `p'`.
pub record Moved (m m' : Shared) (pc : ℕ → Pc) (i : ℕ) (a : Action) (p p' : Pc) : Type 0 where
  pub here : pc i ≡ p
  pub step : advance i a p m ≡ some (m', p')

module _ {m m' : Shared} {pc : ℕ → Pc} (inv : Inv m pc) (i : ℕ) where
  -- A thread that comes to have the lock has found it free.
  takes_free :
      (a : Action) (p p' : Pc)
      → Moved m m' pc i a p p'
      → has_lock p ≡ false
      → has_lock p' ≡ true
      → (get_flag m.head ≡ false) × (get_flag m'.head ≡ true)
  unfolding advance lock_first spin_round push_or_lock try_round unlock_first pop_round
  takes_free lock idle p' v o t = ground arith
  takes_free run locking p' v o t = ground arith
  takes_free a p p' v o t = ground arith

  -- One that goes on having it leaves it locked.
  keeps_locked :
      (a : Action) (p p' : Pc)
      → Moved m m' pc i a p p'
      → has_lock p ≡ true
      → has_lock p' ≡ true
      → get_flag m'.head ≡ true
  unfolding advance lock_first spin_round push_or_lock try_round unlock_first pop_round
  keeps_locked lock idle p' v o t = ground arith
  keeps_locked run locking p' v o t = ground arith
  keeps_locked a p p' v o t = ground (arith, inv.held i)

  -- One that does not have it does not unlock it.
  stays_locked :
      (a : Action) (p p' : Pc)
      → Moved m m' pc i a p p'
      → has_lock p ≡ false
      → get_flag m.head ≡ true
      → get_flag m'.head ≡ true
  unfolding advance lock_first spin_round push_or_lock try_round unlock_first pop_round
  stays_locked lock idle p' v o l = ground arith
  stays_locked run locking p' v o l = ground arith
  stays_locked a p p' v o l = ground arith

  IsSane-kept : (a : Action) (p p' : Pc) → Moved m m' pc i a p p' → IsSane p → IsSane p'
  unfolding advance lock_first spin_round push_or_lock try_round unlock_first pop_round
  IsSane-kept lock idle p' v h = ground arith
  IsSane-kept run locking p' v h = ground arith
  IsSane-kept a p p' v h = ground (arith, inv.held i)

  held-kept :
      (a : Action) (p p' : Pc)
      → Moved m m' pc i a p p'
      → (j : ℕ) → has_lock (update pc i p' j) ≡ true
      → get_flag m'.head ≡ true
  held-kept a p p' v j h = elim (Bool-cases (has_lock p)) [
    | inl had ↦ elim (Bool-cases (j == i)) [
      | inl same ↦ keeps_locked a p p' v had (rw same at h)
      | inr other ↦ absurd (ground (arith, v.here, inv.one j i))
    ]
    | inr had_not ↦ elim (Bool-cases (j == i)) [
      | inl same ↦ (takes_free a p p' v had_not (rw same at h)).1
      | inr other ↦ stays_locked a p p' v had_not (inv.held j (rw other at h))
    ]
  ]

  -- Another thread that has the lock, and the mover after its step, are one.
  clash :
      (a : Action) (p p' : Pc)
      → Moved m m' pc i a p p'
      → has_lock p' ≡ true
      → (j : ℕ) → has_lock (pc j) ≡ true
      → j ≡ i
  clash a p p' v t j h = elim (Bool-cases (has_lock p)) [
    | inl had ↦ inv.one j i h (rw v.here had)
    | inr had_not ↦ cc ((takes_free a p p' v had_not t).0, inv.held j h)
  ]

  one-kept :
      (a : Action) (p p' : Pc)
      → Moved m m' pc i a p p'
      → (j k : ℕ) → has_lock (update pc i p' j) ≡ true
      → has_lock (update pc i p' k) ≡ true
      → j ≡ k
  one-kept a p p' v j k hj hk = elim (Bool-cases (j == i)) [
    | inl sj ↦ elim (Bool-cases (k == i)) [
      | inl sk ↦ omega (arith, eq_of_test j i sj, eq_of_test k i sk)
      | inr dk ↦ omega (arith, eq_of_test j i sj, clash a p p' v (rw sj at hj) k (rw dk at hk))
    ]
    | inr dj ↦ elim (Bool-cases (k == i)) [
      | inl sk ↦ omega (arith, eq_of_test k i sk, clash a p p' v (rw sk at hk) j (rw dj at hj))
      | inr dk ↦ inv.one j k (rw dj at hj) (rw dk at hk)
    ]
  ]

pub Step-Inv : {s t : System} → Step s t → Inv s.shared s.pc → Inv t.shared t.pc
Step-Inv {s} (move i a {p} h) inv =
    let v : Moved _ _ s.pc i a (s.pc i) p = record { here = refl; step = h } in
    record {
      one = one-kept inv i a (s.pc i) p v;
      held = held-kept inv i a (s.pc i) p v;
      sane = λ j. ground (arith, IsSane-kept inv i a (s.pc i) p v (inv.sane i), inv.sane j);
    }

pub Reach-Inv : {s : System} → Reach s → Inv s.shared s.pc
Reach-Inv start = record { one = λ i j h. cc; held = λ i h. cc; sane = λ i. tt }
Reach-Inv (later r st) = Step-Inv st (Reach-Inv r)

-- In every state that any number of threads come to on a RawMiniLock by lock, try_lock and
-- unlock, one atomic access at a time in any order, at most one thread has the lock, and while
-- one has it LOCKED_BIT is set.
pub mini_exclusion :
    {s : System}
    → Reach s
    → (i j : ℕ) → has_lock (s.pc i) ≡ true
    → has_lock (s.pc j) ≡ true
    → (i ≡ j) × (get_flag s.shared.head ≡ true)
mini_exclusion r i j a b = ((Reach-Inv r).one i j a b, (Reach-Inv r).held i a)

-- In every state that any number of threads come to on a RawMiniLock by lock, try_lock and
-- unlock, no thread has failed the assertions of unlock and pop, or unwrapped a null pointer in
-- pop.
pub mini_no_panic : {s : System} → Reach s → (i : ℕ) → s.pc i ≢ panicked
mini_no_panic r i e = ground (arith, (Reach-Inv r).sane i)
