-- ===== src/RawMutex/Timed.antt =====
-- colock/src/mutex/raw_mutex.rs with time limits, but without `unlock_fair`.
use colock.Base.{
  ℕ, ◌<◌, ◌≡◌, ◌≢◌, refl, true, false, ◌==◌, some, arith, update, Bool-cases, eq_of_test, inl, inr,
}
use colock.RawMutex.Flags.{is_locked}
use colock.RawMutex.Thread.{
  Pc, idle, trying, retrying, deciding, handed, owner, fair_marking, fair_flipping, fair_waking,
  fair_empty, panicked, Shared, new, Action, call, run, advance, first_try, next_try, enter_queue,
  should_sleep, wake_up, after_park, start_unlock, pop_sleeper, wake_sleeper, clear_waiting,
  give_up,
}
use colock.RawMutex.System.{System, Usage, allows, Step, move, Reach, start, later}
use colock.RawMutex.Plain.Defs.{is_owner, in_queue}

-- What the locals of a thread say, and the places that need `unlock_fair`.
abbrev pub IsTimed : Pc → Type 0
IsTimed (retrying _ state) = state < 4
IsTimed (deciding _ current) = current < 4
IsTimed handed = ⊥
IsTimed (fair_marking _ _) = ⊥
IsTimed (fair_flipping _) = ⊥
IsTimed (fair_waking _) = ⊥
IsTimed fair_empty = ⊥
IsTimed panicked = ⊥
IsTimed _ = Unit

pub record Held (m : Shared) (pc : ℕ → Pc) : Type 0 where
  pub byte : m.state < 4
  pub places : (i : ℕ) → IsTimed (pc i)
  pub one_owner : (i j : ℕ) → is_owner (pc i) ≡ true → is_owner (pc j) ≡ true → i ≡ j
  pub held : (i : ℕ) → is_owner (pc i) ≡ true → is_locked m.state ≡ true
  pub guarded : (i : ℕ) → in_queue (pc i) ≡ true → m.queue_lock ≡ some i

abbrev pub unfair : Usage
unfair = record { timeouts = true; fairness = false }

-- Thread `i` goes from `p` to `p'`.
pub record Went (m m' : Shared) (pc : ℕ → Pc) (i : ℕ) (a : Action) (p p' : Pc) : Type 0 where
  pub here : pc i ≡ p
  pub usual : IsTimed p
  pub allowed : allows unfair a ≡ true
  pub step : advance i a p m ≡ some (m', p')

module _ {m m' : Shared} {pc : ℕ → Pc} (inv : Held m pc) (i : ℕ) where
  byte-kept : (a : Action) (p p' : Pc) → Went m m' pc i a p p' → (m'.state < 4) × IsTimed p'
  unfolding advance first_try next_try enter_queue should_sleep wake_up after_park start_unlock
      pop_sleeper wake_sleeper clear_waiting give_up
  byte-kept (call c) idle p' v = ground (arith, inv.byte)
  byte-kept run (trying c) p' v = ground (arith, inv.byte)
  byte-kept a p p' v = ground (arith, inv.byte)

  pub takes_free :
      (a : Action) (p p' : Pc)
      → Went m m' pc i a p p'
      → is_owner p' ≡ true
      → (is_locked m.state ≡ false) × (is_locked m'.state ≡ true)
  unfolding advance first_try next_try enter_queue should_sleep wake_up after_park start_unlock
      pop_sleeper wake_sleeper clear_waiting give_up
  takes_free (call c) idle p' v o = ground arith
  takes_free run (trying c) p' v o = ground (arith, inv.byte)
  takes_free a p p' v o = ground (arith, inv.byte)

  stays_locked :
      (a : Action) (p p' : Pc)
      → Went m m' pc i a p p'
      → is_owner p ≡ false
      → is_locked m.state ≡ true
      → is_locked m'.state ≡ true
  unfolding advance first_try next_try enter_queue should_sleep wake_up after_park start_unlock
      pop_sleeper wake_sleeper clear_waiting give_up
  stays_locked (call c) idle p' v o l = ground arith
  stays_locked run (trying c) p' v o l = ground (arith, inv.byte)
  stays_locked a p p' v o l = ground (arith, inv.byte)

  pub one_owner-kept :
      (a : Action) (p p' : Pc)
      → Went m m' pc i a p p'
      → (j k : ℕ) → is_owner (update pc i p' j) ≡ true
      → is_owner (update pc i p' k) ≡ true
      → j ≡ k
  one_owner-kept a p p' v j k oj ok = elim (Bool-cases (j == i)) [
    | inl sj ↦ elim (Bool-cases (k == i)) [
      | inl sk ↦ omega (arith, eq_of_test j i sj, eq_of_test k i sk)
      | inr dk ↦ cc ((takes_free a p p' v (rw sj at oj)).0, inv.held k (rw dk at ok))
    ]
    | inr dj ↦ elim (Bool-cases (k == i)) [
      | inl sk ↦ cc ((takes_free a p p' v (rw sk at ok)).0, inv.held j (rw dj at oj))
      | inr dk ↦ inv.one_owner j k (rw dj at oj) (rw dk at ok)
    ]
  ]

  pub held-kept :
      (a : Action) (p p' : Pc)
      → Went m m' pc i a p p'
      → (j : ℕ) → is_owner (update pc i p' j) ≡ true
      → is_locked m'.state ≡ true
  held-kept a p p' v j oj = elim (Bool-cases (j == i)) [
    | inl same ↦ (takes_free a p p' v (rw same at oj)).1
    | inr other ↦ elim (Bool-cases (is_owner p)) [
      | inl o ↦ absurd (ground (arith, v.here, inv.one_owner i j))
      | inr o ↦ stays_locked a p p' v o (inv.held j (rw other at oj))
    ]
  ]

  pub guarded-kept :
      (a : Action) (p p' : Pc)
      → Went m m' pc i a p p'
      → (j : ℕ) → in_queue (update pc i p' j) ≡ true
      → m'.queue_lock ≡ some j
  unfolding advance first_try next_try enter_queue should_sleep wake_up after_park start_unlock
      pop_sleeper wake_sleeper clear_waiting give_up
  guarded-kept (call c) idle p' v j q = ground (arith, inv.guarded j)
  guarded-kept run (trying c) p' v j q = ground (arith, inv.guarded j, inv.guarded i)
  guarded-kept a p p' v j q = ground (arith, inv.guarded j, inv.guarded i)

  pub Went-Held : (a : Action) (p' : Pc) → Went m m' pc i a (pc i) p' → Held m' (update pc i p')
  Went-Held a p' v = record {
    byte = (byte-kept a (pc i) p' v).0;
    places = λ j. ground (arith, (byte-kept a (pc i) p' v).1, inv.places j);
    one_owner = one_owner-kept a (pc i) p' v;
    held = held-kept a (pc i) p' v;
    guarded = guarded-kept a (pc i) p' v;
  }

pub Held-init : Held new (λ _. idle)
Held-init = record {
  byte = omega arith;
  places = λ i. tt;
  one_owner = λ i j h. cc;
  held = λ i h. cc;
  guarded = λ i h. cc;
}

pub allowed_unfair :
    (u : Usage) (a : Action) → u.fairness ≡ false → allows u a ≡ true → allows unfair a ≡ true
allowed_unfair u a no_fair h = ground arith

module _ {u : Usage} (no_fair : u.fairness ≡ false) where
  Step-Held : {s t : System} → Step u s t → Held s.shared s.pc → Held t.shared t.pc
  Step-Held {s} (move i a {m} {p} al h) inv = Went-Held inv i a p (record {
    here = refl;
    usual = inv.places i;
    allowed = allowed_unfair u a no_fair al;
    step = h;
  })

  Reach-Held : {s : System} → Reach u s → Held s.shared s.pc
  Reach-Held start = Held-init
  Reach-Held (later r st) = Step-Held st (Reach-Held r)

  -- In every state that any number of threads come to without unlock_fair, time limits included,
  -- one atomic access at a time in any order, at most one thread has the lock, and while one has
  -- it LOCKED_BIT is set.
  pub timed_exclusion :
      {s : System}
      → Reach u s
      → (i j : ℕ) → s.pc i ≡ owner
      → s.pc j ≡ owner
      → (i ≡ j) × (is_locked s.shared.state ≡ true)
  timed_exclusion r i j a b =
      let inv = Reach-Held r in (inv.one_owner i j (rw a) (rw b), inv.held i (rw a))

  --
  pub timed_no_panic : {s : System} → Reach u s → (i : ℕ) → s.pc i ≢ panicked
  timed_no_panic r i e = ground (arith, (Reach-Held r).places i)
