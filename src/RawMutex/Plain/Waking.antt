-- ===== src/RawMutex/Plain/Waking.antt =====
-- A step of thread `i` keeps some thread on its way while the lock is free.
use colock.Base.{
  ℕ, ◌≡◌, refl, true, false, ◌⊎◌, [], ◌==◌, none, arith, update, Bool-cases, inl, inr,
}
use colock.RawMutex.Flags.{contended, is_locked, is_waiting}
use colock.RawMutex.Thread.{
  try_lock, Pc, idle, trying, retrying, deciding, owner, popping, waking, clearing, Shared, Action,
  call, unlock, run, advance, first_try, next_try, enter_queue, should_sleep, wake_up, after_park,
  start_unlock, wake_sleeper, clear_waiting,
}
use colock.RawMutex.Plain.Defs.{is_asleep, is_resigned, Inv, Awake, is_active, active_at}
use colock.RawMutex.Plain.Excluded.{Moved}
use colock.RawMutex.Plain.Popping.{pop_sleeper-Pops}

module _ (m m' : Shared) (pc : ℕ → Pc) (awake : Awake m pc) (i : ℕ) where
  -- Where the moving thread is none of those on their way, the one that was goes on.
  another :
      (p p' : Pc)
      → pc i ≡ p
      → active_at p (m.flags i) ≡ false
      → m'.flags ≡ m.flags
      → is_locked m.state ≡ false
      → (j : ℕ) → (is_asleep m pc j ≡ true) ⊎ (is_resigned (pc j) ≡ true)
      → (k : ℕ) × (is_active m' (update pc i p') k ≡ true)
  another p p' e off f free j s = let (k, on) = awake free j s in (k, ground arith)

module _ (m m' : Shared) (pc : ℕ → Pc) (inv : Inv m pc) (awake : Awake m pc) (i : ℕ) where
  -- With WAIT_BIT clear, who sleeps is about to be woken.
  unmarked :
      (p' : Pc)
      → pc i ≡ owner
      → m'.flags ≡ m.flags
      → is_waiting m.state ≡ false
      → (j : ℕ) → (is_asleep m pc j ≡ true) ⊎ (is_resigned (pc j) ≡ true)
      → (k : ℕ) × (is_active m' (update pc i p') k ≡ true)
  unmarked p' e f clear j (inl s) = elim (inv.sleeping j s) [
    | inl q ↦ cc (inv.marked j q)
    | inr (k, w) ↦ (k, ground arith)
  ]
  unmarked p' e f clear j (inr r) = cc (inv.resigned j r)

  -- With the queue empty and its lock free, nobody sleeps.
  nobody :
      m.queue ≡ []
      → m.queue_lock ≡ none
      → (j : ℕ) → (is_asleep m pc j ≡ true) ⊎ (is_resigned (pc j) ≡ true)
      → ⊥
  nobody empty unheld j (inl s) = elim (inv.sleeping j s) [
    | inl q ↦ ground (arith, empty)
    | inr (k, w) ↦ ground (arith, inv.guarded k)
  ]
  nobody empty unheld j (inr r) = ground (arith, inv.guarded j)

  pub Awake-kept : (a : Action) (p p' : Pc) → Moved m m' pc i a p p' → Awake m' (update pc i p')
  unfolding advance first_try next_try enter_queue should_sleep wake_up after_park start_unlock
      wake_sleeper clear_waiting
  Awake-kept (call try_lock) idle p' v free j s =
      another m m' pc awake i idle p' v.here refl (ground arith) (ground arith) j
        (ground (arith, v.here))
  Awake-kept (call c) idle p' v free j s = (i, ground arith)
  Awake-kept unlock owner p' v free j s = elim (Bool-cases (is_waiting m.state)) [
    | inl marked ↦ (i, ground arith)
    | inr clear ↦ unmarked p' v.here (ground arith) clear j (ground (arith, v.here))
  ]
  Awake-kept run (trying try_lock) p' v free j s =
      another m m' pc awake i (trying try_lock) p' v.here refl (ground arith) (ground arith) j
        (ground (arith, v.here))
  Awake-kept run (retrying try_lock st) p' v free j s =
      another m m' pc awake i (retrying try_lock st) p' v.here refl (ground arith) (ground arith) j
        (ground (arith, v.here))
  Awake-kept run (deciding c n) p' v free j s = elim (Bool-cases (n == contended)) [
    | inl over ↦
        another m m' pc awake i (deciding c n) p' v.here (ground arith) (ground arith)
          (ground arith) i (inr (ground (arith, v.here)))
    | inr more ↦ (i, ground (arith, inv.byte))
  ]
  Awake-kept run popping p' v free j s = elim (pop_sleeper-Pops m m' i p' v.step) [
    | inl n ↦ absurd (nobody n.empty n.free j (ground (arith, v.here, n.after, n.at)))
    | inr (r, z, t) ↦ (i, ground (arith, t.at))
  ]
  Awake-kept run (waking z l) p' v free j s = (z, ground (arith, v.here, inv.popped i z))
  Awake-kept run clearing p' v free j s =
      another m m' pc awake i clearing p' v.here refl (ground arith) (ground arith) j
        (ground (arith, v.here))
  Awake-kept a p p' v free j s = (i, ground (arith, inv.byte))
