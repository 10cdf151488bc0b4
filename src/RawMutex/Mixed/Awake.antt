-- ===== src/RawMutex/Mixed/Awake.antt =====
-- A step keeps some thread or task on its way while the lock is free.
use colock.Base.{
  ℕ, ◌≡◌, refl, Bool, true, false, ◌⊎◌, [], ◌==◌, none, arith, update, Bool-cases, eq_of_test, inl,
  inr,
}
use colock.RawMutex.Flags.{contended, is_waiting}
use colock.RawMutex.Thread.{
  try_lock, idle, trying, retrying, deciding, parked, owner, popping, waking, clearing, Shared,
  call, unlock, run, advance, first_try, next_try, enter_queue, should_sleep, wake_up, after_park,
  start_unlock, wake_sleeper, clear_waiting,
}
use colock.RawMutex.Queue.{mem-pop_last}
use colock.RawMutex.Mixed.{
  Place, calling, polling, pending, finished, Move, by_thread, run_it, drop_node, take_queue, go,
}
use colock.RawMutex.Mixed.Defs.{
  MixedInv, MixedAwake, Acted, has_resigned, is_asleep, on_way, is_active, can_wake,
}
use colock.RawMutex.Mixed.Queued.{pops}
use colock.RawMutex.Mixed.Sleeping.{resigned_inside}

abbrev Sleeper : Shared → (ℕ → Place) → ℕ → Type 0
Sleeper m place j = (is_asleep m place j ≡ true) ⊎ (has_resigned (place j) ≡ true)

abbrev Someone : Shared → (ℕ → Place) → Type 0
Someone m place = (k : ℕ) × (is_active m place k ≡ true)

-- More flags that are up, and more who wait for a wake-up, leave nobody idle.
way-more :
    (r : Place) (f g : Bool) (old new : ℕ → Bool)
    → (f ≡ true → g ≡ true)
    → ((w : ℕ) → old w ≡ true → new w ≡ true)
    → on_way r f old ≡ true
    → on_way r g new ≡ true
way-more (calling (waking w l)) f g old new up more h = more w h
way-more (calling (parked c)) f g old new up more h = up h
way-more (polling (parked c)) f g old new up more h = up h
way-more pending f g old new up more h = up h
way-more r f g old new up more h = ground arith

module _ (m m' : Shared) (place : ℕ → Place) (i : ℕ) (p q : Place) (here : place i ≡ p) where
  use-kept :
      (can_wake p ≡ true → can_wake q ≡ true)
      → (w : ℕ) → can_wake (place w) ≡ true
      → can_wake (update place i q w) ≡ true
  use-kept still w h = elim (Bool-cases (w == i)) [
    | inl same ↦ rw same (still (rw (eq_of_test w i same, here) at h))
    | inr other ↦ rw other h
  ]

  -- Who was on its way goes on, where the flags stay and what waited for a wake-up still does.
  carried :
      m'.flags ≡ m.flags
      → (can_wake p ≡ true → can_wake q ≡ true)
      → on_way p (m.flags i) (λ w. can_wake (place w)) ≡ false
      → Someone m place
      → Someone m' (update place i q)
  carried same still off (k, on) = elim (Bool-cases (k == i)) [
    | inl self ↦ cc (off, rw (eq_of_test k i self, here) at on)
    | inr other ↦ (
      k,
      rw (other, same)
          (way-more (place k) (m.flags k) (m.flags k) _ _ (λ u. u) (use-kept still) on),
    )
  ]

module _ (m m' : Shared) (place : ℕ → Place) (inv : MixedInv m place) (awake : MixedAwake m place)
    (i : ℕ) where
  -- With WAIT_BIT clear, who sleeps is about to be woken.
  unmarked :
      (q : Place)
      → place i ≡ calling owner
      → m'.flags ≡ m.flags
      → is_waiting m.state ≡ false
      → (j : ℕ) → Sleeper m place j
      → Someone m' (update place i q)
  unmarked q e f clear j (inl s) = elim (inv.sleeping j s) [
    | inl x ↦ cc (inv.marked j x)
    | inr (k, w) ↦ (k, ground arith)
  ]
  unmarked q e f clear j (inr r) = cc (inv.resigned j r)

  -- With the queue empty and its lock free, nobody sleeps.
  nobody : m.queue ≡ [] → m.queue_lock ≡ none → (j : ℕ) → Sleeper m place j → ⊥
  nobody empty unheld j (inl s) = elim (inv.sleeping j s) [
    | inl x ↦ ground (arith, empty)
    | inr (k, w) ↦ ground (arith, inv.base.guarded k)
  ]
  nobody empty unheld j (inr r) = ground (arith, inv.base.guarded j, resigned_inside place j)

  -- A sleeper that was just called, with its flag up, is on its way.
  called :
      (z : ℕ) (l : Bool) (q : Place)
      → place i ≡ calling (waking z l)
      → m'.flags ≡ update m.flags z true
      → Someone m place
      → Someone m' (update place i q)
  called z l q e f (k, on) = elim (Bool-cases (k == i)) [
    | inl self ↦ (z, ground (arith, inv.places z))
    | inr other ↦ (
      k,
      rw other (
          way-more (place k) (m.flags k) (m'.flags k) _ _ (λ u. ground arith)
            (use-kept m m' place i (calling (waking z l)) q e (λ h. cc h)) on),
    )
  ]

  pub MixedAwake-kept :
      (v : Move) (p q : Place) → Acted m m' place i v p q → MixedAwake m' (update place i q)
  unfolding go advance first_try next_try enter_queue should_sleep wake_up after_park start_unlock
      wake_sleeper clear_waiting drop_node take_queue
  MixedAwake-kept (by_thread (call try_lock)) (calling idle) q s free j z =
      carried m m' place i (calling idle) q s.here (ground arith) (λ h. cc h) refl
        (awake (ground arith) j (ground (arith, s.here)))
  MixedAwake-kept (by_thread (call c)) (calling idle) q s free j z = (i, ground arith)
  MixedAwake-kept (by_thread unlock) (calling owner) q s free j z =
      elim (Bool-cases (is_waiting m.state)) [
        | inl marked ↦ (i, ground arith)
        | inr clear ↦ unmarked q s.here (ground arith) clear j (ground (arith, s.here))
      ]
  MixedAwake-kept (by_thread run) (calling (trying try_lock)) q s free j z =
      carried m m' place i (calling (trying try_lock)) q s.here (ground arith) (λ h. cc h) refl
        (awake (ground arith) j (ground (arith, s.here)))
  MixedAwake-kept (by_thread run) (calling (retrying try_lock n)) q s free j z =
      carried m m' place i (calling (retrying try_lock n)) q s.here (ground arith) (λ h. cc h) refl
        (awake (ground arith) j (ground (arith, s.here)))
  MixedAwake-kept (by_thread run) (calling (deciding c n)) q s free j z =
      elim (Bool-cases (n == contended)) [
        | inl over ↦
            carried m m' place i (calling (deciding c n)) q s.here (ground arith) (λ h. cc h)
              (ground arith) (awake (ground arith) i (inr (ground (arith, s.here))))
        | inr more ↦ (i, ground (arith, inv.base.byte))
      ]
  MixedAwake-kept (by_thread run) (calling popping) q s free j z = elim (pops m m' i q s.step) [
    | inl (at, n) ↦ absurd (nobody n.empty n.free j (ground (arith, s.here, n.after, at)))
    | inr (r, w, at, t) ↦ (
      i,
      ground (
        arith,
        s.here,
        t.after,
        at,
        mem-pop_last m.queue r w t.tail w,
        inv.queued w,
        inv.base.held w,
      ),
    )
  ]
  MixedAwake-kept (by_thread run) (calling (waking w l)) q s free j z =
      called w l q s.here (ground arith) (awake (ground arith) j (ground (arith, s.here)))
  MixedAwake-kept (by_thread run) (calling clearing) q s free j z =
      carried m m' place i (calling clearing) q s.here (ground arith) (λ h. cc h) refl
        (awake (ground arith) j (ground (arith, s.here)))
  MixedAwake-kept (by_thread a) (calling p) q s free j z = (i, ground (arith, inv.base.byte))
  MixedAwake-kept run_it (polling (deciding c n)) q s free j z =
      elim (Bool-cases (n == contended)) [
        | inl over ↦
            carried m m' place i (polling (deciding c n)) q s.here (ground arith) (λ h. cc h)
              (ground arith) (awake (ground arith) i (inr (ground (arith, s.here))))
        | inr more ↦ (i, ground (arith, inv.base.byte))
      ]
  MixedAwake-kept run_it finished q s free j z = absurd (ground (arith, inv.base.held i, s.here))
  MixedAwake-kept v p q s free j z = (i, ground (arith, inv.base.byte))
