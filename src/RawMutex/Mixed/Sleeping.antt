-- ===== src/RawMutex/Mixed/Sleeping.antt =====
-- A step keeps the fields on WAIT_BIT, and that every sleeper is queued or about to be woken.
use colock.Base.{mem, ℕ, ◌≡◌, ◌⊎◌, ◌==◌, true, arith, update, Bool-cases, inl, inr}
use colock.RawMutex.Flags.{is_waiting}
use colock.RawMutex.Queue.{mem-pop_last, mem-remove}
use colock.RawMutex.Thread.{
  popping, clearing, Shared, run, advance, first_try, next_try, enter_queue, should_sleep, wake_up,
  after_park, start_unlock, wake_sleeper, clear_waiting,
}
use colock.RawMutex.Mixed.{
  Place, calling, polling, Move, by_thread, run_it, drop_node, take_queue, go,
}
use colock.RawMutex.Plain.Defs.{in_queue}
use colock.RawMutex.Mixed.Exclusion.{as_thread}
use colock.RawMutex.Mixed.Defs.{MixedInv, Acted, wakes_at, has_resigned, is_asleep}
use colock.RawMutex.Mixed.Queued.{pops}

pub resigned_inside :
    (place : ℕ → Place) (j : ℕ)
    → has_resigned (place j) ≡ true
    → in_queue (as_thread (place j)) ≡ true
resigned_inside place j k = ground arith

module _ {m m' : Shared} {place : ℕ → Place} (inv : MixedInv m place) (i : ℕ) where
  pub marked-kept :
      (v : Move) (p q : Place)
      → Acted m m' place i v p q
      → (j : ℕ) → mem j m'.queue ≡ true
      → is_waiting m'.state ≡ true
  unfolding go advance first_try next_try enter_queue should_sleep wake_up after_park start_unlock
      wake_sleeper clear_waiting drop_node take_queue
  marked-kept (by_thread run) (calling popping) q s j k = elim (pops m m' i q s.step) [
    | inl (at, n) ↦ ground (arith, n.after, inv.marked j)
    | inr (r, z, at, t) ↦ ground (arith, t.after, inv.marked j, mem-pop_last m.queue r z t.tail j)
  ]
  marked-kept (by_thread run) (calling clearing) q s j k = ground (arith, inv.cleared i s.here)
  marked-kept (by_thread a) (calling p) q s j k =
      ground (arith, inv.marked j, inv.base.byte, inv.resigned i, s.here)
  marked-kept run_it (polling p) q s j k =
      ground (arith, inv.marked j, inv.base.byte, inv.resigned i, s.here)
  marked-kept v p q s j k = ground (arith, inv.marked j, inv.once, mem-remove i j m.queue)

  pub resigned-kept :
      (v : Move) (p q : Place)
      → Acted m m' place i v p q
      → (j : ℕ) → has_resigned (update place i q j) ≡ true
      → is_waiting m'.state ≡ true
  unfolding go advance first_try next_try enter_queue should_sleep wake_up after_park start_unlock
      wake_sleeper clear_waiting drop_node take_queue
  resigned-kept (by_thread run) (calling popping) q s j k = elim (pops m m' i q s.step) [
    | inl (at, n) ↦ ground (arith, n.after, at, inv.resigned j)
    | inr (r, z, at, t) ↦ ground (arith, t.after, at, inv.resigned j)
  ]
  resigned-kept (by_thread run) (calling clearing) q s j k =
      ground (arith, inv.base.guarded i, inv.base.guarded j, s.here, resigned_inside place j)
  resigned-kept (by_thread a) (calling p) q s j k = ground (arith, inv.resigned j, inv.base.byte)
  resigned-kept run_it (polling p) q s j k = ground (arith, inv.resigned j, inv.base.byte)
  resigned-kept v p q s j k = ground (arith, inv.resigned j)

  pub sleeping-kept :
      (v : Move) (p q : Place)
      → Acted m m' place i v p q
      → (j : ℕ) → is_asleep m' (update place i q) j ≡ true
      → (mem j m'.queue ≡ true) ⊎ ((k : ℕ) × (wakes_at j (update place i q k) ≡ true))
  unfolding go advance first_try next_try enter_queue should_sleep wake_up after_park start_unlock
      wake_sleeper clear_waiting drop_node take_queue
  sleeping-kept (by_thread run) (calling popping) q s j h = elim (pops m m' i q s.step) [
    | inl (at, n) ↦ elim (inv.sleeping j (ground (arith, s.here, n.after, at))) [
      | inl z ↦ inl (ground (arith, n.after))
      | inr (k, w) ↦ inr (k, ground (arith, s.here))
    ]
    | inr (r, z, at, t) ↦ elim (inv.sleeping j (ground (arith, s.here, t.after, at))) [
      | inl x ↦ elim (Bool-cases (j == z)) [
        | inl same ↦ inr (i, ground (arith, at))
        | inr other ↦ inl (ground (arith, t.after, mem-pop_last m.queue r z t.tail j))
      ]
      | inr (k, w) ↦ inr (k, ground (arith, s.here))
    ]
  ]
  sleeping-kept (by_thread a) (calling p) q s j h = elim (Bool-cases (j == i)) [
    | inl same ↦ inl (ground (arith, s.here))
    | inr other ↦ elim (inv.sleeping j (ground (arith, s.here))) [
      | inl x ↦ inl (ground arith)
      | inr (k, w) ↦ inr (k, ground (arith, s.here))
    ]
  ]
  sleeping-kept run_it (polling p) q s j h = elim (Bool-cases (j == i)) [
    | inl same ↦ inl (ground (arith, s.here))
    | inr other ↦ elim (inv.sleeping j (ground (arith, s.here))) [
      | inl x ↦ inl (ground arith)
      | inr (k, w) ↦ inr (k, ground (arith, s.here))
    ]
  ]
  sleeping-kept v p q s j h = elim (Bool-cases (j == i)) [
    | inl same ↦ absurd (ground (arith, s.here))
    | inr other ↦ elim (inv.sleeping j (ground (arith, s.here))) [
      | inl x ↦ inl (ground (arith, inv.once, mem-remove i j m.queue))
      | inr (k, w) ↦ inr (k, ground (arith, s.here))
    ]
  ]
