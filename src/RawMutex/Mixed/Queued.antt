-- ===== src/RawMutex/Mixed/Queued.antt =====
-- A step keeps the fields on the queue.
use colock.Base.{mem, distinct, ℕ, ◌≡◌, true, false, some, arith, update, inl, inr, ◌⊎◌, List}
use colock.RawMutex.Queue.{mem-pop_last, distinct-pop_last, mem-remove, distinct-remove}
use colock.RawMutex.Thread.{
  idle, popping, waking, Shared, run, advance, first_try, next_try, enter_queue, should_sleep,
  wake_up, after_park, start_unlock, pop_sleeper, wake_sleeper, clear_waiting, is_empty,
}
use colock.RawMutex.Plain.Popping.{Took, Missed, pop_sleeper-Pops}
use colock.RawMutex.Mixed.{
  Place, calling, polling, Move, by_thread, run_it, drop_node, take_queue, go, onwards,
}
use colock.RawMutex.Plain.Defs.{in_queue}
use colock.RawMutex.Mixed.Exclusion.{onwards-some, as_thread}
use colock.RawMutex.Mixed.Defs.{MixedInv, Acted, IsMixed, prepares, can_queue}

-- The two outcomes of the pop of `unlock`.
pub pops :
    (m m' : Shared) (i : ℕ) (q : Place)
    → onwards calling (pop_sleeper i m) ≡ some (m', q)
    → ((q ≡ calling idle) × Missed m m' idle)
      ⊎ ((r : List ℕ) × (w : ℕ) × (q ≡ calling (waking w (is_empty r)))
          × Took m m' i (waking w (is_empty r)) r w)
pops m m' i q h =
    let (p, e, at) = onwards-some calling (pop_sleeper i m) h in
    elim (pop_sleeper-Pops m m' i p e) [
      | inl n ↦ inl (cc (at, n.at), rw n.at at n)
      | inr (r, w, t) ↦ inr (r, w, cc (at, t.at), rw t.at at t)
    ]

module _ {m m' : Shared} {place : ℕ → Place} (inv : MixedInv m place) (i : ℕ) where
  pub places-kept : (v : Move) (p q : Place) → Acted m m' place i v p q → IsMixed q
  unfolding go advance first_try next_try enter_queue should_sleep wake_up after_park start_unlock
      pop_sleeper wake_sleeper clear_waiting drop_node take_queue
  places-kept (by_thread a) (calling p) q s = ground (arith, inv.base.byte)
  places-kept run_it (polling p) q s = ground (arith, inv.base.byte)
  places-kept v p q s = ground arith

  pub holder-kept :
      (v : Move) (p q : Place)
      → Acted m m' place i v p q
      → (j : ℕ) → m'.queue_lock ≡ some j
      → in_queue (as_thread (update place i q j)) ≡ true
  unfolding go advance first_try next_try enter_queue should_sleep wake_up after_park start_unlock
      wake_sleeper clear_waiting drop_node take_queue
  holder-kept (by_thread run) (calling popping) q s j h = elim (pops m m' i q s.step) [
    | inl (at, n) ↦ ground (arith, n.after, n.free)
    | inr (r, w, at, t) ↦ ground (arith, t.after, at)
  ]
  holder-kept (by_thread a) (calling p) q s j h = ground (arith, inv.holder j, s.here, s.usual)
  holder-kept run_it (polling p) q s j h = ground (arith, inv.holder j, s.here, s.usual)
  holder-kept v p q s j h = ground (arith, inv.holder j, s.here)

  pub quiet-kept :
      (v : Move) (p q : Place)
      → Acted m m' place i v p q
      → (j : ℕ) → prepares (update place i q j) ≡ true
      → m'.flags j ≡ false
  unfolding go advance first_try next_try enter_queue should_sleep wake_up after_park start_unlock
      pop_sleeper wake_sleeper clear_waiting drop_node take_queue
  quiet-kept (by_thread run) (calling (waking w l)) q s j h =
      ground (arith, inv.quiet j, inv.base.guarded j, inv.base.guarded i, s.here)
  quiet-kept (by_thread a) (calling p) q s j h = ground (arith, inv.quiet j, inv.quiet i, s.here)
  quiet-kept run_it (polling p) q s j h = ground (arith, inv.quiet j, s.here)
  quiet-kept v p q s j h = ground (arith, inv.quiet j, s.here)

  pub once-kept : (v : Move) (p q : Place) → Acted m m' place i v p q → distinct m'.queue ≡ true
  unfolding go advance first_try next_try enter_queue should_sleep wake_up after_park start_unlock
      wake_sleeper clear_waiting drop_node take_queue
  once-kept (by_thread run) (calling popping) q s = elim (pops m m' i q s.step) [
    | inl (at, n) ↦ ground (arith, n.after, inv.once)
    | inr (r, w, at, t) ↦ ground (arith, t.after, distinct-pop_last m.queue r w t.tail inv.once)
  ]
  once-kept (by_thread a) (calling p) q s =
      ground (arith, inv.once, inv.queued i, inv.quiet i, s.here)
  once-kept run_it (polling p) q s = ground (arith, inv.once, inv.queued i, s.here)
  once-kept v p q s = ground (arith, inv.once, distinct-remove i m.queue)

  pub queued-kept :
      (v : Move) (p q : Place)
      → Acted m m' place i v p q
      → (j : ℕ) → mem j m'.queue ≡ true
      → can_queue (update place i q j) (m'.flags j) ≡ true
  unfolding go advance first_try next_try enter_queue should_sleep wake_up after_park start_unlock
      wake_sleeper clear_waiting drop_node take_queue
  queued-kept (by_thread run) (calling popping) q s j k = elim (pops m m' i q s.step) [
    | inl (at, n) ↦ ground (arith, n.after, at, inv.queued j, s.here)
    | inr (r, w, at, t) ↦
        ground (arith, t.after, at, mem-pop_last m.queue r w t.tail j, inv.queued j, s.here)
  ]
  queued-kept (by_thread run) (calling (waking w l)) q s j k =
      ground (arith, inv.queued j, s.here, inv.popped i w)
  queued-kept (by_thread a) (calling p) q s j k = ground (arith, inv.queued j, s.here, inv.quiet i)
  queued-kept run_it (polling p) q s j k = ground (arith, inv.queued j, s.here)
  queued-kept v p q s j k = ground (arith, inv.queued j, s.here, inv.once, mem-remove i j m.queue)
