-- ===== src/RawMutex/Mixed/Wakers.antt =====
-- A step keeps the fields on who wakes whom, and on WAIT_BIT.
use colock.Base.{mem, ℕ, ◌≡◌, true, false, [], arith, update, inl, inr}
use colock.RawMutex.Queue.{distinct-pop_last, mem-remove, remove}
use colock.RawMutex.Thread.{
  deciding, popping, waking, clearing, Shared, run, advance, first_try, next_try, enter_queue,
  should_sleep, wake_up, after_park, start_unlock, wake_sleeper, clear_waiting,
}
use colock.RawMutex.Mixed.{
  Place, calling, polling, Move, by_thread, run_it, drop_node, take_queue, go,
}
use colock.RawMutex.Plain.Defs.{in_queue}
use colock.RawMutex.Mixed.Exclusion.{as_thread}
use colock.RawMutex.Mixed.Defs.{MixedInv, Acted, wakes_at}
use colock.RawMutex.Mixed.Queued.{pops}

waker_inside :
    (place : ℕ → Place) (j w : ℕ)
    → wakes_at w (place j) ≡ true
    → in_queue (as_thread (place j)) ≡ true
waker_inside place j w k = ground arith

module _ {m m' : Shared} {place : ℕ → Place} (inv : MixedInv m place) (i : ℕ) where
  pub popped-kept :
      (v : Move) (p q : Place)
      → Acted m m' place i v p q
      → (j w : ℕ) → wakes_at w (update place i q j) ≡ true
      → mem w m'.queue ≡ false
  unfolding go advance first_try next_try enter_queue should_sleep wake_up after_park start_unlock
      wake_sleeper clear_waiting drop_node take_queue
  popped-kept (by_thread run) (calling popping) q s j w k = elim (pops m m' i q s.step) [
    | inl (at, n) ↦ ground (arith, n.after, at, inv.popped j w)
    | inr (r, z, at, t) ↦ ground (
      arith,
      t.after,
      at,
      t.free,
      distinct-pop_last m.queue r z t.tail inv.once,
      inv.base.guarded j,
      waker_inside place j w,
    )
  ]
  popped-kept (by_thread run) (calling (deciding c n)) q s j w k = ground (
    arith,
    inv.popped j w,
    s.here,
    waker_inside place j w,
    inv.base.guarded i,
    inv.base.guarded j,
  )
  popped-kept (by_thread a) (calling p) q s j w k = ground (arith, inv.popped j w, s.here)
  popped-kept run_it (polling p) q s j w k = ground (
    arith,
    inv.popped j w,
    s.here,
    waker_inside place j w,
    inv.base.guarded i,
    inv.base.guarded j,
  )
  popped-kept v p q s j w k =
      ground (arith, inv.popped j w, s.here, inv.once, mem-remove i w m.queue)

  pub last_out-kept :
      (v : Move) (p q : Place)
      → Acted m m' place i v p q
      → (j w : ℕ) → update place i q j ≡ calling (waking w true)
      → m'.queue ≡ []
  unfolding go advance first_try next_try enter_queue should_sleep wake_up after_park start_unlock
      wake_sleeper clear_waiting drop_node take_queue remove
  last_out-kept (by_thread run) (calling popping) q s j w k = elim (pops m m' i q s.step) [
    | inl (at, n) ↦ ground (arith, n.after, at, inv.last_out j w)
    | inr (r, z, at, t) ↦ ground (arith, t.after, at, t.free, inv.base.guarded j)
  ]
  last_out-kept (by_thread run) (calling (deciding c n)) q s j w k =
      ground (arith, inv.last_out j w, inv.base.guarded j, inv.base.guarded i, s.here)
  last_out-kept (by_thread a) (calling p) q s j w k = ground (arith, inv.last_out j w)
  last_out-kept run_it (polling p) q s j w k =
      ground (arith, inv.last_out j w, inv.base.guarded j, inv.base.guarded i, s.here)
  last_out-kept v p q s j w k = ground (arith, inv.last_out j w)

  pub cleared-kept :
      (v : Move) (p q : Place)
      → Acted m m' place i v p q
      → (j : ℕ) → update place i q j ≡ calling clearing
      → m'.queue ≡ []
  unfolding go advance first_try next_try enter_queue should_sleep wake_up after_park start_unlock
      wake_sleeper clear_waiting drop_node take_queue remove
  cleared-kept (by_thread run) (calling popping) q s j k = elim (pops m m' i q s.step) [
    | inl (at, n) ↦ ground (arith, n.after, at, inv.cleared j)
    | inr (r, z, at, t) ↦ ground (arith, t.after, at, t.free, inv.base.guarded j)
  ]
  cleared-kept (by_thread run) (calling (deciding c n)) q s j k =
      ground (arith, inv.cleared j, inv.base.guarded j, inv.base.guarded i, s.here)
  cleared-kept (by_thread run) (calling (waking z l)) q s j k =
      ground (arith, inv.cleared j, s.here, inv.last_out i z)
  cleared-kept (by_thread a) (calling p) q s j k = ground (arith, inv.cleared j)
  cleared-kept run_it (polling p) q s j k =
      ground (arith, inv.cleared j, inv.base.guarded j, inv.base.guarded i, s.here)
  cleared-kept v p q s j k = ground (arith, inv.cleared j)
