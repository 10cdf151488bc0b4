-- ===== src/RawMutex/Plain/Sleepers.antt =====
-- A step of thread `i` keeps the fields on the queue and on who sleeps.
use colock.Base.{mem, distinct, ℕ, ◌≡◌, true, false, arith, update, inl, inr}
use colock.RawMutex.Queue.{mem-pop_last, distinct-pop_last}
use colock.RawMutex.Thread.{
  Pc, idle, trying, deciding, popping, waking, Shared, Action, call, run, advance, first_try,
  next_try, enter_queue, should_sleep, wake_up, after_park, start_unlock, pop_sleeper, wake_sleeper,
  clear_waiting,
}
use colock.RawMutex.Plain.Defs.{in_push, is_asleep, Inv}
use colock.RawMutex.Plain.Excluded.{Moved}
use colock.RawMutex.Plain.Popping.{pop_sleeper-Pops}

module _ {m m' : Shared} {pc : ℕ → Pc} (inv : Inv m pc) (i : ℕ) where
  pub quiet-kept :
      (a : Action) (p p' : Pc)
      → Moved m m' pc i a p p'
      → (j : ℕ) → in_push (update pc i p' j) ≡ true
      → m'.flags j ≡ false
  unfolding advance first_try next_try enter_queue should_sleep wake_up after_park start_unlock
      pop_sleeper wake_sleeper clear_waiting
  quiet-kept (call c) idle p' v j q = ground (arith, inv.quiet j)
  quiet-kept run (trying c) p' v j q = ground (arith, inv.quiet j, inv.quiet i)
  quiet-kept run (waking w l) p' v j q = ground (arith, inv.quiet j, inv.guarded j, inv.guarded i)
  quiet-kept a p p' v j q = ground (arith, inv.quiet j, inv.quiet i)

  pub once-kept : (a : Action) (p p' : Pc) → Moved m m' pc i a p p' → distinct m'.queue ≡ true
  unfolding advance first_try next_try enter_queue should_sleep wake_up after_park start_unlock
      wake_sleeper clear_waiting
  once-kept (call c) idle p' v = ground (arith, inv.once)
  once-kept run (trying c) p' v = ground (arith, inv.once)
  once-kept run popping p' v = elim (pop_sleeper-Pops m m' i p' v.step) [
    | inl n ↦ ground (arith, n.after, n.at, inv.once)
    | inr (q, w, t) ↦ ground (arith, t.after, distinct-pop_last m.queue q w t.tail inv.once)
  ]
  once-kept a p p' v = ground (arith, inv.once, inv.queued i, v.here)

  pub queued-kept :
      (a : Action) (p p' : Pc)
      → Moved m m' pc i a p p'
      → (j : ℕ) → mem j m'.queue ≡ true
      → is_asleep m' (update pc i p') j ≡ true
  unfolding advance first_try next_try enter_queue should_sleep wake_up after_park start_unlock
      wake_sleeper clear_waiting
  queued-kept (call c) idle p' v j q = ground (arith, inv.queued j, v.here)
  queued-kept run (trying c) p' v j q = ground (arith, inv.queued j, v.here)
  queued-kept run (deciding c k) p' v j q = ground (arith, inv.queued j, v.here, inv.quiet i)
  queued-kept run popping p' v j q = elim (pop_sleeper-Pops m m' i p' v.step) [
    | inl n ↦ ground (arith, n.after, n.at, inv.queued j, v.here)
    | inr (r, w, t) ↦
        ground (arith, t.after, mem-pop_last m.queue r w t.tail j, inv.queued j, v.here)
  ]
  queued-kept run (waking w l) p' v j q = ground (arith, inv.queued j, v.here, inv.popped i w)
  queued-kept a p p' v j q = ground (arith, inv.queued j, v.here)
