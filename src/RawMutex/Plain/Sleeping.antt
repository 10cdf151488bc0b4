-- ===== src/RawMutex/Plain/Sleeping.antt =====
-- A step of thread `i` keeps the fields that every sleeper is queued or about to be woken.
use colock.Base.{mem, ℕ, ◌≡◌, true, ◌⊎◌, ◌==◌, arith, update, Bool-cases, inl, inr}
use colock.RawMutex.Queue.{mem-pop_last}
use colock.RawMutex.Thread.{
  Pc, idle, trying, deciding, popping, waking, Shared, Action, call, run, advance, first_try,
  next_try, enter_queue, should_sleep, wake_up, after_park, start_unlock, wake_sleeper,
  clear_waiting,
}
use colock.RawMutex.Plain.Defs.{is_asleep, wakes, Inv}
use colock.RawMutex.Plain.Excluded.{Moved}
use colock.RawMutex.Plain.Popping.{pop_sleeper-Pops}

module _ {m m' : Shared} {pc : ℕ → Pc} (inv : Inv m pc) (i : ℕ) where
  pub sleeping-kept :
      (a : Action) (p p' : Pc)
      → Moved m m' pc i a p p'
      → (j : ℕ) → is_asleep m' (update pc i p') j ≡ true
      → (mem j m'.queue ≡ true) ⊎ ((k : ℕ) × (wakes j (update pc i p' k) ≡ true))
  unfolding advance first_try next_try enter_queue should_sleep wake_up after_park start_unlock
      wake_sleeper clear_waiting
  sleeping-kept (call c) idle p' v j s = elim (inv.sleeping j (ground (arith, v.here))) [
    | inl q ↦ inl (ground arith)
    | inr (k, w) ↦ inr (k, ground (arith, v.here))
  ]
  sleeping-kept run (trying c) p' v j s = elim (inv.sleeping j (ground (arith, v.here))) [
    | inl q ↦ inl (ground arith)
    | inr (k, w) ↦ inr (k, ground (arith, v.here))
  ]
  sleeping-kept run (deciding c n) p' v j s = elim (Bool-cases (j == i)) [
    | inl same ↦ inl (ground (arith, v.here))
    | inr other ↦ elim (inv.sleeping j (ground (arith, v.here))) [
      | inl q ↦ inl (ground arith)
      | inr (k, w) ↦ inr (k, ground (arith, v.here))
    ]
  ]
  sleeping-kept run popping p' v j s = elim (pop_sleeper-Pops m m' i p' v.step) [
    | inl n ↦ elim (inv.sleeping j (ground (arith, v.here, n.after, n.at))) [
      | inl q ↦ inl (ground (arith, n.after))
      | inr (k, w) ↦ inr (k, ground (arith, v.here))
    ]
    | inr (r, z, t) ↦ elim (inv.sleeping j (ground (arith, v.here, t.after, t.at))) [
      | inl q ↦ elim (Bool-cases (j == z)) [
        | inl same ↦ inr (i, ground (arith, t.at))
        | inr other ↦ inl (ground (arith, t.after, mem-pop_last m.queue r z t.tail j))
      ]
      | inr (k, w) ↦ inr (k, ground (arith, v.here))
    ]
  ]
  sleeping-kept run (waking z l) p' v j s = elim (inv.sleeping j (ground (arith, v.here))) [
    | inl q ↦ inl (ground arith)
    | inr (k, w) ↦ inr (k, ground (arith, v.here))
  ]
  sleeping-kept a p p' v j s = elim (inv.sleeping j (ground (arith, v.here))) [
    | inl q ↦ inl (ground arith)
    | inr (k, w) ↦ inr (k, ground (arith, v.here))
  ]
