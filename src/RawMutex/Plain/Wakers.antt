-- ===== src/RawMutex/Plain/Wakers.antt =====
-- A step of thread `i` keeps the fields on who wakes whom, and on WAIT_BIT.
use colock.Base.{mem, ℕ, ◌≡◌, refl, true, false, List, [], arith, update, inl, inr}
use colock.RawMutex.Flags.{is_waiting}
use colock.RawMutex.Queue.{mem-pop_last, distinct-pop_last}
use colock.RawMutex.Thread.{
  Pc, idle, trying, pushing, deciding, popping, waking, clearing, Shared, Action, call, run,
  advance, first_try, next_try, enter_queue, should_sleep, wake_up, after_park, start_unlock,
  wake_sleeper, clear_waiting,
}
use colock.RawMutex.Plain.Defs.{in_queue, is_asleep, wakes, is_resigned, Inv}
use colock.RawMutex.Plain.Excluded.{Moved}
use colock.RawMutex.Plain.Popping.{Took, pop_sleeper-Pops}

module _ {m : Shared} {pc : ℕ → Pc} (inv : Inv m pc) (i : ℕ) where
  -- A thread at any of these places has the queue's lock, so it is the only one.
  alone : (p : Pc) → pc i ≡ p → in_queue p ≡ true → (j : ℕ) → in_queue (pc j) ≡ true → j ≡ i
  alone p e q j r = ground (arith, inv.guarded i, inv.guarded j)

waker_in_queue : (pc : ℕ → Pc) (j w : ℕ) → wakes w (pc j) ≡ true → in_queue (pc j) ≡ true
waker_in_queue pc j w k = ground arith

module _ {m m' : Shared} {pc : ℕ → Pc} (inv : Inv m pc) (i : ℕ) where
  pub popped-kept :
      (a : Action) (p p' : Pc)
      → Moved m m' pc i a p p'
      → (j w : ℕ) → wakes w (update pc i p' j) ≡ true
      → (is_asleep m' (update pc i p') w ≡ true) × (mem w m'.queue ≡ false)
  unfolding advance first_try next_try enter_queue should_sleep wake_up after_park start_unlock
      wake_sleeper clear_waiting
  popped-kept (call c) idle p' v j w k = ground (arith, inv.popped j w, v.here)
  popped-kept run (trying c) p' v j w k = ground (arith, inv.popped j w, v.here)
  popped-kept run (pushing c) p' v j w k =
      ground (arith, inv.popped j w, v.here, inv.guarded j, waker_in_queue pc j w)
  popped-kept run (deciding c n) p' v j w k = ground (
    arith,
    inv.popped j w,
    v.here,
    waker_in_queue pc j w,
    alone inv i (deciding c n) v.here refl j,
  )
  popped-kept run popping p' v j w k = elim (pop_sleeper-Pops m m' i p' v.step) [
    | inl n ↦ ground (arith, n.after, n.at, inv.popped j w, v.here)
    | inr (r, z, t) ↦ popping_kept r z t
  ]
    where
      popping_kept :
          (r : List ℕ) (z : ℕ)
          → Took m m' i p' r z
          → (is_asleep m' (update pc i p') w ≡ true) × (mem w m'.queue ≡ false)
      popping_kept r z t = ground (
        arith,
        t.after,
        t.at,
        t.free,
        mem-pop_last m.queue r z t.tail z,
        inv.queued z,
        v.here,
        distinct-pop_last m.queue r z t.tail inv.once,
        inv.guarded j,
        waker_in_queue pc j w,
      )
  popped-kept run (waking z l) p' v j w k =
      ground (
        arith,
        inv.popped j w,
        v.here,
        waker_in_queue pc j w,
        alone inv i (waking z l) v.here refl j,
      )
  popped-kept a p p' v j w k = ground (arith, inv.popped j w, v.here)

  pub cleared-kept :
      (a : Action) (p p' : Pc)
      → Moved m m' pc i a p p'
      → (j : ℕ) → update pc i p' j ≡ clearing
      → m'.queue ≡ []
  unfolding advance first_try next_try enter_queue should_sleep wake_up after_park start_unlock
      wake_sleeper clear_waiting
  cleared-kept (call c) idle p' v j k = ground (arith, inv.cleared j)
  cleared-kept run (trying c) p' v j k = ground (arith, inv.cleared j)
  cleared-kept run (deciding c n) p' v j k =
      ground (arith, inv.cleared j, inv.guarded j, inv.guarded i, v.here)
  cleared-kept run popping p' v j k = elim (pop_sleeper-Pops m m' i p' v.step) [
    | inl n ↦ ground (arith, n.after, n.at, inv.cleared j)
    | inr (r, z, t) ↦ ground (arith, t.after, t.at, t.free, inv.guarded j)
  ]
  cleared-kept run (waking z l) p' v j k = ground (arith, inv.cleared j, v.here, inv.last_out i z)
  cleared-kept a p p' v j k = ground (arith, inv.cleared j)

  pub last_out-kept :
      (a : Action) (p p' : Pc)
      → Moved m m' pc i a p p'
      → (j w : ℕ) → update pc i p' j ≡ waking w true
      → m'.queue ≡ []
  unfolding advance first_try next_try enter_queue should_sleep wake_up after_park start_unlock
      wake_sleeper clear_waiting
  last_out-kept (call c) idle p' v j w k = ground (arith, inv.last_out j w)
  last_out-kept run (trying c) p' v j w k = ground (arith, inv.last_out j w)
  last_out-kept run (deciding c n) p' v j w k =
      ground (arith, inv.last_out j w, inv.guarded j, inv.guarded i, v.here)
  last_out-kept run popping p' v j w k = elim (pop_sleeper-Pops m m' i p' v.step) [
    | inl n ↦ ground (arith, n.after, n.at, inv.last_out j w)
    | inr (r, z, t) ↦ ground (arith, t.after, t.at, t.free, inv.guarded j)
  ]
  last_out-kept a p p' v j w k = ground (arith, inv.last_out j w)

  pub marked-kept :
      (a : Action) (p p' : Pc)
      → Moved m m' pc i a p p'
      → (j : ℕ) → mem j m'.queue ≡ true
      → is_waiting m'.state ≡ true
  unfolding advance first_try next_try enter_queue should_sleep wake_up after_park start_unlock
      wake_sleeper clear_waiting
  marked-kept (call c) idle p' v j k = ground (arith, inv.marked j)
  marked-kept run (trying c) p' v j k = ground (arith, inv.marked j, inv.byte)
  marked-kept run (deciding c n) p' v j k =
      ground (arith, inv.marked j, inv.byte, inv.resigned i, v.here)
  marked-kept run popping p' v j k = elim (pop_sleeper-Pops m m' i p' v.step) [
    | inl n ↦ ground (arith, n.after, n.at, inv.marked j)
    | inr (r, z, t) ↦ ground (arith, t.after, inv.marked j, mem-pop_last m.queue r z t.tail j)
  ]
  marked-kept run clearing p' v j k = ground (arith, inv.cleared i v.here)
  marked-kept a p p' v j k = ground (arith, inv.marked j, inv.byte)

  pub resigned-kept :
      (a : Action) (p p' : Pc)
      → Moved m m' pc i a p p'
      → (j : ℕ) → is_resigned (update pc i p' j) ≡ true
      → is_waiting m'.state ≡ true
  unfolding advance first_try next_try enter_queue should_sleep wake_up after_park start_unlock
      wake_sleeper clear_waiting
  resigned-kept (call c) idle p' v j k = ground (arith, inv.resigned j)
  resigned-kept run (trying c) p' v j k = ground (arith, inv.resigned j, inv.byte)
  resigned-kept run popping p' v j k = elim (pop_sleeper-Pops m m' i p' v.step) [
    | inl n ↦ ground (arith, n.after, n.at, inv.resigned j)
    | inr (r, z, t) ↦ ground (arith, t.after, t.at, inv.resigned j)
  ]
  resigned-kept run clearing p' v j k = ground (arith, inv.guarded i, inv.guarded j, v.here)
  resigned-kept a p p' v j k = ground (arith, inv.resigned j, inv.byte)
