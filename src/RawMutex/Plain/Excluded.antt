-- ===== src/RawMutex/Plain/Excluded.antt =====
-- A step of thread `i` keeps the fields on ownership and on the queue's lock.
use colock.Base.{refl, ℕ, ◌<◌, ◌≡◌, true, some, arith, update}
use colock.RawMutex.Flags.{is_locked}
use colock.RawMutex.Thread.{
  Pc, idle, trying, retrying, Shared, Action, call, run, advance, first_try, next_try, enter_queue,
  should_sleep, wake_up, after_park, start_unlock, pop_sleeper, wake_sleeper, clear_waiting,
}
use colock.RawMutex.System.{plain, allows}
use colock.RawMutex.Timed
use colock.RawMutex.Timed.{IsTimed, Held, Went, allowed_unfair}
use colock.RawMutex.Plain.Defs.{is_owner, in_queue, IsPlain, Inv}

-- Thread `i` goes from `p` to `p'` while the memory goes from `m` to `m'`.
pub record Moved (m m' : Shared) (pc : ℕ → Pc) (i : ℕ) (a : Action) (p p' : Pc) : Type 0 where
  pub here : pc i ≡ p
  pub usual : IsPlain p
  pub plainly : allows plain a ≡ true
  pub step : advance i a p m ≡ some (m', p')

IsPlain-IsTimed : (p : Pc) → IsPlain p → IsTimed p
IsPlain-IsTimed (retrying c state) h = h
IsPlain-IsTimed p h = ground arith

Inv-Held : {m : Shared} {pc : ℕ → Pc} → Inv m pc → Held m pc
Inv-Held {pc} inv = record {
  byte = inv.byte;
  places = λ i. IsPlain-IsTimed (pc i) (inv.places i);
  one_owner = inv.one_owner;
  held = inv.held;
  guarded = inv.guarded;
}

module _ {m m' : Shared} {pc : ℕ → Pc} {i : ℕ} {a : Action} {p p' : Pc} where
  Moved-Went : Moved m m' pc i a p p' → Went m m' pc i a p p'
  Moved-Went v = record {
    here = v.here;
    usual = IsPlain-IsTimed p v.usual;
    allowed = allowed_unfair plain a refl v.plainly;
    step = v.step;
  }

module _ {m m' : Shared} {pc : ℕ → Pc} (inv : Inv m pc) (i : ℕ) where
  pub byte-kept : (a : Action) (p p' : Pc) → Moved m m' pc i a p p' → (m'.state < 4) × IsPlain p'
  unfolding advance first_try next_try enter_queue should_sleep wake_up after_park start_unlock
      pop_sleeper wake_sleeper clear_waiting
  byte-kept (call c) idle p' v = ground (arith, inv.byte)
  byte-kept run (trying c) p' v = ground (arith, inv.byte)
  byte-kept a p p' v = ground (arith, inv.byte)

  pub one_owner-kept :
      (a : Action) (p p' : Pc)
      → Moved m m' pc i a p p'
      → (j k : ℕ) → is_owner (update pc i p' j) ≡ true
      → is_owner (update pc i p' k) ≡ true
      → j ≡ k
  one_owner-kept a p p' v = Timed.one_owner-kept (Inv-Held inv) i a p p' (Moved-Went v)

  pub held-kept :
      (a : Action) (p p' : Pc)
      → Moved m m' pc i a p p'
      → (j : ℕ) → is_owner (update pc i p' j) ≡ true
      → is_locked m'.state ≡ true
  held-kept a p p' v = Timed.held-kept (Inv-Held inv) i a p p' (Moved-Went v)

  pub guarded-kept :
      (a : Action) (p p' : Pc)
      → Moved m m' pc i a p p'
      → (j : ℕ) → in_queue (update pc i p' j) ≡ true
      → m'.queue_lock ≡ some j
  guarded-kept a p p' v = Timed.guarded-kept (Inv-Held inv) i a p p' (Moved-Went v)
