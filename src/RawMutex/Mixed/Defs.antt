-- ===== src/RawMutex/Mixed/Defs.antt =====
-- The invariant of threads and tasks at one mutex, with no time limits, no fair hand-over, and no
-- pending future dropped.
use colock.Base.{mem, distinct, ℕ, ◌≡◌, ◌⊎◌, Bool, true, false, not, ◌&&◌, [], some}
use colock.RawMutex.Flags.{is_locked, is_waiting}
use colock.RawMutex.Thread.{
  Pc, trying, retrying, pushing, loading, deciding, parked, waking, clearing, lock, Shared,
}
use colock.RawMutex.System.{plain}
use colock.RawMutex.Timed.{Held}
use colock.RawMutex.Plain.Defs.{IsPlain, in_queue, in_push, is_resigned, active_at, wakes}
use colock.RawMutex.Mixed.{
  Place, calling, polling, replacing, pending, finished, dropping, Move, lets, go,
}
use colock.RawMutex.Mixed.Exclusion.{as_thread}

-- Where a poll can stand.
abbrev pub IsPolled : Pc → Type 0
IsPolled (trying lock) = Unit
IsPolled (retrying lock _) = Unit
IsPolled (pushing lock) = Unit
IsPolled (loading lock) = Unit
IsPolled (deciding lock _) = Unit
IsPolled _ = ⊥

abbrev pub IsMixed : Place → Type 0
IsMixed (calling p) = IsPlain p
IsMixed (polling p) = IsPlain p × IsPolled p
IsMixed dropping = ⊥
IsMixed _ = Unit

-- Where a wake-up is waited for.
abbrev pub rests : Place → Bool
rests (calling (parked _)) = true
rests pending = true
rests _ = false

abbrev pub is_asleep : Shared → (ℕ → Place) → ℕ → Bool
is_asleep m place i = rests (place i) && not (m.flags i)

-- In `should_sleep`, of a thread.
abbrev pub prepares : Place → Bool
prepares (calling p) = in_push p
prepares _ = false

abbrev pub has_resigned : Place → Bool
has_resigned (calling p) = is_resigned p
has_resigned (polling p) = is_resigned p
has_resigned _ = false

-- Where a task tries for the lock while the node of its last poll may be queued.
abbrev pub retries : Place → Bool
retries (polling (trying _)) = true
retries (polling (retrying _ _)) = true
retries replacing = true
retries _ = false

-- Where the node can be queued: that of a thread only until it is woken.
abbrev pub can_queue : Place → Bool → Bool
can_queue (calling (parked _)) flag = not flag
can_queue pending flag = true
can_queue finished flag = true
can_queue p flag = retries p

-- Where a wake-up is of use.
abbrev pub can_wake : Place → Bool
can_wake (calling (parked _)) = true
can_wake pending = true
can_wake p = retries p

abbrev pub wakes_at : ℕ → Place → Bool
wakes_at w (calling p) = wakes w p
wakes_at w _ = false

-- On its way to try for the lock, or to wake one that will, unless it takes the lock first.
abbrev pub on_way : Place → Bool → (ℕ → Bool) → Bool
on_way (calling (waking w _)) flag of_use = of_use w
on_way (calling p) flag of_use = active_at p flag
on_way (polling p) flag of_use = active_at p flag
on_way replacing flag of_use = true
on_way pending flag of_use = flag
on_way finished flag of_use = false
on_way dropping flag of_use = false

abbrev pub is_active : Shared → (ℕ → Place) → ℕ → Bool
is_active m place i = on_way (place i) (m.flags i) (λ w. can_wake (place w))

pub record MixedInv (m : Shared) (place : ℕ → Place) : Type 0 where
  pub base : Held m (λ i. as_thread (place i))
  pub places : (i : ℕ) → IsMixed (place i)
  pub holder : (i : ℕ) → m.queue_lock ≡ some i → in_queue (as_thread (place i)) ≡ true
  pub once : distinct m.queue ≡ true
  pub quiet : (i : ℕ) → prepares (place i) ≡ true → m.flags i ≡ false
  pub queued : (i : ℕ) → mem i m.queue ≡ true → can_queue (place i) (m.flags i) ≡ true
  pub popped : (i w : ℕ) → wakes_at w (place i) ≡ true → mem w m.queue ≡ false
  pub last_out : (i w : ℕ) → place i ≡ calling (waking w true) → m.queue ≡ []
  pub cleared : (i : ℕ) → place i ≡ calling clearing → m.queue ≡ []
  pub marked : (i : ℕ) → mem i m.queue ≡ true → is_waiting m.state ≡ true
  pub resigned : (i : ℕ) → has_resigned (place i) ≡ true → is_waiting m.state ≡ true
  pub sleeping :
      (i : ℕ)
      → is_asleep m place i ≡ true
      → (mem i m.queue ≡ true) ⊎ ((j : ℕ) × (wakes_at i (place j) ≡ true))

-- While the lock is free and a thread or task sleeps, or is about to, some other is on its way.
abbrev pub MixedAwake : Shared → (ℕ → Place) → Type 0
MixedAwake m place =
    is_locked m.state ≡ false
    → (i : ℕ) → (is_asleep m place i ≡ true) ⊎ (has_resigned (place i) ≡ true)
    → (j : ℕ) × (is_active m place j ≡ true)

-- Thread or task `i` goes from `p` to `q`.
pub record Acted (m m' : Shared) (place : ℕ → Place) (i : ℕ) (v : Move) (p q : Place) : Type 0 where
  pub here : place i ≡ p
  pub usual : IsMixed p
  pub allowed : lets plain false v ≡ true
  pub step : go i v p m ≡ some (m', q)
