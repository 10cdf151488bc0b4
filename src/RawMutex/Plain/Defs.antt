-- ===== src/RawMutex/Plain/Defs.antt =====
-- The invariant of a mutex that is locked and unlocked with no time limits and no fair hand-over.
use colock.Base.{mem, distinct, ℕ, ◌<◌, ◌≡◌, Bool, true, false, not, ◌&&◌, ◌⊎◌, [], ◌==◌, some}
use colock.RawMutex.Flags.{contended, is_locked, is_waiting}
use colock.RawMutex.Thread.{
  try_lock, Pc, trying, retrying, pushing, loading, deciding, parked, woken, handed, owner,
  timed_out, popping, waking, clearing, fair_marking, fair_flipping, fair_waking, fair_empty,
  panicked, Shared,
}

abbrev pub is_owner : Pc → Bool
is_owner owner = true
is_owner _ = false

abbrev pub is_parked : Pc → Bool
is_parked (parked _) = true
is_parked _ = false

-- The places at which a thread has the queue's lock.
abbrev pub in_queue : Pc → Bool
in_queue (loading _) = true
in_queue (deciding _ _) = true
in_queue (waking _ _) = true
in_queue clearing = true
in_queue _ = false

-- In `should_sleep`, with a node that is not yet queued.
abbrev pub in_push : Pc → Bool
in_push (loading _) = true
in_push (deciding _ _) = true
in_push _ = false

-- About to sleep: the test of `should_sleep` has passed.
abbrev pub is_resigned : Pc → Bool
is_resigned (deciding _ current) = current == contended
is_resigned _ = false

abbrev pub wakes : ℕ → Pc → Bool
wakes w (waking w' _) = w == w'
wakes w _ = false

-- What the locals of a thread say, and the places that plain use does not come to.
abbrev pub IsPlain : Pc → Type 0
IsPlain (pushing try_lock) = ⊥
IsPlain (loading try_lock) = ⊥
IsPlain (deciding try_lock _) = ⊥
IsPlain (parked try_lock) = ⊥
IsPlain (woken try_lock) = ⊥
IsPlain (retrying _ state) = state < 4
IsPlain (deciding _ current) = current < 4
IsPlain handed = ⊥
IsPlain timed_out = ⊥
IsPlain (fair_marking _ _) = ⊥
IsPlain (fair_flipping _) = ⊥
IsPlain (fair_waking _) = ⊥
IsPlain fair_empty = ⊥
IsPlain panicked = ⊥
IsPlain _ = Unit

-- A sleeper: its node is queued or just popped, and nobody has woken it.
abbrev pub is_asleep : Shared → (ℕ → Pc) → ℕ → Bool
is_asleep m pc i = is_parked (pc i) && not (m.flags i)

pub record Inv (m : Shared) (pc : ℕ → Pc) : Type 0 where
  pub byte : m.state < 4
  pub places : (i : ℕ) → IsPlain (pc i)
  pub one_owner : (i j : ℕ) → is_owner (pc i) ≡ true → is_owner (pc j) ≡ true → i ≡ j
  pub held : (i : ℕ) → is_owner (pc i) ≡ true → is_locked m.state ≡ true
  pub guarded : (i : ℕ) → in_queue (pc i) ≡ true → m.queue_lock ≡ some i
  pub once : distinct m.queue ≡ true
  pub quiet : (i : ℕ) → in_push (pc i) ≡ true → m.flags i ≡ false
  pub queued : (i : ℕ) → mem i m.queue ≡ true → is_asleep m pc i ≡ true
  pub popped :
      (i w : ℕ) → wakes w (pc i) ≡ true → (is_asleep m pc w ≡ true) × (mem w m.queue ≡ false)
  pub last_out : (i w : ℕ) → pc i ≡ waking w true → m.queue ≡ []
  pub cleared : (i : ℕ) → pc i ≡ clearing → m.queue ≡ []
  pub marked : (i : ℕ) → mem i m.queue ≡ true → is_waiting m.state ≡ true
  pub resigned : (i : ℕ) → is_resigned (pc i) ≡ true → is_waiting m.state ≡ true
  pub sleeping :
      (i : ℕ)
      → is_asleep m pc i ≡ true
      → (mem i m.queue ≡ true) ⊎ ((j : ℕ) × (wakes i (pc j) ≡ true))

-- On its way to try for the lock again, or to wake a sleeper, unless it takes the lock first.
abbrev pub active_at : Pc → Bool → Bool
active_at (trying try_lock) f = false
active_at (trying _) f = true
active_at (retrying try_lock _) f = false
active_at (retrying _ _) f = true
active_at (pushing _) f = true
active_at (loading _) f = true
active_at (deciding _ current) f = not (current == contended)
active_at (parked _) f = f
active_at (woken _) f = true
active_at popping f = true
active_at (waking _ _) f = true
active_at _ f = false

abbrev pub is_active : Shared → (ℕ → Pc) → ℕ → Bool
is_active m pc i = active_at (pc i) (m.flags i)

-- While the lock is free and a thread sleeps, or is about to, some thread is on its way.
abbrev pub Awake : Shared → (ℕ → Pc) → Type 0
Awake m pc =
    is_locked m.state ≡ false
    → (i : ℕ) → (is_asleep m pc i ≡ true) ⊎ (is_resigned (pc i) ≡ true)
    → (j : ℕ) × (is_active m pc j ≡ true)
