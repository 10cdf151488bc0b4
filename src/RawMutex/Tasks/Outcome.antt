-- ===== src/RawMutex/Tasks/Outcome.antt =====
-- What an unlock to its end leaves.
use colock.Base.{
  ℕ, ◌≡◌, refl, ◌⊎◌, inl, inr, true, false, Option, none, some, List, [], ◌∷◌, ap, ◌∙◌, update,
  Bool-cases, if◌then◌else◌,
}
use colock.RawMutex.Flags.{is_waiting, clear_locked, clear_wait}
use colock.RawMutex.Queue.{pop_last, pop_last-none}
use colock.RawMutex.Thread.{
  Pc, Shared, popped, popping, is_empty, advance, start_unlock, pop_sleeper, wake_sleeper,
  clear_waiting,
}
use colock.RawMutex.Tasks.{unlock_now, unlock_loop}

-- It pops the tail of the queue, if any, and wakes it.
pub record Woke (s s' : Shared) (q : List ℕ) (w : ℕ) : Type 0 where
  pub tail : pop_last s.queue ≡ some (q, w)
  pub after : s' ≡ record s {
    state = if is_empty q then clear_wait (clear_locked s.state) else clear_locked s.state;
    queue = q;
    flags = update s.flags w true;
  }

pub record Freed (s s' : Shared) : Type 0 where
  pub nobody : (is_waiting s.state ≡ false) ⊎ (s.queue ≡ [])
  pub after : s' ≡ record s { state = clear_locked s.state }

abbrev pub Unlocked : Shared → Shared → Type 0
Unlocked s s' = Freed s s' ⊎ ((q : List ℕ) × (w : ℕ) × Woke s s' q w)

pop_gives :
    (i : ℕ) (s : Shared) (o : Option (List ℕ × ℕ))
    → s.queue_lock ≡ none
    → pop_last s.queue ≡ o
    → pop_sleeper i s ≡ popped i s o
unfolding pop_sleeper
pop_gives i s o free e = rw (free, e)

abbrev go_on : ℕ → ℕ → Option (Shared × Pc) → Option Shared
go_on n i none = none
go_on n i (some (s, p)) = unlock_loop n i p s

after_pop :
    (i : ℕ) (s : Shared) (o : Option (List ℕ × ℕ))
    → s.queue_lock ≡ none
    → pop_last s.queue ≡ o
    → unlock_loop 5 i popping (record s { state = clear_locked s.state })
      ≡ go_on 4 i (popped i (record s { state = clear_locked s.state }) o)
unfolding unlock_loop advance
after_pop i s o free e =
    ap (go_on 4 i) (pop_gives i (record s { state = clear_locked s.state }) o free e)

-- The steps from the pop on, where the unlock has found WAIT_BIT.
from_pop :
    (i : ℕ) (s : Shared) (o : Option (List ℕ × ℕ))
    → s.queue_lock ≡ none
    → pop_last s.queue ≡ o
    → (s' : Shared) × (unlock_loop 5 i popping (record s { state = clear_locked s.state })
        ≡ some s')
      × Unlocked s s'
unfolding unlock_loop advance wake_sleeper clear_waiting
from_pop i s none free e = (
  record s { state = clear_locked s.state },
  after_pop i s none free e,
  inl (record { nobody = inr (pop_last-none s.queue e); after = refl }),
)
from_pop i s (some ([], w)) free e = (
  record s { state = clear_wait (clear_locked s.state); queue = []; flags = update s.flags w true },
  after_pop i s (some ([], w)) free e ∙ rw (← free) refl,
  inr ([], w, record { tail = e; after = refl }),
)
from_pop i s (some (j ∷ q, w)) free e = (
  record s { state = clear_locked s.state; queue = j ∷ q; flags = update s.flags w true },
  after_pop i s (some (j ∷ q, w)) free e ∙ rw (← free) refl,
  inr (j ∷ q, w, record { tail = e; after = refl }),
)

pub unlock_now-Unlocked :
    (i : ℕ) (s : Shared)
    → s.queue_lock ≡ none
    → (s' : Shared) × (unlock_now i s ≡ some s') × Unlocked s s'
unfolding unlock_loop advance start_unlock
unlock_now-Unlocked i s free = elim (Bool-cases (is_waiting s.state)) [
  | inl marked ↦ rw marked (from_pop i s (pop_last s.queue) free refl)
  | inr clear ↦ (
    record s { state = clear_locked s.state },
    rw clear,
    inl (record { nobody = inl clear; after = refl }),
  )
]
