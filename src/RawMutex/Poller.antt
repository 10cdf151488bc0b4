-- ===== src/RawMutex/Poller.antt =====
-- colock/src/mutex/raw_mutex.rs: `RawMutexPoller::poll`, run without another thread in between.
-- It tries and pushes by the same steps as `lock_inner`; its waker has no parker. Task `i` has one
-- node, and `insert` drops the one of an earlier poll, which takes it off the queue.
use colock.Base.{
  ℕ, zero, suc, ◌<◌, ◌≡◌, ◌⊎◌, inl, inr, refl, Bool, true, false, Option, none, some, List, ◌∷◌,
  arith,
}
use colock.RawMutex.Flags.{contended, is_locked, is_fair, set_locked}
use colock.RawMutex.Queue.{remove}
use colock.RawMutex.Thread.{
  Pc, lock, trying, pushing, loading, parked, owner, panicked, Shared, run, advance, first_try,
  next_try, should_sleep,
}

pub data Polled : Type 0 where
  ready pending failed : Polled

unfoldable pub poll_loop : ℕ → ℕ → Pc → Shared → Option (Polled × Shared)
poll_loop zero i p s = none
poll_loop (suc n) i owner s = some (ready, s)
poll_loop (suc n) i (parked c) s = some (pending, s)
poll_loop (suc n) i panicked s = some (failed, s)
poll_loop (suc n) i (pushing c) s =
    poll_loop n i (loading c) (record s { queue = remove i s.queue })
poll_loop (suc n) i p s = elim (advance i run p s) [
  | none ↦ none
  | some (s', p') ↦ poll_loop n i p' s'
]

abbrev pub poll : ℕ → Shared → Option (Polled × Shared)
poll i s = poll_loop 12 i (trying lock) s

-- What a poll does to a state byte, by its flags.
unfoldable pub PollOutcome : ℕ → Shared → Type 0
PollOutcome i s =
    ((is_locked s.state ≡ false)
      × (poll i s ≡ some (ready, record s { state = set_locked s.state })))
    ⊎ ((is_locked s.state ≡ true)
        × (is_fair s.state ≡ false)
        × (poll i s ≡ some (pending, record s { state = contended; queue = i ∷ remove i s.queue })))
    ⊎ ((is_locked s.state ≡ true)
        × (is_fair s.state ≡ true)
        × (poll i s ≡ some (failed, record s { queue = remove i s.queue })))

abbrev pub unshared : ℕ → List ℕ → (ℕ → Bool) → Shared
unshared state queue flags = record {
  state = state;
  queue = queue;
  queue_lock = none;
  flags = flags;
}

-- With a state byte below 8, any queue, and no other thread at the mutex, a poll of a task ends:
-- it is ready and has the lock if it was free; it is pending with its node moved or put to the
-- head of the queue and LOCKED_BIT | WAIT_BIT set if it was held without FAIR_BIT; and with both
-- LOCKED_BIT and FAIR_BIT set it fails the assertion of should_sleep.
pub poll-PollOutcome :
    (i state : ℕ) (queue : List ℕ) (flags : ℕ → Bool)
    → state < 8
    → PollOutcome i (unshared state queue flags)
unfolding PollOutcome poll_loop advance first_try next_try should_sleep
poll-PollOutcome i zero q f lt = inl (refl, refl)
poll-PollOutcome i (suc zero) q f lt = inr (inl (refl, refl, refl))
poll-PollOutcome i (suc (suc zero)) q f lt = inl (refl, refl)
poll-PollOutcome i (suc (suc (suc zero))) q f lt = inr (inl (refl, refl, refl))
poll-PollOutcome i (suc (suc (suc (suc zero)))) q f lt = inl (refl, refl)
poll-PollOutcome i (suc (suc (suc (suc (suc zero))))) q f lt = inr (inr (refl, refl, refl))
poll-PollOutcome i (suc (suc (suc (suc (suc (suc zero)))))) q f lt = inl (refl, refl)
poll-PollOutcome i (suc (suc (suc (suc (suc (suc (suc zero))))))) q f lt =
    inr (inr (refl, refl, refl))
poll-PollOutcome i (suc (suc (suc (suc (suc (suc (suc (suc n)))))))) q f lt = absurd (omega arith)
