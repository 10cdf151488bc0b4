-- ===== src/RawMutex/Hazards.antt =====
-- What `unlock_fair` and the time limits break: each hazard from every state that shows it.
use colock.Base.{mem, ℕ, ◌≡◌, ◌≢◌, Bool, true, false, none, some, [], ◌∷◌, arith, update}
use colock.RawMutex.Flags.{is_locked, is_fair, clear_fair}
use colock.RawMutex.Thread.{
  Call, lock, timed_lock, idle, trying, parked, woken, owner, waking, panicked, handed, timed_out,
  retrying, pushing, loading, deciding, run, expire, advance, first_try, next_try, enter_queue,
  should_sleep, after_park, give_up,
}
use colock.RawMutex.System.{System}
use colock.RawMutex.Schedule.{run_all, step_of}

module _ (s : System) (i j : ℕ) (apart : i ≢ j) where
  -- In any state in which two different threads have come out of park and FAIR_BIT is set, four
  -- steps give the lock to both.
  pub fair_bit_taken_twice :
      (c d : Call)
      → s.pc i ≡ woken c
      → s.pc j ≡ woken d
      → is_fair s.shared.state ≡ true
      → (t : System) × (run_all ((i, run) ∷ (j, run) ∷ (i, run) ∷ (j, run) ∷ []) s ≡ some t)
        × (t.pc i ≡ owner)
        × (t.pc j ≡ owner)
  unfolding run_all step_of advance after_park
  fair_bit_taken_twice c d pi pj fair = (
    record {
      shared = record (s.shared) { state = clear_fair (clear_fair s.shared.state) };
      pc = update (update (update (update s.pc i handed) j handed) i owner) j owner;
    },
    ground arith,
    ground arith,
    ground arith,
  )

  -- In any state in which a thread is about to wake a sleeper with a time limit whose node is no
  -- longer queued, the sleeper can time out and leave while the waker that points to its parker
  -- is still to be called.
  pub timeout_leaves_waker :
      (last : Bool)
      → s.pc i ≡ waking j last
      → s.pc j ≡ parked timed_lock
      → mem j s.shared.queue ≡ false
      → (t : System) × (run_all ((j, expire) ∷ (j, run) ∷ []) s ≡ some t)
        × (t.pc i ≡ waking j last)
        × (t.pc j ≡ idle)
  unfolding run_all step_of advance give_up
  timeout_leaves_waker last pi pj out = (
    record { shared = s.shared; pc = update (update s.pc j timed_out) j idle },
    ground arith,
    ground arith,
    ground arith,
  )

-- In any state with LOCKED_BIT and FAIR_BIT set and the lock of the queue free, a thread that
-- calls lock and is let run for five steps fails the debug_assert of should_sleep.
pub fair_bit_fails_assert :
    (s : System) (i : ℕ)
    → s.pc i ≡ trying lock
    → is_locked s.shared.state ≡ true
    → is_fair s.shared.state ≡ true
    → s.shared.queue_lock ≡ none
    → (t : System) × (run_all ((i, run) ∷ (i, run) ∷ (i, run) ∷ (i, run) ∷ (i, run) ∷ []) s
        ≡ some t)
      × (t.pc i ≡ panicked)
unfolding run_all step_of advance first_try next_try enter_queue should_sleep
fair_bit_fails_assert s i pi locked fair free = (
  record {
    shared = record (s.shared) { flags = update s.shared.flags i false };
    pc =
        update
          (update
            (update (update (update s.pc i (retrying lock s.shared.state)) i (pushing lock)) i
              (loading lock))
            i (deciding lock s.shared.state))
          i panicked;
  },
  ground arith,
  ground arith,
)
