-- ===== src/RawMutex/Tasks.antt =====
-- colock/src/mutex/raw_mutex.rs under an executor of one thread: the futures of `lock_async` are
-- polled and dropped, and the owner unlocks, each without another call in between. The flag of a
-- task says that its waker was called since its last poll.
pub mod Outcome
pub mod Inv
pub mod Steps
pub mod Awake
pub mod Schedule
pub mod Tests
use colock.Base.{ℕ, zero, suc, ◌≡◌, Bool, true, false, not, Option, none, some, List, [], update}
use colock.RawMutex.Queue.{remove}
use colock.RawMutex.Thread.{Pc, idle, owner, Shared, new, unlock, run, advance}
use colock.RawMutex.Poller.{Polled, ready, pending, failed, poll}

pub data Task : Type 0 where
  away : Task  -- with no future
  waiting : Task  -- its future was polled, and was pending
  holder : Task
  broken : Task  -- a poll has panicked

pub record Tasks : Type 0 where
  pub shared : Shared
  pub task : ℕ → Task

abbrev pub first : Tasks
first = record { shared = new; task = λ _. away }

pub data Act : Type 0 where
  poll_it drop_it unlock_it : Act

-- `unlock` to its end.
unfoldable pub unlock_loop : ℕ → ℕ → Pc → Shared → Option Shared
unlock_loop zero i p s = none
unlock_loop (suc n) i idle s = some s
unlock_loop (suc n) i p s = elim (advance i run p s) [
  | none ↦ none
  | some (s', p') ↦ unlock_loop n i p' s'
]

abbrev pub unlock_now : ℕ → Shared → Option Shared
unlock_now i s = elim (advance i unlock owner s) [
  | none ↦ none
  | some (s', p) ↦ unlock_loop 5 i p s'
]

-- `Node::drop`
abbrev pub drop_node : ℕ → Shared → Shared
drop_node i s = record s { queue = remove i s.queue }

-- A future that is ready is dropped at once.
abbrev pub polled : ℕ → Tasks → Option (Polled × Shared) → Option Tasks
polled i t none = none
polled i t (some (ready, s)) =
    some (record { shared = drop_node i s; task = update t.task i holder })
polled i t (some (pending, s)) = some (record { shared = s; task = update t.task i waiting })
polled i t (some (failed, s)) = some (record { shared = s; task = update t.task i broken })

abbrev pub poll_of : ℕ → Tasks → Option Tasks
poll_of i t = polled i t (poll i (record (t.shared) { flags = update t.shared.flags i false }))

abbrev pub unlocked_by : ℕ → Tasks → Option Shared → Option Tasks
unlocked_by i t none = none
unlocked_by i t (some s) = some (record { shared = s; task = update t.task i away })

unfoldable pub act_at : ℕ → Act → Task → Tasks → Option Tasks
act_at i poll_it away t = poll_of i t
act_at i poll_it waiting t = poll_of i t
act_at i drop_it waiting t =
    some (record { shared = drop_node i t.shared; task = update t.task i away })
act_at i unlock_it holder t = unlocked_by i t (unlock_now i t.shared)
act_at i _ _ t = none

-- Are futures dropped only while their wakers have not been called?
abbrev pub lets : Bool → Act → Bool → Bool
lets true drop_it woken = not woken
lets _ _ woken = true

pub data TaskStep (careful : Bool) (t : Tasks) : Tasks → Type 0 where
  act :
      (i : ℕ) (a : Act) {u : Tasks}
      → lets careful a (t.shared.flags i) ≡ true
      → act_at i a (t.task i) t ≡ some u
      → TaskStep careful t u

pub data TaskReach (careful : Bool) : Tasks → Type 0 where
  start : TaskReach careful first
  later : {t u : Tasks} → TaskReach careful t → TaskStep careful t u → TaskReach careful u
