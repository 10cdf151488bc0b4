-- ===== src/RawMutex/Mixed.antt =====
-- colock/src/mutex/raw_mutex.rs: threads and tasks at one mutex, an atomic access at a time. A
-- thread is at the places of RawMutex.Thread. A task is polled in `RawMutexPoller::poll`, which
-- tries, and pushes its node, by the same accesses as `lock_inner`; its waker has no parker, and
-- its flag says that the waker was called since its last poll began.
pub mod Exclusion
pub mod Defs
pub mod Queued
pub mod Wakers
pub mod Sleeping
pub mod Awake
pub mod Safety
pub mod Schedule
pub mod Progress
pub mod Spec
use colock.Base.{mem, ℕ, ◌≡◌, Bool, true, false, Option, none, some, if◌then◌else◌, update}
use colock.RawMutex.Queue.{remove}
use colock.RawMutex.Thread.{
  Call, Pc, idle, trying, pushing, loading, parked, owner, panicked, lock, Shared, new, Action, run,
  Next, is_free, advance,
}
use colock.RawMutex.System.{Usage, allows}

pub data Place : Type 0 where
  calling : Pc → Place  -- in a call, or between calls
  polling : Pc → Place  -- in `poll`
  replacing : Place  -- in `poll`, at `node.insert`, before the node of the last poll is dropped
  pending : Place  -- the last poll gave `Poll::Pending`
  finished : Place  -- it gave `Poll::Ready`, and the future is still to be dropped
  dropping : Place  -- a pending future is dropped

pub data Move : Type 0 where
  by_thread : Action → Move
  poll_it drop_it run_it : Move

abbrev pub After : Type 0
After = Option (Shared × Place)

abbrev pub onwards : (Pc → Place) → Next → After
onwards f none = none
onwards f (some (s, p)) = some (s, f p)

-- Where a poll stands after an access.
abbrev pub after_access : Pc → Place
after_access owner = finished
after_access (parked _) = pending
after_access (pushing _) = replacing
after_access panicked = calling panicked
after_access p = polling p

abbrev pub start_poll : ℕ → Shared → After
start_poll i s = some (record s { flags = update s.flags i false }, polling (trying lock))

-- `Node::drop`
unfoldable pub drop_node : ℕ → Place → Shared → After
drop_node i next s =
    if mem i s.queue
    then (if is_free s.queue_lock then some (record s { queue = remove i s.queue }, next) else none)
    else some (s, next)

-- `push_head` takes the queue's lock.
unfoldable pub take_queue : ℕ → Call → Shared → After
take_queue i c s =
    if is_free s.queue_lock
    then some (record s { queue_lock = some i }, polling (loading c))
    else none

unfoldable pub go : ℕ → Move → Place → Shared → After
go i (by_thread a) (calling p) s = onwards calling (advance i a p s)
go i poll_it (calling idle) s = start_poll i s
go i poll_it pending s = start_poll i s
go i drop_it pending s = some (s, dropping)
go i run_it (polling (pushing c)) s = take_queue i c s
go i run_it (polling p) s = onwards after_access (advance i run p s)
go i run_it replacing s = drop_node i (polling (pushing lock)) s
go i run_it finished s = drop_node i (calling owner) s
go i run_it dropping s = drop_node i (calling idle) s
go i _ _ s = none

pub record Mixed : Type 0 where
  pub shared : Shared
  pub place : ℕ → Place

abbrev pub init : Mixed
init = record { shared = new; place = λ _. calling idle }

-- What the clients use: calls of threads, and whether pending futures are dropped.
abbrev pub lets : Usage → Bool → Move → Bool
lets u drops (by_thread a) = allows u a
lets u drops drop_it = drops
lets u drops _ = true

pub data MixedStep (u : Usage) (drops : Bool) (s : Mixed) : Mixed → Type 0 where
  act :
      (i : ℕ) (v : Move) {m : Shared} {p : Place}
      → lets u drops v ≡ true
      → go i v (s.place i) s.shared ≡ some (m, p)
      → MixedStep u drops s (record { shared = m; place = update s.place i p })

pub data MixedReach (u : Usage) (drops : Bool) : Mixed → Type 0 where
  start : MixedReach u drops init
  later : {s t : Mixed} → MixedReach u drops s → MixedStep u drops s t → MixedReach u drops t
