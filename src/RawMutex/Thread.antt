-- ===== src/RawMutex/Thread.antt =====
-- colock/src/mutex/raw_mutex.rs: one thread in `lock`, `try_lock`, `try_lock_until`, `unlock` and
-- `unlock_fair`, an atomic access at a time. A thread has one node and one parker at a time, so
-- the queue holds thread numbers and `flags` their parkers' `should_wakeup`.
use colock.Base.{
  mem, ℕ, Bool, true, false, Option, none, some, List, [], ◌∷◌, ◌==◌, if◌then◌else◌, update,
}
use colock.RawMutex.Flags.{
  unlocked, locked_bit, contended, is_locked, is_waiting, is_fair, set_locked, clear_locked,
  clear_wait, set_fair, clear_fair, flip_wait_fair,
}
use colock.RawMutex.Queue.{pop_last, remove}

-- `lock`, `try_lock_until` (or `try_lock_for`), `try_lock`.
pub data Call : Type 0 where
  lock timed_lock try_lock : Call

-- Where a thread stands, with the locals that are live there.
pub data Pc : Type 0 where
  idle : Pc
  trying : Call → Pc  -- before the first `compare_exchange` of `try_lock`
  retrying : Call → (state : ℕ) → Pc  -- its `while` loop
  pushing : Call → Pc  -- in `lock_inner`, before `queue.push_head` has the queue's lock
  loading : Call → Pc  -- start of `should_sleep`, under the queue's lock
  deciding : Call → (current : ℕ) → Pc  -- its `while` loop
  parked : Call → Pc  -- in `park` or `park_until`
  woken : Call → Pc  -- after it, before the load of the state
  handed : Pc  -- has seen FAIR_BIT
  owner : Pc  -- has the lock
  timed_out : Pc  -- `return false`, before the node is dropped
  popping : Pc  -- in `unlock`, before `queue.pop_tail` has the queue's lock
  waking : (sleeper : ℕ) → (last : Bool) → Pc  -- before `waker.wake()`
  clearing : Pc  -- before `fetch_and(!WAIT_BIT)`, under the queue's lock
  fair_marking : (sleeper : ℕ) → (last : Bool) → Pc  -- in `unlock_fair`, with a sleeper popped
  fair_flipping : (sleeper : ℕ) → Pc  -- after its `debug_assert!`
  fair_waking : (sleeper : ℕ) → Pc
  fair_empty : Pc  -- its `critical_on_empty`
  panicked : Pc  -- a `debug_assert!` failed

-- Memory that the threads share.
pub record Shared : Type 0 where
  pub state : ℕ
  pub queue : List ℕ
  pub queue_lock : Option ℕ
  pub flags : ℕ → Bool

abbrev pub new : Shared
new = record { state = unlocked; queue = []; queue_lock = none; flags = λ _. false }

-- What the client and the clock choose: a call, or the next step of the code.
pub data Action : Type 0 where
  call : Call → Action
  unlock : Action
  unlock_fair : Action
  expire : Action
  run : Action

abbrev pub Next : Type 0
Next = Option (Shared × Pc)

abbrev pub goes : Shared → Pc → Next
goes s p = some (s, p)

abbrev pub is_free : Option ℕ → Bool
is_free none = true
is_free (some _) = false

abbrev pub is_empty : List ℕ → Bool
is_empty [] = true
is_empty (_ ∷ _) = false

-- `try_lock` has failed.
abbrev pub refused : Call → Pc
refused try_lock = idle
refused lock = pushing lock
refused timed_lock = pushing timed_lock

-- `compare_exchange(UNLOCKED, LOCKED_BIT)`
unfoldable pub first_try : Call → Shared → Next
first_try c s =
    if s.state == unlocked
    then goes (record s { state = locked_bit }) owner
    else goes s (retrying c s.state)

unfoldable pub next_try : Call → ℕ → Shared → Next
next_try c state s =
    if is_locked state
    then goes s (refused c)
    else if s.state == state
    then goes (record s { state = set_locked state }) owner
    else goes s (retrying c s.state)

-- A fresh parker, `prepare_park`, and the queue's lock.
unfoldable pub enter_queue : ℕ → Call → Shared → Next
enter_queue i c s =
    if is_free s.queue_lock
    then goes (record s { queue_lock = some i; flags = update s.flags i false }) (loading c)
    else none

-- One round of the loop of `should_sleep`. At its end the node is pushed, or the push is aborted
-- with the lock taken; both give the queue's lock back.
unfoldable pub should_sleep : ℕ → Call → ℕ → Shared → Next
should_sleep i c current s =
    if current == contended
    then goes (record s { queue = i ∷ s.queue; queue_lock = none }) (parked c)
    else if is_locked current
    then (if current == locked_bit
        then (if s.state == locked_bit
            then goes (record s { state = contended }) (deciding c locked_bit)
            else goes s (deciding c s.state))
        else goes (record s { queue_lock = none }) panicked)
    else if s.state == current
    then goes (record s { state = set_locked current; queue_lock = none }) owner
    else goes s (deciding c s.state)

unfoldable pub wake_up : ℕ → Call → Shared → Next
wake_up i c s = if s.flags i then goes s (woken c) else none

unfoldable pub after_park : Call → Shared → Next
after_park c s = if is_fair s.state then goes s handed else goes s (trying c)

-- `Node::drop` of the node of a thread whose time has run out.
unfoldable pub give_up : ℕ → Shared → Next
give_up i s =
    if mem i s.queue
    then (if is_free s.queue_lock then goes (record s { queue = remove i s.queue }) idle else none)
    else goes s idle

unfoldable pub start_unlock : Shared → Next
start_unlock s =
    goes (record s { state = clear_locked s.state }) (if is_waiting s.state then popping else idle)

abbrev pub popped : ℕ → Shared → Option (List ℕ × ℕ) → Next
popped i s none = goes s idle
popped i s (some (q, w)) =
    goes (record s { queue = q; queue_lock = some i }) (waking w (is_empty q))

unfoldable pub pop_sleeper : ℕ → Shared → Next
pop_sleeper i s = if is_free s.queue_lock then popped i s (pop_last s.queue) else none

-- `waker.wake()`, then the test of `num_waiting`.
unfoldable pub wake_sleeper : ℕ → Bool → Shared → Next
wake_sleeper w last s =
    if last
    then goes (record s { flags = update s.flags w true }) clearing
    else goes (record s { flags = update s.flags w true; queue_lock = none }) idle

unfoldable pub clear_waiting : Shared → Next
clear_waiting s = goes (record s { state = clear_wait s.state; queue_lock = none }) idle

abbrev pub fair_popped : ℕ → Shared → Option (List ℕ × ℕ) → Next
fair_popped i s none = goes (record s { queue_lock = some i }) fair_empty
fair_popped i s (some (q, w)) =
    goes (record s { queue = q; queue_lock = some i }) (fair_marking w (is_empty q))

unfoldable pub start_unlock_fair : ℕ → Shared → Next
start_unlock_fair i s = if is_free s.queue_lock then fair_popped i s (pop_last s.queue) else none

unfoldable pub mark_fair : ℕ → Bool → Shared → Next
mark_fair w last s =
    if last
    then (if is_waiting s.state
        then goes s (fair_flipping w)
        else goes (record s { queue_lock = none }) panicked)
    else goes (record s { state = set_fair s.state }) (fair_waking w)

-- The next step of thread `i` at each place; `none` where it waits, or where the client must act.
unfoldable pub advance : ℕ → Action → Pc → Shared → Next
advance i (call c) idle s = goes s (trying c)
advance i unlock owner s = start_unlock s
advance i unlock_fair owner s = start_unlock_fair i s
advance i expire (parked timed_lock) s = goes s timed_out
advance i run (trying c) s = first_try c s
advance i run (retrying c state) s = next_try c state s
advance i run (pushing c) s = enter_queue i c s
advance i run (loading c) s = goes s (deciding c s.state)
advance i run (deciding c current) s = should_sleep i c current s
advance i run (parked c) s = wake_up i c s
advance i run (woken c) s = after_park c s
advance i run handed s = goes (record s { state = clear_fair s.state }) owner
advance i run timed_out s = give_up i s
advance i run popping s = pop_sleeper i s
advance i run (waking w last) s = wake_sleeper w last s
advance i run clearing s = clear_waiting s
advance i run (fair_marking w last) s = mark_fair w last s
advance i run (fair_flipping w) s =
    goes (record s { state = flip_wait_fair s.state }) (fair_waking w)
advance i run (fair_waking w) s =
    goes (record s { flags = update s.flags w true; queue_lock = none }) idle
advance i run fair_empty s =
    goes (record s { state = clear_locked s.state; queue_lock = none }) idle
advance i _ _ s = none
