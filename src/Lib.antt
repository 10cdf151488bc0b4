-- ===== src/Lib.antt =====
-- colock: locks that park their waiters on an intrusive list.
--
-- The program. A `RawMutex` (colock/src/mutex/raw_mutex.rs) is a state byte and a queue of sleepers.
-- The queue is a `ConcurrentIntrusiveList` (intrusive_list/src/lib.rs), a doubly linked list whose
-- nodes live in the frames of the sleeping threads, under a small lock of its own. A `Barrier`
-- (colock/src/barrier.rs) keeps its waiters on such a list too. `SpinWait`
-- (shared_util/src/spinwait.rs) counts the rounds of a spinning thread. `RawMiniLock`
-- (mini_lock/src/lib.rs) is the small lock: one word, with a stack of waiting nodes. A sleeper waits
-- in a `Parker`, which a `Waker` (parking/src/lib.rs) ends. `Mutex<T>` and its guards
-- (colock/src/mutex/mod.rs, guard.rs) are what a client sees of the raw mutex.
--
-- The files.
--   Base            tests, list helpers and family updates over the native numbers. Total: sums over
--                   threads.
--   LockSpec        what the raw mutex and the small lock promise: a lock that is free, or of one party.
--   Intrusive       intrusive_list/src/lib.rs. Heap: nodes at addresses, commands that may fault.
--                   Defs: the operations of `IntrusiveList` (`push_head`, `push_tail`, `pop_head`,
--                   `pop_tail`, `remove_node`, `scan`), under their names. Concurrent: those of
--                   `ConcurrentIntrusiveList`, each one command, since each holds the list's lock
--                   throughout. Chain: the list that linked nodes stand for. Fresh: nodes that hold
--                   data. Sweep: the reference for `scan`. Access, Push, Remove, Unlink, Pop, Dirty,
--                   Concurrent/PopAll, Visit, Scan, Fifo, Early (a node whose owner leaves during a pop):
--                   proofs.
--   RawMutex        colock/src/mutex/raw_mutex.rs. Flags: the state byte. Queue: the queue as a list
--                   of threads. Thread: `lock_inner`, `should_sleep`, `try_lock`, `unlock` and
--                   `unlock_fair` of one thread, by where it stands (`Pc`), an atomic access at a
--                   time (`advance`). System: threads interleaved in any order. Plain: the invariant
--                   of use without time limits and fair unlocking, a file for each group of its
--                   fields, and Safety. Schedule: runs by evaluation. Hazards: what `unlock_fair` and
--                   time limits break. Timed: the invariant of use with time limits. Poller: a poll of
--                   `RawMutexPoller`. Tasks: the futures of `lock_async` on an executor of one thread;
--                   Outcome, Inv, Steps, Awake: proofs; Schedule: runs; Tests: a unit test.
--                   Mixed: threads and tasks at one mutex, each poll an atomic access at a time;
--                   Exclusion, Defs (the invariant), Queued, Wakers, Sleeping, Awake, Safety,
--                   Progress, Spec (the lock it implements): proofs; Schedule: runs.
--                   Deadline: a call of `lock_inner` by the times that it reads, over Parking, with the
--                   `Instant` and `Duration` of colock/src/lock_utils.rs.
--   SpinWait        shared_util/src/spinwait.rs.
--   Barrier         colock/src/barrier.rs, over Intrusive. Wake, Arrive: a round of threads. Slot,
--                   Poller: the polls of a round. Repoll: a poll that races with the last arrival.
--                   Stress: the test `stress_test_barrier_inner`, round after round. Tests: three more.
--                   Threads: threads that call `wait` again and again, a step of one at a time, with
--                   their nodes on the heap; Inv (the invariant), Steps, Arrive, Lead, Safety, Weight,
--                   Bound: proofs; Schedule: runs.
--   MiniLock        mini_lock/src/lib.rs. Word: the tagged pointer. Thread: `lock`, `try_lock`, `unlock`,
--                   `push_or_lock` and `pop` of one thread, an atomic access at a time. System:
--                   threads interleaved in any order. Schedule: runs. A node has an even address made
--                   from its thread's number. Exclusion, Stack (the nodes that the word leads to),
--                   Still, Change, Waking, Spec (the lock it implements): proofs.
--   Parking         parking/src/lib.rs: `Parker`, `Waker`, `park`, `park_until`. Laws: proofs.
--   Mutex           colock/src/mutex/mod.rs and guard.rs. Raw: what they ask of the raw lock. Guard:
--                   the operations, under their names. Balance: a client with guards. Strong: the
--                   count of the `Arc`. Solo: the raw mutex of RawMutex as such a lock, for one
--                   thread. Tests: unit tests of both files, over any such lock.
--   Counter         the test `do_lots_and_lots` of colock/src/mutex/mod.rs and mini_lock/src/lib.rs, over
--                   any lock with the laws of Exclusive. Client: the threads. Sum: the proof.
--                   Locks: the raw mutex and the small lock as such locks, and the small lock's test
--                   (`do_lots_and_lots_mini`). Async: the futures of `lock_async` as such a lock, and
--                   `do_lots_and_lots_async`.
--   Handover        the tests `it_works_threaded` and `it_works_threaded_async` of
--                   colock/src/mutex/raw_mutex.rs, and that of mini_lock/src/lib.rs: two threads that
--                   meet at a barrier, a step of either or of its lock at a time. Laws: what they need
--                   of the lock. Handed and Paired (the invariants), Nexts, Steps, Safety, Progress: proofs.
--                   RawMutex, MiniLock, Due: the locks; Turns, Someone: proofs for Due. The tests of the same names in colock/src/mutex/mod.rs are the same runs.
--   Examples        each theorem at a concrete input, and runs.
--
-- The model. Memory is sequentially consistent: orderings weaker than that are not modelled. A null
-- or dangling pointer that is dereferenced, a failed `debug_assert!` or `expect`, and a `usize` out
-- of range are faults (`panicked` for a thread of the mutex). `thread::park` returns only to look at
-- the parker's flag again, so a parked thread goes on exactly when the flag is up; a time limit may
-- expire at any moment. A thread has one node and one parker at a time, and is named by its number in
-- the queue. Closures handed to the list are functions on the data, the count and what they capture.
--
-- Bounds and fuel. The loops over the list (`pop_all`, `wake_all`, `scan`) take the list's count and
-- one as fuel, a round for each node and one for the end. A `usize` has 64 bits. `spin_rounds` takes
-- any fuel that passes NUM_SPINS + NUM_YIELDS. An operation of one thread on the raw mutex has 16
-- steps; the longest, an attempt that is queued and times out, takes ten. A poll has 12,
-- and an unlock to its end five after its first: the pop, the wake-up and the clearing of WAIT_BIT.
--
-- Not modelled: formatting, the unit tests not named above, readings of the clock in tests, the
-- benchmarks, and colock/src/condvar.rs, all of which is commented out.
pub mod Base
pub mod LockSpec
pub mod Intrusive
pub mod RawMutex
pub mod SpinWait
pub mod Parking
pub mod MiniLock
pub mod Mutex
pub mod Barrier
pub mod Counter
pub mod Handover
mod Examples
