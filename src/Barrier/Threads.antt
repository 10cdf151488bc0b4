-- ===== src/Barrier/Threads.antt =====
-- colock/src/barrier.rs: threads that call `wait` of one barrier again and again, in any order. A
-- step of a thread is what it does under the list's lock, but the thread that wakes the others holds
-- the lock from one `pop_head` to the next. Thread `i` is its own waker and has its node at one
-- address, where it makes a new node for each wait.
pub mod Inv
pub mod Steps
pub mod Arrive
pub mod Lead
pub mod Safety
pub mod Weight
pub mod Bound
pub mod Schedule
use colock.Base.{
  ℕ, suc, ◌+◌, ◌-◌, ◌<◌, ◌≡◌, ◌++◌, ◌∷◌, Bool, true, false, Option, none, some, List, [], ◌==◌,
  if◌then◌else◌, update,
}
use colock.Intrusive.Heap.{
  Ptr, null, Mem, Run, ok, fault, out_of_fuel, Cmd, put_node, ◌>>=◌, ◌>>◌, pure,
}
use colock.Intrusive.Defs
use colock.Intrusive.Concurrent
use colock.Barrier.{expect, wake}

-- Where a thread stands: in no wait, in front of the lock of the list, waking the others under that
-- lock, in `park`, or stopped by a panic or a dangling pointer.
pub data Place : Type 0 where
  outside ready leading parked faulted : Place

abbrev pub BarrierMem : Type 0
BarrierMem = Mem (List ℕ) ℕ

-- `began` and `done` count the calls of `wait` and their returns, `leaders` the returns with
-- `BarrierWaitResult(true)`.
pub record Threads : Type 0 where
  pub mem : BarrierMem
  pub locked_by : Option ℕ
  pub place : ℕ → Place
  pub flags : ℕ → Bool
  pub began : ℕ → ℕ
  pub done : ℕ → ℕ
  pub leaders : ℕ

-- The address of a thread's node.
abbrev pub address : ℕ → Ptr
address i = suc i

abbrev pub init : Threads
init = record {
  mem = record { nodes = λ _. none; inner = Defs.new_list; env = [] };
  locked_by = none;
  place = λ _. outside;
  flags = λ _. false;
  began = λ _. 0;
  done = λ _. 0;
  leaders = 0;
}

abbrev pub failed : ℕ → Threads → Threads
failed i s = record s { place = update s.place i faulted }

-- `Parker::new`, `prepare_park` and `make_node`
abbrev pub prepared : ℕ → Threads → Threads
prepared i s = record s {
  mem = record (s.mem) { nodes = update s.mem.nodes (address i) (some (Defs.new_node i)) };
  place = update s.place i ready;
  flags = update s.flags i false;
  began = update s.began i (s.began i + 1);
}

abbrev pub lone_leader : ℕ → Threads → Threads
lone_leader i s = record s {
  began = update s.began i (s.began i + 1);
  done = update s.done i (s.done i + 1);
  leaders = s.leaders + 1;
}

-- `wait`, up to the lock.
unfoldable pub call : ℕ → ℕ → Threads → Threads
call target i s = if target == 0 then lone_leader i s else prepared i s

abbrev pub queued : ℕ → Threads → Run (List ℕ) ℕ (Unit {0}) → Threads
queued i s (ok _ m) = record s { mem = m; place = update s.place i parked }
queued i s fault = failed i s
queued i s out_of_fuel = failed i s

-- `lock_inner`, up to its loop.
unfoldable pub arrive : ℕ → Ptr → ℕ → Threads → Threads
arrive target outer i s =
    if s.mem.inner.count == target - 1
    then record s { locked_by = some i; place = update s.place i leading }
    else queued i s ((do r ← Defs.push_head outer (address i); expect r) (s.mem))

-- The thread's node and parker go out of scope, and `wait` returns.
abbrev pub returned : ℕ → Threads → Run (List ℕ) ℕ (Unit {0}) → Threads
returned i s (ok _ m) = record s {
  mem = record m { nodes = update m.nodes (address i) none };
  place = update s.place i outside;
  done = update s.done i (s.done i + 1);
}
returned i s fault = failed i s
returned i s out_of_fuel = failed i s

unfoldable pub leave : Ptr → ℕ → Threads → Threads
leave outer i s = returned i s (Concurrent.drop_node outer (address i) (s.mem))

abbrev pub unlocked : Threads → Threads
unlocked s = record s { locked_by = none; leaders = s.leaders + 1 }

-- One round of the loop: `pop_head` and `wake`, or its end.
abbrev pub led : Ptr → ℕ → Threads → Run (List ℕ) ℕ (Option ℕ) → Threads
led outer i s (ok (some w) m) = record s {
  mem = record m { env = m.env ++ w ∷ [] };
  flags = update s.flags w true;
}
led outer i s (ok none m) = leave outer i (unlocked (record s { mem = m }))
led outer i s fault = failed i s
led outer i s out_of_fuel = failed i s

unfoldable pub lead : Ptr → ℕ → Threads → Threads
lead outer i s = led outer i s (Defs.pop_head (s.mem))

-- The next step of thread `i`; `none` where it waits for the lock or for its flag.
unfoldable pub step : ℕ → Ptr → ℕ → Place → Threads → Option Threads
step target outer i outside s = some (call target i s)
step target outer i ready s = elim s.locked_by [
  | none ↦ some (arrive target outer i s)
  | some _ ↦ none
]
step target outer i leading s = some (lead outer i s)
step target outer i parked s = if s.flags i then some (leave outer i s) else none
step target outer i faulted s = none

-- The states that the threads below `n` come to.
pub data Reach (n : ℕ) (outer : Ptr) : Threads → Type 0 where
  start : Reach n outer init
  later :
      {s t : Threads} (i : ℕ)
      → Reach n outer s
      → i < n
      → step n outer i (s.place i) s ≡ some t
      → Reach n outer t
