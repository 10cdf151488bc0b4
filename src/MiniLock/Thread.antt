-- ===== src/MiniLock/Thread.antt =====
-- mini_lock/src/lib.rs: one thread in `lock`, `try_lock` and `unlock`, an atomic access at a time.
-- A thread has one node at a time; `next`, `waker` (is it still there) and `flags` are those of
-- the node and its parker.
use colock.Base.{ℕ, ◌+◌, Bool, true, false, Option, none, some, ◌==◌, leb, if◌then◌else◌, update}
use colock.MiniLock.Word.{locked_bit, get_ptr, get_flag, set_flag, address, owner_of}

-- Where a thread stands, with the locals that are live there.
pub data Pc : Type 0 where
  idle : Pc
  locking : Pc  -- the first `compare_exchange` of `lock`
  spinning : (head counter : ℕ) → Pc  -- `while spinner.spin()`
  pushing : (head : ℕ) → Pc  -- the loop of `push_or_lock`
  parked : Pc
  trying : (head : ℕ) → Pc  -- the loop of `try_lock`
  owner : Pc
  unlocking : Pc  -- the `compare_exchange` of `unlock`
  asserting : Pc  -- the `assert!` of `pop`
  loading : Pc  -- the load after it
  popping : (head : ℕ) → Pc  -- its loop
  releasing : (sleeper : ℕ) → Pc  -- before `fetch_and(PTR_MASK)`
  waking : (sleeper : ℕ) → Pc  -- before `waker.wake()`
  panicked : Pc

pub record Shared : Type 0 where
  pub head : ℕ
  pub next : ℕ → ℕ
  pub waker : ℕ → Bool
  pub flags : ℕ → Bool

abbrev pub new : Shared
new = record { head = 0; next = λ _. 0; waker = λ _. false; flags = λ _. false }

pub data Action : Type 0 where
  lock try_lock unlock run : Action

abbrev pub Next : Type 0
Next = Option (Shared × Pc)

abbrev pub goes : Shared → Pc → Next
goes s p = some (s, p)

-- NUM_SPINS + NUM_YIELDS of `SpinWait<3, 3>`
abbrev pub spins : ℕ
spins = 6

unfoldable pub lock_first : Shared → Next
lock_first s =
    if s.head == 0 then goes (record s { head = locked_bit }) owner else goes s (spinning s.head 0)

-- `Parker::new`, `prepare_park` and `Node::new`
abbrev pub fresh_node : ℕ → Shared → Shared
fresh_node i s = record s {
  next = update s.next i 0;
  waker = update s.waker i true;
  flags = update s.flags i false;
}

-- A round of the spinning loop, or its end.
unfoldable pub spin_round : ℕ → ℕ → ℕ → Shared → Next
spin_round i head counter s =
    if leb spins counter
    then goes (fresh_node i s) (pushing 0)
    else if s.head == get_ptr head
    then goes (record s { head = set_flag head }) owner
    else goes s (spinning s.head (counter + 1))

unfoldable pub push_or_lock : ℕ → ℕ → Shared → Next
push_or_lock i head s =
    if get_flag head
    then (if s.head == head
        then goes (record s { head = set_flag (address i); next = update s.next i (get_ptr head) })
            parked
        else goes (record s { next = update s.next i (get_ptr head) }) (pushing s.head))
    else if s.head == head
    then goes (record s { head = set_flag head }) owner
    else goes s (pushing s.head)

unfoldable pub try_round : ℕ → Shared → Next
try_round head s =
    if get_flag head
    then goes s idle
    else if s.head == head
    then goes (record s { head = set_flag head }) owner
    else goes s (trying s.head)

unfoldable pub unlock_first : Shared → Next
unlock_first s =
    if s.head == locked_bit then goes (record s { head = 0 }) idle else goes s asserting

-- The exchange in `pop` takes the node off; without a waker there, `pop` is over too.
abbrev pub take_head : ℕ → Shared → (Shared × Pc)
take_head i s = (
  record s { head = set_flag (s.next i); waker = update s.waker i false },
  if s.waker i then releasing i else unlocking,
)

unfoldable pub pop_round : ℕ → Shared → Next
pop_round head s =
    if head == locked_bit
    then goes s unlocking
    else if get_ptr head == 0
    then goes s panicked
    else if s.head == head
    then some (take_head (owner_of head) s)
    else goes s (popping s.head)

-- The next step of thread `i` at each place; `none` where it waits, or where the client must act.
unfoldable pub advance : ℕ → Action → Pc → Shared → Next
advance i lock idle s = goes s locking
advance i try_lock idle s = goes s (trying 0)
advance i unlock owner s = if get_flag s.head then goes s unlocking else goes s panicked
advance i run locking s = lock_first s
advance i run (spinning head counter) s = spin_round i head counter s
advance i run (pushing head) s = push_or_lock i head s
advance i run parked s = if s.flags i then goes s locking else none
advance i run (trying head) s = try_round head s
advance i run unlocking s = unlock_first s
advance i run asserting s = if get_flag s.head then goes s loading else goes s panicked
advance i run loading s = goes s (popping s.head)
advance i run (popping head) s = pop_round head s
advance i run (releasing sleeper) s = goes (record s { head = get_ptr s.head }) (waking sleeper)
advance i run (waking sleeper) s = goes (record s { flags = update s.flags sleeper true }) idle
advance i _ _ s = none
