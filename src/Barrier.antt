-- ===== src/Barrier.antt =====
-- colock/src/barrier.rs: a barrier over the intrusive list. Its data are wakers, of any type `W`;
-- what the closures of the list see is the sequence of wakers that were woken.
pub mod Wake
pub mod Arrive
pub mod Slot
pub mod Stress
pub mod Threads
pub mod Tests
pub mod Poller
pub mod Repoll
use colock.Base.{
  ℕ, zero, suc, ◌+◌, ◌-◌, Bool, true, false, Option, none, some, List, [], ◌∷◌, ◌++◌, ◌==◌,
  if◌then◌else◌, update,
}
use colock.Intrusive.Heap.{
  Ptr, Result, success, failure, Mem, Cmd, ok, fault, out_of_fuel, pure, ◌>>=◌, ◌>>◌, get_list,
  put_node,
}
use colock.Intrusive.Defs
use colock.Intrusive.Concurrent

-- `BarrierWaitResult`, or the thread sleeps: `wait` will return `BarrierWaitResult(false)`.
pub data Arrival : Type 0 where
  leader sleeps : Arrival

-- What `poll` gives: `Poll::Ready(BarrierWaitResult(b))` or `Poll::Pending`.
pub data Poll : Type 0 where
  ready : Bool → Poll
  pending : Poll

abbrev pub arrival : Bool → Arrival
arrival true = sleeps
arrival false = leader

abbrev pub polled : Bool → Poll
polled true = pending
polled false = ready true

abbrev pub is_woken : Option Bool → Bool
is_woken (some true) = true
is_woken _ = false

module _ {W : Type 0} where
  -- `waker.wake()`
  abbrev pub wake : W → Cmd (List W) W (Unit {0})
  wake w m = ok tt (record m { env = m.env ++ w ∷ [] })

  -- `while let Some(waker) = list.pop_head()`: one round for each waker, and one for the end.
  unfoldable pub wake_all : ℕ → Cmd (List W) W (Unit {0})
  wake_all zero = λ _. out_of_fuel
  wake_all (suc k) = do
    popped ← Defs.pop_head
    elim popped [ none ↦ pure tt | some w ↦ wake w >> wake_all k ]

  -- `.expect("barrier node was dirty")`
  abbrev pub expect : Result ℕ → Cmd (List W) W (Unit {0})
  expect (success n) = pure tt
  expect (failure e) = λ _. fault

  unfoldable pub lock_inner : ℕ → Ptr → Ptr → Cmd (List W) W Bool
  lock_inner target outer node m =
      if target == 0
      then fault
      else if m.inner.count == target - 1
      then (wake_all (m.inner.count + 1) >> pure false) m
      else (do r ← Defs.push_head outer node; expect r; pure true) m

  -- `wait`, up to where the thread parks or returns; `node` is its fresh node.
  unfoldable pub wait : ℕ → Ptr → Ptr → Cmd (List W) W Arrival
  wait target outer node =
      if target == 0
      then pure leader
      else (do should_sleep ← lock_inner target outer node; pure (arrival should_sleep))

  -- `self_mut.node = None`
  unfoldable pub clear_slot : Ptr → Ptr → Cmd (List W) W (Unit {0})
  clear_slot outer slot m = elim (m.nodes slot) [
    | none ↦ ok tt m
    | some n ↦
        (Concurrent.drop_node outer slot
            >> (λ m'. ok tt (record m' { nodes = update m'.nodes slot none })))
          m
  ]

  -- `poll` after its test of the parker, which stands outside the list's lock: the drop of the old
  -- node and the arrival, each under that lock, with nothing of the other parties in between.
  unfoldable pub poll_rest : ℕ → Ptr → Ptr → W → Cmd (List W) W Poll
  poll_rest target outer slot waker = do
    clear_slot outer slot
    put_node slot (Defs.new_node waker)
    should_sleep ← lock_inner target outer slot
    pure (polled should_sleep)

  -- `BarrierPoller::poll`; `flag` is the `should_wakeup` of its parker, if it has one.
  unfoldable pub poll : ℕ → Ptr → Ptr → Option Bool → W → Cmd (List W) W Poll
  poll target outer slot flag waker =
      if target == 0
      then pure (ready true)
      else if is_woken flag
      then pure (ready false)
      else poll_rest target outer slot waker
