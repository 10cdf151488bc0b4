-- ===== src/Barrier/Tests.antt =====
-- The tests `test_barrier`, `async_test_barrier` and `async_test_barrier_cancel` of
-- colock/src/barrier.rs: two threads, or two tasks, at a barrier of two.
use colock.Base.{
  Option, true, false, none, inl, inr, ℕ, ◌<◌, ◌≡◌, ◌≢◌, refl, some, List, [], ◌∷◌, arith, length,
  usize_mod, update_same, ap,
}
use colock.Intrusive.Heap
use colock.Intrusive.Heap.{
  Run, ok, fault, out_of_fuel, Ptr, null, Mem, Cmd, pure, ◌>>=◌, ◌>>◌, put_node,
}
use colock.Intrusive.Defs
use colock.Intrusive.Fresh.{from_head}
use colock.Intrusive.Chain.{IsList}
use colock.Intrusive.Returns
use colock.Intrusive.Returns.{Returns}
use colock.Barrier.{
  Arrival, leader, sleeps, wait, Poll, pending, ready, poll, poll_rest, clear_slot, lock_inner,
  wake_all,
}
use colock.Barrier.Slot.{absent, Cleared}
use colock.Barrier.Poller.{Turn, poll-Turn}
use colock.Barrier.Wake.{Woken, wait-leader, wait-sleeps, Joined}
use colock.Barrier.Stress.{meet, Comers, made, made-IsList, Met, meet-Met}

module _ {W : Type 0} where
  -- In the first round either comes first; in the second the node `p` waits alone. Given are what
  -- each finds, with the count of the queue after it.
  unfoldable pub test_barrier :
      Ptr → List (Ptr × W) → Ptr × W → Ptr × W → Cmd (List W) W ((Arrival × ℕ) × Arrival × ℕ)
  test_barrier outer first (p, w) (q, v) = do
    meet 2 outer first 0
    put_node p (Defs.new_node w)
    r ← wait 2 outer p
    n ← Defs.count
    put_node q (Defs.new_node v)
    r' ← wait 2 outer q
    n' ← Defs.count
    pure ((r, n), r', n')

  module _ (outer : Ptr) (p q : Ptr) (w v : W) (p_real : p ≢ null) (q_real : q ≢ null)
      (apart : q ≢ p) where
    abbrev fits : 2 < usize_mod
    fits = omega arith

    -- The second thread finds the first alone, and is the leader.
    late :
        (m : Mem (List W) W)
        → IsList outer m (from_head ((p, w) ∷ []))
        → Returns
            (λ r m'. (r ≡ leader) × (m'.inner.count ≡ 0))
            (wait 2 outer q (made outer 2 fits q v m))
    late m is =
        Returns.mono (λ r m'. (r ≡ leader) × Woken outer ((p, w) ∷ []) (made outer 2 fits q v m) m')
          (λ r m'. (r ≡ leader) × (m'.inner.count ≡ 0)) (wait 2 outer q (made outer 2 fits q v m))
          (wait-leader outer 2 q ((p, w) ∷ []) (made outer 2 fits q v m)
            (made-IsList outer 2 fits q v ((p, w) ∷ []) m is (ground arith)) refl)
          λ r m' (lead, done). (lead, ap (λ l. l.count) done.is_list.inner)

    -- From an empty barrier, with two distinct nodes and whoever comes first in the first round:
    -- the thread that comes again finds nobody and sleeps, the queue has one entry, the other is
    -- the leader, and the queue is empty.
    test_barrier_passes :
        (first : List (Ptr × W)) (m : Mem (List W) W)
        → IsList outer m []
        → Comers [] first
        → length first ≡ 2
        → Returns (λ r m'. r ≡ ((sleeps, 1), leader, 0)) (test_barrier outer first (p, w) (q, v) m)
    unfolding test_barrier
    test_barrier_passes first m is come two =
        Returns.bind (Met outer 2 fits first [] 0 m) (λ r m'. r ≡ ((sleeps, 1), leader, 0))
          (meet 2 outer first 0 m) _
          (meet-Met outer 2 fits first [] 0 m is come (omega arith) (omega arith))
          λ met m1 done.
            let is1 = made-IsList outer 2 fits p w [] m1 done.is_list refl in
            let new = update_same m1.nodes p (some (Defs.new_node w)) in
            Returns.bind
              (λ r m'.
                (r ≡ sleeps)
                × Joined outer 2 p [] (made outer 2 fits p w m1) is1 w (omega arith) (omega arith)
                    p_real new (omega arith) m')
              (λ r m'. r ≡ ((sleeps, 1), leader, 0)) (wait 2 outer p (made outer 2 fits p w m1)) _
              (wait-sleeps outer 2 p [] (made outer 2 fits p w m1) is1 w (omega arith) (omega arith)
                p_real new (omega arith))
              λ r m2 (sleep, put).
                Returns.bind (λ r m'. (r ≡ leader) × (m'.inner.count ≡ 0))
                  (λ r m'. r ≡ ((sleeps, 1), leader, 0)) (wait 2 outer q (made outer 2 fits q v m2))
                  _ (late m2 put.is_list)
                  λ r' m3 (lead, none_left).
                    cc (sleep, lead, none_left, ap (λ l. l.count) put.is_list.inner)

module _ {W : Type 0} (outer slot : Ptr) (waker : W) where
  -- The future is polled once and dropped when the time is up: what the poll gave, and the count
  -- of the queue in the end.
  unfoldable pub async_test_barrier_cancel : Cmd (List W) W (Poll × ℕ)
  async_test_barrier_cancel = do
    r ← poll 2 outer slot none waker
    clear_slot outer slot
    n ← Defs.count
    pure (r, n)

  -- From an empty barrier the poll is pending, and the queue is empty in the end.
  async_test_barrier_cancel_passes :
      (m : Mem (List W) W)
      → slot ≢ null
      → IsList outer m []
      → m.nodes slot ≡ none
      → Returns (λ r m'. r ≡ (pending, 0)) (async_test_barrier_cancel m)
  unfolding async_test_barrier_cancel
  async_test_barrier_cancel_passes m ne is e =
      Returns.bind (Turn outer 2 slot waker [] [] m) (λ r m'. r ≡ (pending, 0))
        (poll 2 outer slot none waker m) _
        (poll-Turn outer 2 slot waker [] [] m ne (omega arith) (omega arith) none refl
          (absent e is))
        λ r m1 turn. elim turn [
          | inl (full, lead) ↦ absurd (omega (arith, full))
          | inr (short, pend) ↦
              Returns.bind (λ _. Cleared outer slot [] [] m1) (λ r m'. r ≡ (pending, 0))
                (clear_slot outer slot m1) _ pend.dropped
                λ _ m2 c. cc (pend.result, ap (λ l. l.count) c.is_list.inner)
        ]

-- The results of the two polls of the spawned task and of that of the other in between, and which
-- wakers were called.
abbrev pub Polls : Type 0
Polls = Run (List ℕ) ℕ (Poll × Poll × Poll × List ℕ)

-- The spawned task has its poller at 1 and is woken as 1, the other at 2 and as 2.
unfoldable pub async_test_barrier : Polls
async_test_barrier =
    (do
      r ← poll 2 9 1 none 1
      r' ← poll 2 9 2 none 2
      r'' ← poll 2 9 1 (some true) 1
      λ m. ok (r, r', r'', m.env) m)
      (record { nodes = λ _. none; inner = Defs.new_list; env = [] })

abbrev results : Polls → Option (Poll × Poll × Poll × List ℕ)
results (ok r m) = some r
results fault = none
results out_of_fuel = none

-- The first poll is pending, the other task leads and wakes the first, whose next poll is ready.
async_test_barrier_passes :
    results async_test_barrier ≡ some (pending, ready true, ready false, 1 ∷ [])
unfolding async_test_barrier poll poll_rest clear_slot lock_inner wake_all Defs.push_head
    Defs.link_head Defs.pop_head Defs.take_node Defs.take_data Defs.remove_node Defs.unlink
    Defs.unlink_head Defs.unlink_tail Defs.unlink_middle Heap.node_at Heap.set_next Heap.set_prev
    Heap.set_list Heap.set_data Heap.set_on_list
async_test_barrier_passes = refl
