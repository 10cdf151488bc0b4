-- ===== src/Barrier/Repoll.antt =====
-- A task at the barrier that is polled while the last to arrive wakes all: `poll` in
-- colock/src/barrier.rs reads the parker's flag before it takes the list's lock.
use colock.Base.{
  ◌<◌, ◌≡◌, ◌≢◌, ap, ◌∙◌, Bool, true, false, none, some, Option, List, [], ◌∷◌, ◌++◌, arith, length,
  suc, update, update_same, ne→eq_false,
}
use colock.Intrusive.Heap.{Ptr, null, Node, Mem, ok, ◌>>◌, node_at}
use colock.Intrusive.Defs
use colock.Intrusive.Concurrent
use colock.Intrusive.Chain.{has, IsList}
use colock.Intrusive.Fresh.{from_head}
use colock.Intrusive.Returns
use colock.Intrusive.Returns.{Returns}
use colock.Barrier.{
  Poll, polled, pending, is_woken, leader, clear_slot, lock_inner, poll_rest, poll, wait,
}
use colock.Barrier.Wake.{wakers, Woken, wait-leader, lock_inner-short, Joined}

module _ {W : Type 0} where
  -- The slot's node is off its list, so that its drop changes no other node.
  clear_slot-off :
      (outer slot : Ptr) (m : Mem (List W) W) (n : Node W)
      → slot ≢ null
      → m.nodes slot ≡ some n
      → n.is_on_list ≡ false
      → clear_slot outer slot m ≡ ok tt (record m { nodes = update m.nodes slot none })
  unfolding clear_slot Concurrent.drop_node node_at
  clear_slot-off outer slot m n ne e off = ground (arith, e)

  module _ (outer target slot : Ptr) (waker : W) where
    -- The task waits alone, and the wakers `zs` were woken before.
    pub record WaitsAgain (zs : List (Ptr × W)) (m : Mem (List W) W) (r : Poll)
        (m' : Mem (List W) W) : Type 0 where
      pub result : r ≡ pending
      pub is_list : IsList outer m' (from_head ((slot, waker) ∷ []))
      pub env : m'.env ≡ m.env ++ wakers zs

    module _ (zs : List (Ptr × W)) (m : Mem (List W) W) (several : 1 < target)
        (waits : has slot (from_head zs) ≡ true) (ne : slot ≢ null) where
      poll_rest-Woken :
          (m' : Mem (List W) W)
          → Woken outer zs m m'
          → Returns (WaitsAgain zs m) (poll_rest target outer slot waker m')
      unfolding poll_rest
      poll_rest-Woken m' done =
          let (n, e, off) = (done.off slot waits) in
          let m2 : Mem (List W) W = record m' {
            nodes = update (update m'.nodes slot none) slot (some (Defs.new_node waker));
          } in
          let is : IsList outer m2 [] = record { inner = done.is_list.inner; chain = tt } in
          let pushed : m2.nodes slot ≡ some (Defs.new_node waker) =
            update_same (update m'.nodes slot none) slot (some (Defs.new_node waker)) in
          rw (clear_slot-off outer slot m' n ne e off) (
            Returns.bind
              (λ b m3.
                (b ≡ true)
                × Joined outer target slot [] m2 is waker (omega arith) (omega arith) ne pushed
                    (omega arith) m3)
              (WaitsAgain zs m) (lock_inner target outer slot m2) _
              (lock_inner-short outer target slot [] m2 is waker (omega arith) (omega arith) ne
                pushed (omega arith))
              λ b m3 (sleep, put). record {
                result = ap polled sleep;
                is_list = put.is_list;
                env = put.env ∙ done.env;
              })

      -- When all others of a barrier with a target above 1 wait, the node of a task among them,
      -- and the last arrives and wakes them all after a poll of the task has read its flag as
      -- down, or has found no parker, and before that poll goes on, then the poll is pending and
      -- its node is the only one on the list: the task waits again although its round is over.
      pub poll_misses_round :
          (node : Ptr) (flag : Option Bool)
          → target ≡ suc (length zs)
          → is_woken flag ≡ false
          → IsList outer m (from_head zs)
          → Returns
              (WaitsAgain zs m)
              ((wait target outer node >> poll target outer slot flag waker) m)
      unfolding poll
      poll_misses_round node flag full down is =
          rw (ne→eq_false target 0 (omega arith), down)
            (Returns.bind (λ r m'. (r ≡ leader) × Woken outer zs m m') (WaitsAgain zs m)
              (wait target outer node m) _ (wait-leader outer target node zs m is full)
              λ r m' (lead, done). poll_rest-Woken m' done)
