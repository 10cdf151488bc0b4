-- ===== src/Barrier/Poller.antt =====
-- Polls of a `BarrierPoller` during a round: `poll` in colock/src/barrier.rs.
use colock.Base.{
  suc, ◌<◌, ◌≡◌, ◌≢◌, ap, ◌∙◌, true, false, some, Option, Bool, List, [], ◌∷◌, ◌++◌, arith, length,
  usize_mod, update, update_same, ne→eq_false, ◌==◌, Bool-cases, eq_of_test, inl, inr, ◌⊎◌,
}
use colock.Intrusive.Heap.{Ptr, null, Mem}
use colock.Intrusive.Defs
use colock.Intrusive.Chain.{IsList, Chain-update}
use colock.Intrusive.Fresh.{from_head}
use colock.Intrusive.Returns
use colock.Intrusive.Returns.{Returns}
use colock.Barrier.{Poll, polled, pending, ready, is_woken, clear_slot, lock_inner, poll_rest, poll}
use colock.Barrier.Wake.{wakers, Woken, lock_inner-full, lock_inner-short, Joined}
use colock.Barrier.Slot.{AtSlot, waiting, Cleared, Cleared-out, clear_slot-Cleared}

module _ {W : Type 0} (outer target slot : Ptr) (waker : W) (ys zs : List (Ptr × W)) where
  -- The task waits at the head of the list, and dropping its poller takes it out again.
  pub record Pends (m : Mem (List W) W) (r : Poll) (m' : Mem (List W) W) : Type 0 where
    pub result : r ≡ pending
    pub is_list : IsList outer m' (from_head ((slot, waker) ∷ ys ++ zs))
    pub env : m'.env ≡ m.env
    pub dropped : Returns (λ _. Cleared outer slot [] (ys ++ zs) m') (clear_slot outer slot m')

  -- The task is the leader, and the others were woken, from the head.
  pub record Leads (m : Mem (List W) W) (r : Poll) (m' : Mem (List W) W) : Type 0 where
    pub result : r ≡ ready true
    pub is_list : IsList outer m' []
    pub env : m'.env ≡ m.env ++ wakers (ys ++ zs)

  abbrev pub Turn : Mem (List W) W → Poll → Mem (List W) W → Type 0
  Turn m r m' =
      ((target ≡ suc (length (ys ++ zs))) × Leads m r m')
      ⊎ ((target ≢ suc (length (ys ++ zs))) × Pends m r m')

  module _ (m : Mem (List W) W) (ne : slot ≢ null) (room : length (ys ++ zs) < target)
      (fits : target < usize_mod) where
    -- The slot's memory with its new node.
    abbrev refilled : Mem (List W) W → Mem (List W) W
    refilled m' = record m' { nodes = update m'.nodes slot (some (Defs.new_node waker)) }

    refilled-IsList :
        (m' : Mem (List W) W)
        → Cleared outer slot ys zs m m'
        → IsList outer (refilled m') (from_head (ys ++ zs))
    refilled-IsList m' c = record {
      inner = c.is_list.inner;
      chain =
          Chain-update outer m'.nodes null (from_head (ys ++ zs)) null slot _ c.is_list.chain
            (Cleared-out outer slot ys zs m m' c);
    }

    poll_rest-Leads :
        (m' : Mem (List W) W)
        → Cleared outer slot ys zs m m'
        → target ≡ suc (length (ys ++ zs))
        → Returns (λ b m''. Leads m (polled b) m'') (lock_inner target outer slot (refilled m'))
    poll_rest-Leads m' c full =
        Returns.mono (λ b m''. (b ≡ false) × Woken outer (ys ++ zs) (refilled m') m'')
          (λ b m''. Leads m (polled b) m'') (lock_inner target outer slot (refilled m'))
          (lock_inner-full outer target slot (ys ++ zs) (refilled m') (refilled-IsList m' c) full)
          λ b m'' (leader, done). record {
            result = ap polled leader;
            is_list = done.is_list;
            env = done.env ∙ ap (λ e. e ++ wakers (ys ++ zs)) c.env;
          }

    poll_rest-Pends :
        (m' : Mem (List W) W)
        → Cleared outer slot ys zs m m'
        → target ≢ suc (length (ys ++ zs))
        → Returns (λ b m''. Pends m (polled b) m'') (lock_inner target outer slot (refilled m'))
    poll_rest-Pends m' c short =
        let e : (refilled m').nodes slot ≡ some (Defs.new_node waker) =
          update_same m'.nodes slot (some (Defs.new_node waker)) in
        let is = refilled-IsList m' c in
        Returns.mono
          (λ b m''.
            (b ≡ true)
            × Joined outer target slot (ys ++ zs) (refilled m') is waker (omega arith) short ne e
                (omega arith) m'')
          (λ b m''. Pends m (polled b) m'') (lock_inner target outer slot (refilled m'))
          (lock_inner-short outer target slot (ys ++ zs) (refilled m') is waker (omega arith) short
            ne e (omega arith))
          λ b m'' (sleep, put). record {
            result = ap polled sleep;
            is_list = put.is_list;
            env = put.env ∙ c.env;
            dropped = clear_slot-Cleared outer slot [] (ys ++ zs) m'' (waiting waker put.is_list);
          }

    -- While fewer others wait than the target, below 2 ^ 64, a poll of a task that has no node,
    -- or whose node waits anywhere on the list, and that has not been woken, ends. If the others
    -- are all but one of the target, it is ready as the leader, all others are woken from the
    -- head, and the list is empty. Otherwise it is pending, with its one node and its new waker
    -- at the head and the others in order, and dropping the poller then leaves just the others on
    -- the list.
    pub poll-Turn :
        (flag : Option Bool)
        → is_woken flag ≡ false
        → AtSlot outer slot ys zs m
        → Returns (Turn m) (poll target outer slot flag waker m)
    unfolding poll poll_rest
    poll-Turn flag down at_slot =
        rw (ne→eq_false target 0 (omega arith), down)
          (Returns.bind (λ _. Cleared outer slot ys zs m) (Turn m) (clear_slot outer slot m) _
            (clear_slot-Cleared outer slot ys zs m at_slot)
            λ _ m' c. elim (Bool-cases (target == suc (length (ys ++ zs)))) [
              | inl here ↦
                  let full : target ≡ suc (length (ys ++ zs)) =
                    eq_of_test target (suc (length (ys ++ zs))) here in
                  Returns.bind (λ b m''. Leads m (polled b) m'') (Turn m)
                    (lock_inner target outer slot (refilled m')) _ (poll_rest-Leads m' c full)
                    λ b m'' lead. inl (full, lead)
              | inr away ↦
                  let short : target ≢ suc (length (ys ++ zs)) = ground arith in
                  Returns.bind (λ b m''. Pends m (polled b) m'') (Turn m)
                    (lock_inner target outer slot (refilled m')) _ (poll_rest-Pends m' c short)
                    λ b m'' pend. inr (short, pend)
            ])
