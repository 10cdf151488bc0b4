-- ===== src/Barrier/Slot.antt =====
-- The slot of a `BarrierPoller` that holds its node, and `self_mut.node = None`.
use colock.Base.{
  ◌≡◌, refl, false, none, some, List, [], ◌∷◌, ◌++◌, arith, update_same, ne→eq_false, subst,
  eq_self,
}
use colock.Intrusive.Heap.{Ptr, null, Mem, node_at}
use colock.Intrusive.Defs.{remove_node}
use colock.Intrusive.Concurrent.{drop_node}
use colock.Intrusive.Chain.{Cells, has, Chain, IsList, Chain-update, Chain-right, not-has_of_off}
use colock.Intrusive.Fresh.{from_head, from_head-append}
use colock.Intrusive.Unlink.{Removed, remove_node-Removed}
use colock.Intrusive.Returns
use colock.Intrusive.Returns.{Returns}
use colock.Barrier.{clear_slot}

module _ {W : Type 0} where
  -- A null slot is none of the chain's nodes.
  not-has_of_none :
      (outer : Ptr) (m : Mem (List W) W) (b : Ptr) (xs : Cells W) (a p : Ptr)
      → Chain outer m.nodes b xs a
      → m.nodes p ≡ none
      → has p xs ≡ false
  not-has_of_none outer m b [] a p c e = refl
  not-has_of_none outer m b ((q, d) ∷ xs) a p c e =
      ground (arith, not-has_of_none outer m q xs a p c.3 e)

  module _ (outer slot : Ptr) (ys zs : List (Ptr × W)) where
    -- The poller has no node, or its node waits with data `w` behind `ys` and before `zs`.
    pub data AtSlot (m : Mem (List W) W) : Type 0 where
      absent : m.nodes slot ≡ none → IsList outer m (from_head (ys ++ zs)) → AtSlot m
      waiting : (w : W) → IsList outer m (from_head (ys ++ (slot, w) ∷ zs)) → AtSlot m

    pub record Cleared (m m' : Mem (List W) W) : Type 0 where
      pub is_list : IsList outer m' (from_head (ys ++ zs))
      pub empty : m'.nodes slot ≡ none
      pub env : m'.env ≡ m.env

    pub Cleared-out :
        (m m' : Mem (List W) W) → Cleared m m' → has slot (from_head (ys ++ zs)) ≡ false
    Cleared-out m m' c =
        not-has_of_none outer m' null (from_head (ys ++ zs)) null slot c.is_list.chain c.empty

    pub clear_slot-Cleared :
        (m : Mem (List W) W) → AtSlot m → Returns (λ _. Cleared m) (clear_slot outer slot m)
    unfolding clear_slot drop_node node_at
    clear_slot-Cleared m (absent e is) =
        rw (clear_slot, e) (record { is_list = is; empty = e; env = refl })
    clear_slot-Cleared m (waiting w is) =
        let xs : Cells W = from_head ys in
        let is' : IsList outer m (xs ++ (slot, some w) ∷ from_head zs) =
          subst (IsList outer m) (from_head-append ys ((slot, w) ∷ zs)) is in
        let c = Chain-right outer m.nodes null xs ((slot, some w) ∷ from_head zs) null is'.chain in
        rw (clear_slot, c.1, ne→eq_false slot null c.0, c.1, eq_self)
          (Returns.bind (λ _. Removed outer slot (some w) xs (from_head zs) m) (λ _. Cleared m)
            (remove_node slot m) _ (remove_node-Removed outer slot (some w) m xs (from_head zs) is')
            λ _ m' got.
              let free : has slot (xs ++ from_head zs) ≡ false =
                not-has_of_off outer m'.nodes null (xs ++ from_head zs) null slot _
                  got.is_list.chain got.gone refl in
              record {
                is_list = rw (from_head-append ys zs) (record {
                  inner = got.is_list.inner;
                  chain =
                      Chain-update outer m'.nodes null (xs ++ from_head zs) null slot none
                        got.is_list.chain free;
                });
                empty = update_same m'.nodes slot none;
                env = got.env;
              })
