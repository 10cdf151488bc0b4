-- ===== src/Intrusive/Dirty.antt =====
-- What the pushes do with a node that is not fresh from `Node::new`.
use colock.Base.{
  ℕ, ◌+◌, ◌<◌, ◌≡◌, ◌≢◌, refl, ap, true, false, ◌⊎◌, Option, none, some, [], ◌∷◌, ◌++◌, arith,
  update, length, usize_mod, Bool-cases, inl, inr, subst, sym,
}
use colock.Intrusive.Heap.{
  Ptr, null, Result, dirty_node, failure, Node, Mem, Run, ok, fault, node_at, set_next,
}
use colock.Intrusive.Defs.{
  new_node, is_dirty, push_head, push_tail, pop_head, remove_node, take_node, take_data,
}
use colock.Intrusive.Concurrent.{drop_node}
use colock.Intrusive.Chain.{
  Cells, has, first, last, linked, has-last, ne_of_has, Chain, Chain-frame, Chain-update, IsList,
  not-has_of_off,
}
use colock.Intrusive.Push.{Pushed, push_head-on, push_tail-on}
use colock.Intrusive.Unlink.{Removed, remove_node-Removed}
use colock.Intrusive.Pop.{absent, pop_head-eq, take_data-eq}
use colock.Intrusive.Returns
use colock.Intrusive.Returns.{Returns}

module _ {D : Type 0} where
  -- Linked to nothing, of no list, and not marked as on one.
  pub record IsClean (n : Node D) : Type 0 where
    pub next : n.next ≡ null
    pub prev : n.prev ≡ null
    pub list : n.list ≡ null
    pub off : n.is_on_list ≡ false

  is_dirty-false : (n : Node D) → is_dirty n ≡ false → IsClean n
  is_dirty-false n fresh = record {
    next = ground arith;
    prev = ground arith;
    list = ground arith;
    off = ground arith;
  }

  -- A node off the list may change, and one that is on it is marked already.
  flagged-Chain :
      (outer : Ptr) (h : Ptr → Option (Node D)) (b : Ptr) (xs : Cells D) (a node : Ptr) (n : Node D)
      → h node ≡ some n
      → Chain outer h b xs a
      → Chain outer (update h node (some (record n { is_on_list = true }))) b xs a
  flagged-Chain outer h b xs a node n e c = elim (Bool-cases n.is_on_list) [
    | inl on ↦ Chain-frame outer h b xs a c (λ p i. ground (arith, e, on))
    | inr off ↦ Chain-update outer h b xs a node _ c (not-has_of_off outer h b xs a node n c e off)
  ]

module _ {E D : Type 0} where
  -- Memory in which the flag of the node `n` alone has changed: it says that it is on a list.
  abbrev pub flagged : Ptr → Node D → Mem E D → Mem E D
  flagged node n m = record m {
    nodes = update m.nodes node (some (record n { is_on_list = true }));
  }

  pub record Refused (outer node : Ptr) (n : Node D) (m : Mem E D) (xs : Cells D)
      (run : Run E D (Result ℕ)) : Type 0 where
    pub result : run ≡ ok (failure dirty_node) (flagged node n m)
    pub is_list : IsList outer (flagged node n m) xs

  module _ (outer node : Ptr) (n : Node D) (m : Mem E D) (xs : Cells D) (ne : node ≢ null)
      (e : m.nodes node ≡ some n) (is : IsList outer m xs) where
    flagged-IsList : IsList outer (flagged node n m) xs
    flagged-IsList = record {
      inner = is.inner;
      chain = flagged-Chain outer m.nodes null xs null node n e is.chain;
    }

    refused :
        is_dirty n ≡ true
        → Refused outer node n m xs (push_head outer node m)
          × Refused outer node n m xs (push_tail outer node m)
    unfolding push_head push_tail node_at
    refused dirty = (
      record { result = ground arith; is_list = flagged-IsList },
      record { result = ground arith; is_list = flagged-IsList },
    )

    clean-new : (d : D) → n.data_of ≡ some d → IsClean n → m.nodes node ≡ some (new_node d)
    clean-new d full clean = ground (arith, e, full, clean.next, clean.prev, clean.list, clean.off)

    -- With a linked list in memory and room in its count, for a node that holds data: if the node
    -- is clean (next, prev and list null, is_on_list down), push_head puts it in front and
    -- push_tail behind, each returning the new length; if not, both refuse it with DirtyNode,
    -- change nothing but its flag is_on_list, which is then up, and leave the list as it was.
    pub push_refuses_dirty :
        (d : D)
        → n.data_of ≡ some d
        → length xs + 1 < usize_mod
        → (IsClean n
            × Returns (Pushed outer node m ((node, some d) ∷ xs)) (push_head outer node m)
            × Returns (Pushed outer node m (xs ++ (node, some d) ∷ [])) (push_tail outer node m))
          ⊎ (¬ IsClean n
              × Refused outer node n m xs (push_head outer node m)
              × Refused outer node n m xs (push_tail outer node m))
    push_refuses_dirty d full room = elim (Bool-cases (is_dirty n)) [
      | inl dirty ↦
          let (at_head, at_tail) = refused dirty in
          inr (
            (λ clean. ground (arith, clean.next, clean.prev, clean.list, clean.off)),
            at_head,
            at_tail,
          )
      | inr fresh ↦
          let clean = is_dirty-false n fresh in
          inl (
            clean,
            push_head-on outer node d m ne (clean-new d full clean) xs is room,
            push_tail-on outer node d m ne (clean-new d full clean) xs is room,
          )
    ]

-- The first node of a list, in front of `zs`, as a pop leaves it.
abbrev pub popped : {D : Type 0} → Ptr → Cells D → Node D
popped outer zs = record (linked outer null (first zs null) none) { is_on_list = false }

-- The first node of a list is popped and pushed again.
module _ {E D : Type 0} (outer x : Ptr) (d : D) (zs : Cells D) (m : Mem E D) (real : outer ≢ null)
    (is : IsList outer m ((x, some d) ∷ zs)) where
  pop_head-popped :
      Returns (λ _ m'. (m'.nodes x ≡ some (popped outer zs)) × IsList outer m' zs) (pop_head m)
  unfolding take_node
  pop_head-popped = rw (pop_head-eq outer x d m (ap (λ l. l.head) is.inner) is.chain.0) (
      Returns.bind (λ _. Removed outer x (some d) [] zs m)
        (λ _ m'. (m'.nodes x ≡ some (popped outer zs)) × IsList outer m' zs) (remove_node x m)
        (λ _. take_data x) (remove_node-Removed outer x (some d) m [] zs is)
        λ _ m' gone. rw (take_data-eq x _ d m' is.chain.0 gone.gone refl) (
          ground arith,
          record {
            inner = gone.is_list.inner;
            chain =
                Chain-update outer m'.nodes null zs null x _ gone.is_list.chain
                  (absent outer x (some d) m [] zs is);
          },
        ))

  middle-faults :
      (m' : Mem E D)
      → m'.inner.head ≢ x
      → m'.inner.tail ≢ x
      → drop_node outer x (flagged x (popped outer zs) m') ≡ fault
  unfolding drop_node remove_node node_at set_next
  middle-faults m' not_head not_tail = ground (arith, is.chain.0)

  first-out : (ys : Cells D) → has x ys ≡ false → first ys null ≢ x
  first-out [] out = ground (arith, is.chain.0)
  first-out ((p, f) ∷ ys) out = ground arith

  last-out : (ys : Cells D) → has x ys ≡ false → last ys null ≢ x
  last-out [] out = ground (arith, is.chain.0)
  last-out ((p, f) ∷ ys) out =
      λ same. ne_of_has ((p, f) ∷ ys) x (last ys p) out (has-last p f ys) (sym same)

  -- On a list of a ConcurrentIntrusiveList whose address is not null, once pop_head has popped
  -- the first node, which held data, push_head refuses that node with DirtyNode, which leaves the
  -- rest of the list as it is but the flag is_on_list of the node up; dropping the node then
  -- faults.
  pub refused-drop-faults :
      Returns
        (λ _ m'.
          Refused outer x (popped outer zs) m' zs (push_head outer x m')
          × (drop_node outer x (flagged x (popped outer zs) m') ≡ fault))
        (pop_head m)
  refused-drop-faults =
      Returns.mono (λ _ m'. (m'.nodes x ≡ some (popped outer zs)) × IsList outer m' zs) _
        (pop_head m) pop_head-popped
        λ _ m' (e, is'). (
          (refused outer x (popped outer zs) m' zs is.chain.0 e is' (ground (arith, real))).0,
          middle-faults m' (subst (λ l. l.head ≢ x) (sym is'.inner) (first-out zs is.chain.2))
              (subst (λ l. l.tail ≢ x) (sym is'.inner) (last-out zs is.chain.2)),
        )
