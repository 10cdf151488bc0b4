-- ===== src/Intrusive/Push.antt =====
-- `push_head` and `push_tail`.
use colock.Base.{
  ℕ, sym, ◌+◌, ◌<◌, ◌≡◌, refl, ◌≢◌, false, some, [], ◌∷◌, ◌++◌, arith, update, update_ne2,
  update_same, usize_mod, length, length-append,
}
use colock.Intrusive.Heap.{
  node_at, set_next, set_prev, set_list, Ptr, null, Result, success, Node, Mem, ok,
}
use colock.Intrusive.Defs.{new_node, new_list, push_head, push_tail}
use colock.Intrusive.Chain.{
  Cells, has, last, has-last, has-ne-null, not-has_of_off, ne_of_has, node_of_last, last-append,
  not-has-left, not-has-right, ne_of_not-has_head, Chain-append, Chain-relink_last, linked,
  Chain-update, Chain-relink_first, list_of, IsList,
}
use colock.Intrusive.Returns.{Returns}

module _ {E D : Type 0} where
  -- The pushes by their effect on memory: on an empty list, and on one with an end node `n`.
  module _ (outer node : Ptr) (d : D) (m : Mem E D) (ne : node ≢ null)
      (e : m.nodes node ≡ some (new_node d)) where
    abbrev alone : Mem E D
    alone = record {
      nodes = update m.nodes node (some (linked outer null null (some d)));
      inner = list_of ((node, some d) ∷ []);
      env = m.env;
    }

    push_head-eq_nil : m.inner ≡ new_list → push_head outer node m ≡ ok (success 1) alone
    unfolding push_head set_list node_at set_next set_prev
    push_head-eq_nil is = ground arith

    push_tail-eq_nil : m.inner ≡ new_list → push_tail outer node m ≡ ok (success 1) alone
    unfolding push_tail set_list node_at set_next set_prev
    push_tail-eq_nil is = ground arith

    module _ (p : Ptr) (n : Node D) (pn : p ≢ null) (apart : p ≢ node) (ep : m.nodes p ≡ some n)
        (q : Ptr) (qn : q ≢ null) (c : ℕ) (room : c + 1 < usize_mod) where
      push_head-eq :
          m.inner ≡ record { head = p; tail = q; count = c }
          → n.prev ≡ null
          → push_head outer node m
            ≡ ok (success (c + 1)) (record {
              nodes =
                  update
                    (update m.nodes p (some (record n { prev = node })))
                    node
                    (some (linked outer null p (some d)));
              inner = record { head = node; tail = q; count = c + 1 };
              env = m.env;
            })
      unfolding push_head set_list node_at set_next set_prev
      push_head-eq is first_one = ground arith

      push_tail-eq :
          m.inner ≡ record { head = q; tail = p; count = c }
          → n.next ≡ null
          → push_tail outer node m
            ≡ ok (success (c + 1)) (record {
              nodes =
                  update
                    (update m.nodes p (some (record n { next = node })))
                    node
                    (some (linked outer p null (some d)));
              inner = record { head = q; tail = node; count = c + 1 };
              env = m.env;
            })
      unfolding push_tail set_list node_at set_next set_prev
      push_tail-eq is last_one = ground arith

  -- What a push of `node` leaves: the list `ys`, and all else as it was.
  pub record Pushed (outer node : Ptr) (m : Mem E D) (ys : Cells D) (r : Result ℕ) (m' : Mem E D)
      : Type 0 where
    pub result : r ≡ success (length ys)
    pub is_list : IsList outer m' ys
    pub env : m'.env ≡ m.env
    pub same : (p : Ptr) → has p ys ≡ false → m'.nodes p ≡ m.nodes p

  module _ (outer node : Ptr) (d : D) (m : Mem E D) (ne : node ≢ null)
      (e : m.nodes node ≡ some (new_node d)) where
    -- push_head of a fresh node, with room in the count, puts it in front of the linked list,
    -- returns the new length, and changes no node outside the list.
    pub push_head-on :
        (xs : Cells D)
        → IsList outer m xs
        → length xs + 1 < usize_mod
        → Returns (Pushed outer node m ((node, some d) ∷ xs)) (push_head outer node m)
    push_head-on [] is room = rw (push_head-eq_nil outer node d m ne e is.inner) (record {
      result = refl;
      is_list = record { inner = refl; chain = (ne, update_same m.nodes node _, refl, tt) };
      env = refl;
      same = λ p out. ground arith;
    })
    push_head-on ((p, f) ∷ xs) is room =
        rw
          (push_head-eq outer node d m ne e p _ is.chain.0 apart is.chain.1 (last xs p)
            (has-ne-null outer m.nodes null ((p, f) ∷ xs) null (last xs p) is.chain
              (has-last p f xs))
            _ room is.inner refl)
          (record {
            result = ground arith;
            is_list = record {
              inner = ground arith;
              chain = (
                ne,
                ground arith,
                fresh,
                Chain-update outer _ node ((p, f) ∷ xs) null node _
                    (Chain-relink_first outer m.nodes null node p f xs null is.chain) fresh,
              );
            };
            env = refl;
            same = λ q out. ground arith;
          })
      where
        fresh : has node ((p, f) ∷ xs) ≡ false
        fresh =
            not-has_of_off outer m.nodes null ((p, f) ∷ xs) null node (new_node d) is.chain e refl

        apart : p ≢ node
        apart = ground (arith, fresh)

    -- push_tail of a fresh node, with room in the count, puts it behind the linked list, returns
    -- the new length, and changes no node outside the list.
    pub push_tail-on :
        (xs : Cells D)
        → IsList outer m xs
        → length xs + 1 < usize_mod
        → Returns (Pushed outer node m (xs ++ (node, some d) ∷ [])) (push_tail outer node m)
    push_tail-on [] is room = rw (push_tail-eq_nil outer node d m ne e is.inner) (record {
      result = refl;
      is_list = record { inner = refl; chain = (ne, update_same m.nodes node _, refl, tt) };
      env = refl;
      same = λ p out. ground arith;
    })
    push_tail-on ((p, f) ∷ xs) is room =
        let (before, g, at_last) = node_of_last outer m.nodes null p f xs null is.chain in
        rw
          (push_tail-eq outer node d m ne e (last xs p) (linked outer before null g)
            (has-ne-null outer m.nodes null ((p, f) ∷ xs) null (last xs p) is.chain
              (has-last p f xs))
            (λ z. ne_of_has ((p, f) ∷ xs) node (last xs p) fresh (has-last p f xs) (sym z)) at_last
            p is.chain.0 _ room is.inner refl)
          (record {
            result = ground (arith, length-append ((p, f) ∷ xs) ((node, some d) ∷ []));
            is_list = record {
              inner = ground (
                arith,
                length-append ((p, f) ∷ xs) ((node, some d) ∷ []),
                last-append xs ((node, some d) ∷ []) p,
              );
              chain =
                  Chain-append outer _ null ((p, f) ∷ xs) ((node, some d) ∷ []) null
                    (Chain-update outer _ null ((p, f) ∷ xs) node node _
                      (Chain-relink_last outer m.nodes null p f xs null node is.chain _ at_last)
                      fresh)
                    (ne, ground arith, refl, tt)
                    (λ r i. ground (arith, ne_of_has ((p, f) ∷ xs) node r fresh i));
            };
            env = refl;
            same = λ r out.
                update_ne2 m.nodes r (last xs p) node _ _
                  (ne_of_has ((p, f) ∷ xs) r (last xs p)
                    (not-has-left r ((p, f) ∷ xs) ((node, some d) ∷ []) out) (has-last p f xs))
                  (ne_of_not-has_head r node (some d) []
                    (not-has-right r ((p, f) ∷ xs) ((node, some d) ∷ []) out));
          })
      where
        fresh : has node ((p, f) ∷ xs) ≡ false
        fresh =
            not-has_of_off outer m.nodes null ((p, f) ∷ xs) null node (new_node d) is.chain e refl
