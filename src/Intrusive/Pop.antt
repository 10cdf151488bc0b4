-- ===== src/Intrusive/Pop.antt =====
-- `pop_head` and `pop_tail`.
use colock.Base.{
  sym, ap, ◌∙◌, append-nil, ◌≡◌, refl, ◌≢◌, false, Option, none, some, [], ◌∷◌, ◌++◌, arith,
  ne→eq_false, update,
}
use colock.Intrusive.Heap.{Ptr, null, Node, Mem, ok, node_at, set_data, set_on_list}
use colock.Intrusive.Defs.{remove_node, take_data, take_node, pop_head, pop_tail}
use colock.Intrusive.Chain.{
  Cells, has, first, last, linked, Chain-update, Chain-right, Chain-apart_back, IsList, has-append,
  last-append,
}
use colock.Intrusive.Unlink.{Removed, remove_node-Removed}
use colock.Intrusive.Returns
use colock.Intrusive.Returns.{Returns}

module _ {E D : Type 0} where
  -- A node of a list does not stand in what is left without it.
  pub absent :
      (outer x : Ptr) (d : Option D) (m : Mem E D) (ys zs : Cells D)
      → IsList outer m (ys ++ (x, d) ∷ zs)
      → has x (ys ++ zs) ≡ false
  absent outer x d m ys zs is = ground (
    arith,
    has-append x ys zs,
    Chain-apart_back outer m.nodes null ys ((x, d) ∷ zs) null x is.chain (ground arith),
    Chain-right outer m.nodes null ys ((x, d) ∷ zs) null is.chain,
  )

  -- The node at `x` has given its data away, and `rest` is the list that is left.
  pub record Popped (outer x : Ptr) (d : D) (all rest : Cells D) (m : Mem E D) (r : Option D)
      (m' : Mem E D) : Type 0 where
    pub result : r ≡ some d
    pub is_list : IsList outer m' rest
    pub emptied : (n : Node D) × (m'.nodes x ≡ some n) × (n.data_of ≡ none) × (n.is_on_list ≡ false)
    pub env : m'.env ≡ m.env
    pub same : (p : Ptr) → has p all ≡ false → m'.nodes p ≡ m.nodes p

  pub take_data-eq :
      (x : Ptr) (n : Node D) (d : D) (m : Mem E D)
      → x ≢ null
      → m.nodes x ≡ some n
      → n.data_of ≡ some d
      → take_data x m
        ≡ ok (some d) (record m {
          nodes = update m.nodes x (some (record n { data_of = none; is_on_list = false }));
        })
  unfolding take_data node_at set_data set_on_list
  take_data-eq x n d m ne e full = ground arith

  module _ (outer x : Ptr) (d : D) (m : Mem E D) where
    take_node-Popped :
        (ys zs : Cells D)
        → IsList outer m (ys ++ (x, some d) ∷ zs)
        → Returns (Popped outer x d (ys ++ (x, some d) ∷ zs) (ys ++ zs) m) (take_node x m)
    unfolding take_node
    take_node-Popped ys zs is =
        Returns.bind (λ _. Removed outer x (some d) ys zs m)
          (Popped outer x d (ys ++ (x, some d) ∷ zs) (ys ++ zs) m) (remove_node x m)
          (λ _. take_data x) (remove_node-Removed outer x (some d) m ys zs is)
          λ _ m' gone. rw (take_data-eq x _ d m' ne gone.gone refl) (record {
            result = refl;
            is_list = record {
              inner = gone.is_list.inner;
              chain =
                  Chain-update outer m'.nodes null (ys ++ zs) null x _ gone.is_list.chain
                    (absent outer x (some d) m ys zs is);
            };
            emptied = (
              record (linked outer (last ys null) (first zs null) none) { is_on_list = false },
              ground arith,
              refl,
              refl,
            );
            env = gone.env;
            same = λ p out. ground (arith, gone.same p out, has-append p ys ((x, some d) ∷ zs));
          })
      where
        ne : x ≢ null
        ne = (Chain-right outer m.nodes null ys ((x, some d) ∷ zs) null is.chain).0

    pub pop_head-eq : m.inner.head ≡ x → x ≢ null → pop_head m ≡ take_node x m
    unfolding pop_head
    pop_head-eq e ne = rw (ne→eq_false (m.inner.head) null (λ p. ne (sym e ∙ p)), e)

    pop_tail-eq : m.inner.tail ≡ x → x ≢ null → pop_tail m ≡ take_node x m
    unfolding pop_tail
    pop_tail-eq e ne = rw (ne→eq_false (m.inner.tail) null (λ p. ne (sym e ∙ p)), e)

    -- pop_head on a list whose first node holds data returns that data, empties the node and
    -- takes its flag down, leaves the rest as the list, and changes no node outside the list.
    pub pop_head-Popped :
        (zs : Cells D)
        → IsList outer m ((x, some d) ∷ zs)
        → Returns (Popped outer x d ((x, some d) ∷ zs) zs m) (pop_head m)
    pop_head-Popped zs is =
        rw (pop_head-eq (ap (λ l. l.head) is.inner) is.chain.0) (take_node-Popped [] zs is)

    -- pop_tail on a list whose last node holds data returns that data, empties the node and takes
    -- its flag down, leaves the rest as the list, and changes no node outside the list.
    pub pop_tail-Popped :
        (ys : Cells D)
        → IsList outer m (ys ++ (x, some d) ∷ [])
        → Returns (Popped outer x d (ys ++ (x, some d) ∷ []) ys m) (pop_tail m)
    pop_tail-Popped ys is =
        rw
          (pop_tail-eq (ap (λ l. l.tail) is.inner ∙ last-append ys ((x, some d) ∷ []) null)
            (Chain-right outer m.nodes null ys ((x, some d) ∷ []) null is.chain).0)
          (rw append-nil at (take_node-Popped ys [] is))

  pub pop_head-none : (outer : Ptr) (m : Mem E D) → IsList outer m [] → pop_head m ≡ ok none m
  unfolding pop_head
  pop_head-none outer m is = rw is.inner

  pub pop_tail-none : (outer : Ptr) (m : Mem E D) → IsList outer m [] → pop_tail m ≡ ok none m
  unfolding pop_tail
  pop_tail-none outer m is = rw is.inner
