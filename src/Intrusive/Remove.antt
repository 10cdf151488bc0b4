-- ===== src/Intrusive/Remove.antt =====
-- `remove_node` by its effect on memory, on each way that it goes.
use colock.Base.{ℕ, suc, ◌≡◌, ◌≢◌, true, false, some, arith, update}
use colock.Intrusive.Heap.{Ptr, null, Node, Mem, ok, node_at, set_next, set_prev}
use colock.Intrusive.Defs.{remove_node}

abbrev pub off : {D : Type 0} → Node D → Node D
off n = record n { is_on_list = false }

module _ {E D : Type 0} where
  module _ (node : Ptr) (n : Node D) (m : Mem E D) (ne : node ≢ null)
      (e : m.nodes node ≡ some n) where
    -- A node that is on no list is left alone.
    pub remove_node-off :
        n.is_on_list ≡ false
        → remove_node node m ≡ ok tt (record m { nodes = update m.nodes node (some (off n)) })
    unfolding remove_node node_at
    remove_node-off h = ground arith

    module _ (on : n.is_on_list ≡ true) (c : ℕ) where
      pub remove_node-only :
          m.inner ≡ record { head = node; tail = node; count = suc c }
          → n.prev ≡ null
          → n.next ≡ null
          → remove_node node m
            ≡ ok tt (record {
              nodes = update m.nodes node (some (off n));
              inner = record { head = null; tail = null; count = c };
              env = m.env;
            })
      unfolding remove_node node_at
      remove_node-only is first_one last_one = ground arith

      pub remove_node-first :
          (t q : Ptr) (k : Node D)
          → m.inner ≡ record { head = node; tail = t; count = suc c }
          → node ≢ t
          → n.prev ≡ null
          → n.next ≡ q
          → q ≢ null
          → q ≢ node
          → m.nodes q ≡ some k
          → remove_node node m
            ≡ ok tt (record {
              nodes =
                  update (update m.nodes q (some (record k { prev = null }))) node (some (off n));
              inner = record { head = q; tail = t; count = c };
              env = m.env;
            })
      unfolding remove_node node_at set_prev
      remove_node-first t q k is long first_one to_q qn apart eq = ground arith

      pub remove_node-last :
          (h p : Ptr) (k : Node D)
          → m.inner ≡ record { head = h; tail = node; count = suc c }
          → h ≢ node
          → n.prev ≡ p
          → p ≢ null
          → p ≢ node
          → m.nodes p ≡ some k
          → remove_node node m
            ≡ ok tt (record {
              nodes =
                  update (update m.nodes p (some (record k { next = null }))) node (some (off n));
              inner = record { head = h; tail = p; count = c };
              env = m.env;
            })
      unfolding remove_node node_at set_next
      remove_node-last h p k is long to_p pn apart ep = ground arith

      pub remove_node-middle :
          (h t p q : Ptr) (k l : Node D)
          → m.inner ≡ record { head = h; tail = t; count = suc c }
          → h ≢ node
          → t ≢ node
          → n.prev ≡ p
          → n.next ≡ q
          → p ≢ null
          → q ≢ null
          → p ≢ node
          → q ≢ node
          → p ≢ q
          → m.nodes p ≡ some k
          → m.nodes q ≡ some l
          → remove_node node m
            ≡ ok tt (record {
              nodes =
                  update
                    (update
                      (update m.nodes p (some (record k { next = q })))
                      q
                      (some (record l { prev = p })))
                    node
                    (some (off n));
              inner = record { head = h; tail = t; count = c };
              env = m.env;
            })
      unfolding remove_node node_at set_next set_prev
      remove_node-middle h t p q k l is hn tn to_p to_q pn qn pa qa pq ep eq = ground arith
