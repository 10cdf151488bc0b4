-- ===== src/Barrier/Threads/Steps.antt =====
-- A call of `wait`, and a return from it.
use colock.Base.{
  ℕ, ◌+◌, ◌<◌, ◌≡◌, refl, true, false, Option, none, some, List, arith, mem, update, ◌∙◌,
  ne→eq_false,
}
use colock.Base.Total.{total-same}
use colock.Intrusive.Heap.{Ptr, Node, null, ok, node_at}
use colock.Intrusive.Concurrent.{drop_node}
use colock.Intrusive.Chain.{IsList, Chain-update}
use colock.Intrusive.Fresh.{from_head}
use colock.Barrier.Threads.{outside, parked, Threads, address, call, prepared, leave, BarrierMem}
use colock.Barrier.Threads.Inv.{is_free, items, has-items, Inv}

module _ (n : ℕ) (outer : Ptr) where
  -- A node that is not on the list may change.
  pub set_node-IsList :
      (m : BarrierMem) (i : ℕ) (is : List ℕ) (node : Option (Node ℕ))
      → IsList outer m (from_head (items is))
      → mem i is ≡ false
      → IsList outer (record m { nodes = update m.nodes (address i) node }) (from_head (items is))
  set_node-IsList m i is node listed out = record {
    inner = listed.inner;
    chain =
        Chain-update outer m.nodes null (from_head (items is)) null (address i) node listed.chain
          (has-items i is ∙ out);
  }

  prepared-Inv :
      {s : Threads} (i : ℕ)
      → Inv n outer s
      → i < n
      → s.place i ≡ outside
      → Inv n outer (prepared i s)
  prepared-Inv {s} i inv lt at =
      let out : mem i inv.is ≡ false = ground (arith, inv.asleep i) in
      record {
        is = inv.is;
        is_list = set_node-IsList s.mem i inv.is _ inv.is_list out;
        asleep = λ j. ground (arith, inv.asleep j);
        counted = total-same n _ _ (λ j lt'. ground (arith)) ∙ inv.counted;
        short = inv.short;
        fresh = λ j e. ground (arith, inv.fresh j);
        quiet = λ j e. ground (arith, inv.quiet j);
        free_node = λ j e. ground (arith, inv.free_node j);
        one_leads = λ j. ground (arith, inv.one_leads j);
        beyond = λ j h. ground (arith, inv.beyond j);
        in_round = λ j lt'. ground (arith, inv.in_round j);
        within = λ j. ground (arith, inv.within j);
        sound = λ j. ground (arith, inv.sound j);
      }

  pub call-Inv :
      {s : Threads} (i : ℕ) → Inv n outer s → i < n → s.place i ≡ outside → Inv n outer (call n i s)
  unfolding call
  call-Inv i inv lt at = rw (ne→eq_false n 0 (omega arith)) (prepared-Inv i inv lt at)

  -- A node that is not on the list is dropped without a look at the list.
  drop_node-free :
      (m : BarrierMem) (i : ℕ)
      → is_free (m.nodes (address i)) ≡ true
      → drop_node outer (address i) m ≡ ok tt m
  unfolding drop_node node_at
  drop_node-free m i free = by_node (m.nodes (address i)) refl free
    where
      by_node :
          (o : Option (Node ℕ))
          → m.nodes (address i) ≡ o
          → is_free o ≡ true
          → drop_node outer (address i) m ≡ ok tt m
      by_node none e f = cc
      by_node (some node) e f = ground (arith, e)

  -- What a return changes.
  abbrev pub left : ℕ → Threads → Threads
  left i s = record s {
    mem = record (s.mem) { nodes = update s.mem.nodes (address i) none };
    place = update s.place i outside;
    done = update s.done i (s.done i + 1);
  }

  pub leave-left :
      (i : ℕ) (s : Threads) → is_free (s.mem.nodes (address i)) ≡ true → leave outer i s ≡ left i s
  unfolding leave
  leave-left i s free = rw (drop_node-free s.mem i free)

  pub leave-Inv :
      {s : Threads} (i : ℕ)
      → Inv n outer s
      → i < n
      → s.place i ≡ parked
      → s.flags i ≡ true
      → Inv n outer (leave outer i s)
  leave-Inv {s} i inv lt at up =
      let out : mem i inv.is ≡ false = ground (arith, inv.asleep i) in
      rw (leave-left i s (ground (arith, inv.free_node i))) (record {
        is = inv.is;
        is_list = set_node-IsList s.mem i inv.is _ inv.is_list out;
        asleep = λ j. ground (arith, inv.asleep j);
        counted = total-same n _ _ (λ j lt'. ground (arith)) ∙ inv.counted;
        short = inv.short;
        fresh = λ j e. ground (arith, inv.fresh j);
        quiet = λ j e. ground (arith, inv.quiet j);
        free_node = λ j e. ground (arith, inv.free_node j);
        one_leads = λ j. ground (arith, inv.one_leads j);
        beyond = λ j h. ground (arith, inv.beyond j);
        in_round = λ j lt'. ground (arith, inv.in_round j);
        within = λ j. ground (arith, inv.within j);
        sound = λ j. ground (arith, inv.sound j);
      })
