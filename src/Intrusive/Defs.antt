-- ===== src/Intrusive/Defs.antt =====
-- intrusive_list/src/lib.rs: `Node`, `IntrusiveList` and their operations. The argument `outer` is
-- the address of the `ConcurrentIntrusiveList` that the list belongs to.
use colock.Base.{
  ℕ, zero, suc, ◌+◌, ◌-◌, Bool, true, false, not, ◌||◌, Option, none, some, ltb, ◌==◌,
  if◌then◌else◌, usize_mod, update,
}
use colock.Intrusive.Heap.{
  Ptr, null, dirty_node, Result, success, failure, NodeAction, retain, remove, ScanAction, continue,
  stop, Node, IntrusiveList, Cmd, out_of_fuel, fault, ok, pure, ◌>>=◌, ◌>>◌, found, debug_assert,
  node_at, put_node, get_list, put_list, set_next, set_prev, set_list, set_data, set_on_list,
}

abbrev pub new_node : {D : Type 0} → D → Node D
new_node d = record { next = null; prev = null; list = null; data_of = some d; is_on_list = false }

abbrev pub new_list : IntrusiveList
new_list = record { head = null; tail = null; count = 0 }

-- A node that a push refuses: not fresh from `Node::new`, as far as its links show.
abbrev pub is_dirty : {D : Type 0} → Node D → Bool
is_dirty n =
    n.is_on_list || (not (n.prev == null) || (not (n.next == null) || not (n.list == null)))

module _ {E D : Type 0} where
  -- `self.count += 1; Ok(self.count)`
  abbrev pub add_count : Cmd E D (Result ℕ)
  add_count m =
      if ltb (m.inner.count + 1) usize_mod
      then ok (success (m.inner.count + 1))
          (record m { inner = record (m.inner) { count = m.inner.count + 1 } })
      else fault

  -- `self.count -= 1`
  abbrev pub sub_count : Cmd E D (Unit {0})
  sub_count m =
      if m.inner.count == 0
      then fault
      else ok tt (record m { inner = record (m.inner) { count = m.inner.count - 1 } })

  unfoldable pub link_head : Ptr → Cmd E D (Unit {0})
  link_head node = do
    l ← get_list
    if l.head == null
        then (do debug_assert (l.tail == null); put_list (record l { head = node; tail = node }))
        else (do
          debug_assert (not (l.tail == null))
          existing ← node_at l.head
          debug_assert (existing.prev == null)
          set_prev l.head node
          set_next node l.head
          put_list (record l { head = node }))

  unfoldable pub link_tail : Ptr → Cmd E D (Unit {0})
  link_tail node = do
    l ← get_list
    if l.tail == null
        then (do debug_assert (l.head == null); put_list (record l { head = node; tail = node }))
        else (do
          debug_assert (not (l.head == null))
          existing ← node_at l.tail
          debug_assert (existing.next == null)
          set_next l.tail node
          set_prev node l.tail
          put_list (record l { tail = node }))

  unfoldable pub push_head : Ptr → Ptr → Cmd E D (Result ℕ)
  unfolding link_head
  push_head outer node = do
    n ← node_at node
    put_node node (record n { is_on_list = true })
    if is_dirty n
        then pure (failure dirty_node)
        else (do set_list node outer; link_head node; add_count)

  unfoldable pub push_tail : Ptr → Ptr → Cmd E D (Result ℕ)
  unfolding link_tail
  push_tail outer node = do
    n ← node_at node
    put_node node (record n { is_on_list = true })
    if is_dirty n
        then pure (failure dirty_node)
        else (do set_list node outer; link_tail node; add_count)

  -- The three ways `remove_node` relinks, by where the node stands.
  unfoldable pub unlink_head : Cmd E D (Unit {0})
  unlink_head = do
    l ← get_list
    h ← node_at l.head
    debug_assert (h.prev == null)
    if l.head == l.tail
        then (do debug_assert (h.next == null); put_list (record l { head = null; tail = null }))
        else (do set_prev h.next null; put_list (record l { head = h.next }))

  unfoldable pub unlink_tail : Cmd E D (Unit {0})
  unlink_tail = do
    l ← get_list
    t ← node_at l.tail
    if l.head == l.tail
        then (do debug_assert (t.prev == null); put_list (record l { head = null; tail = null }))
        else (do set_next t.prev null; put_list (record l { tail = t.prev }))

  unfoldable pub unlink_middle : Ptr → Cmd E D (Unit {0})
  unlink_middle node = do n ← node_at node; set_next n.prev n.next; set_prev n.next n.prev

  unfoldable pub unlink : Ptr → IntrusiveList → Cmd E D (Unit {0})
  unfolding unlink_head unlink_tail unlink_middle
  unlink node l =
      if l.head == node
      then unlink_head
      else if l.tail == node
      then unlink_tail
      else unlink_middle node

  unfoldable pub remove_node : Ptr → Cmd E D (Unit {0})
  unfolding unlink
  remove_node node = do
    n ← node_at node
    put_node node (record n { is_on_list = false })
    l ← get_list
    if not n.is_on_list then pure tt else unlink node l >> sub_count

  -- What `pop_head` and `pop_tail` do with the node that they have removed.
  unfoldable pub take_data : Ptr → Cmd E D (Option D)
  take_data node = do
    n ← node_at node
    set_data node none
    debug_assert (elim (n.data_of) [ none ↦ false | some _ ↦ true ])
    set_on_list node false
    pure n.data_of

  -- What they do with the node at the end.
  unfoldable pub take_node : Ptr → Cmd E D (Option D)
  take_node node = do remove_node node; take_data node

  unfoldable pub pop_head : Cmd E D (Option D)
  pop_head = do l ← get_list; if l.head == null then pure none else take_node l.head

  unfoldable pub pop_tail : Cmd E D (Option D)
  pop_tail = do l ← get_list; if l.tail == null then pure none else take_node l.tail

  abbrev pub count : Cmd E D ℕ
  count m = ok m.inner.count m

  -- A closure that captures `env`, run on the data of a node, which it may change.
  unfoldable pub on_data : {R : Type 0} → Ptr → (D → E → R × D × E) → Cmd E D R
  on_data node f = do
    n ← node_at node
    d ← found n.data_of
    λ m. ok (f d m.env).0 (record m {
      nodes = update m.nodes node (some (record n { data_of = some (f d m.env).1 }));
      env = (f d m.env).2;
    })

  -- What `scan` does at one node: the closure runs, and the node goes or stays.
  unfoldable pub scan_at :
      (D → ℕ → E → (NodeAction × ScanAction) × D × E) → Ptr → Cmd E D ScanAction
  scan_at f node = do
    l ← get_list
    (node_action, scan_action) ← on_data node (λ d e. f d l.count e)
    elim node_action [ retain ↦ pure tt | remove ↦ set_data node none >> remove_node node ]
    pure scan_action

  -- The loop, with fuel: it needs one round for each node, and one to see the end.
  unfoldable pub scan_loop :
      (D → ℕ → E → (NodeAction × ScanAction) × D × E) → ℕ → Ptr → ScanAction → Cmd E D (Unit {0})
  scan_loop f zero node action = λ _. out_of_fuel
  scan_loop f (suc k) node stop = pure tt
  scan_loop f (suc k) node continue =
      if node == null
      then pure tt
      else do n ← node_at node; action ← scan_at f node; scan_loop f k n.next action

  unfoldable pub scan : (D → ℕ → E → (NodeAction × ScanAction) × D × E) → Cmd E D (Unit {0})
  scan f = do l ← get_list; scan_loop f (l.count + 1) l.head continue
