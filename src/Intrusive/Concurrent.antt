-- ===== src/Intrusive/Concurrent.antt =====
-- intrusive_list/src/lib.rs: `ConcurrentIntrusiveList`. Each operation runs whole under the list's
-- `MiniLock`, so it is one command here; its closures run on what they capture, `env`.
pub mod PopAll
use colock.Base.{
  ℕ, zero, suc, ◌+◌, Bool, true, false, not, Option, none, some, ◌==◌, if◌then◌else◌, update,
}
use colock.Intrusive.Heap.{
  Ptr, null, Error, aborted_push, Result, failure, NodeAction, ScanAction, Node, Mem, Cmd, ok,
  out_of_fuel, fault, pure, ◌>>=◌, ◌>>◌, found, node_at, get_list,
}
use colock.Intrusive.Defs

module _ {E D : Type 0} where
  -- `critical_condition(data, list.count)`, as both pushes call it.
  unfoldable pub ask : {R : Type 0} → (D → ℕ → E → (Bool × R) × D × E) → Ptr → Cmd E D (Bool × R)
  ask critical node = do l ← get_list; Defs.on_data node (λ d e. critical d l.count e)

  unfoldable pub push_head :
      {R : Type 0} → Ptr → Ptr → (D → ℕ → E → (Bool × R) × D × E) → Cmd E D (Result ℕ × R)
  push_head outer node critical = do
    (should_push, critical_result) ← ask critical node
    if not should_push
        then pure (failure aborted_push, critical_result)
        else (do push_result ← Defs.push_head outer node; pure (push_result, critical_result))

  unfoldable pub push_tail :
      {R : Type 0} → Ptr → Ptr → (D → ℕ → E → (Bool × R) × D × E) → Cmd E D (Result ℕ × R)
  push_tail outer node critical = do
    (should_push, critical_result) ← ask critical node
    if not should_push
        then pure (failure aborted_push, critical_result)
        else (do push_result ← Defs.push_tail outer node; pure (push_result, critical_result))

  -- What both pops do with the data that they took out, or with an empty list.
  unfoldable pub finish :
      {R : Type 0} → (D → ℕ → E → R × E) → (E → E) → Option D → Cmd E D (Option (R × ℕ))
  finish critical on_empty none m = ok none (record m { env = on_empty m.env })
  finish critical on_empty (some d) m =
      ok (some ((critical d m.inner.count m.env).0, m.inner.count))
        (record m { env = (critical d m.inner.count m.env).1 })

  unfoldable pub pop_head : {R : Type 0} → (D → ℕ → E → R × E) → (E → E) → Cmd E D (Option (R × ℕ))
  pop_head critical on_empty = do popped ← Defs.pop_head; finish critical on_empty popped

  unfoldable pub pop_tail : {R : Type 0} → (D → ℕ → E → R × E) → (E → E) → Cmd E D (Option (R × ℕ))
  pop_tail critical on_empty = do popped ← Defs.pop_tail; finish critical on_empty popped

  -- `while let Some(data) = list.pop_tail()`: one round for each node, and one for the empty list.
  unfoldable pub pop_all_loop : (D → ℕ → E → E) → ℕ → Cmd E D (Unit {0})
  pop_all_loop critical zero = λ _. out_of_fuel
  pop_all_loop critical (suc k) = do
    popped ← Defs.pop_tail
    elim popped [
      | none ↦ pure tt
      | some d ↦
          (λ m. ok tt (record m { env = critical d m.inner.count m.env }))
          >> pop_all_loop critical k
    ]

  unfoldable pub pop_all : (D → ℕ → E → E) → (E → E) → Cmd E D ℕ
  pop_all critical on_empty = do
    l ← get_list
    pop_all_loop critical (l.count + 1)
    λ m. ok l.count (record m { env = on_empty m.env })

  unfoldable pub scan : (D → ℕ → E → (NodeAction × ScanAction) × D × E) → (E → E) → Cmd E D ℕ
  scan f on_empty = do
    l ← get_list
    if l.count == 0 then (λ m. ok tt (record m { env = on_empty m.env })) else Defs.scan f
    Defs.count

  -- `&*self.list`; the memory holds no list but the one at `outer`.
  abbrev pub deref_list : Ptr → Node D → Cmd E D (Unit {0})
  deref_list outer n m = if n.list == outer then ok tt m else fault

  -- `Node::drop`: a node that is still on its list is taken out of it.
  unfoldable pub drop_node : Ptr → Ptr → Cmd E D (Unit {0})
  drop_node outer node = do
    n ← node_at node
    if n.is_on_list then deref_list outer n >> Defs.remove_node node else pure tt
