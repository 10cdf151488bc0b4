-- ===== src/Intrusive/Early.antt =====
-- The owner of a node that a pop has removed, and has still to read: `remove_node` takes the flag
-- is_on_list down at once, and `Node::drop` looks at the flag without the list's lock.
use colock.Base.{refl, false, ◌≢◌, ◌≡◌, none, some, ◌∷◌, ◌++◌, arith, update, update_same}
use colock.Intrusive.Heap.{Node, Ptr, null, Mem, Cmd, ok, fault, ◌>>◌, node_at}
use colock.Intrusive.Defs
use colock.Intrusive.Concurrent.{drop_node}
use colock.Intrusive.Chain.{Cells, IsList, Chain-right}
use colock.Intrusive.Unlink.{Removed, remove_node-Removed}
use colock.Intrusive.Returns
use colock.Intrusive.Returns.{Returns}
use colock.Intrusive.Pop.{take_data-eq}

module _ {E D : Type 0} where
  -- The memory of the node is given back.
  abbrev pub free : Ptr → Cmd E D (Unit {0})
  free p m = ok tt (record m { nodes = update m.nodes p none })

  freed-faults : (x : Ptr) (m : Mem E D) → m.nodes x ≡ none → Defs.take_data x m ≡ fault
  unfolding Defs.take_data node_at
  freed-faults x m e = ground (arith, e)

  off-drop :
      (outer x : Ptr) (n : Node D) (m : Mem E D)
      → x ≢ null
      → m.nodes x ≡ some n
      → n.is_on_list ≡ false
      → drop_node outer x m ≡ ok tt m
  unfolding drop_node node_at
  off-drop outer x n m ne e off = ground arith

  -- On any list, once remove_node has taken out a node that holds data, the drop of the node by
  -- its owner returns at once and changes nothing; take_data still gives the data as long as the
  -- memory of the node is there, and faults once it has been given back.
  pub early_drop-faults :
      (outer x : Ptr) (d : D) (ys zs : Cells D) (m : Mem E D)
      → IsList outer m (ys ++ (x, some d) ∷ zs)
      → Returns
          (λ _ m'.
            (drop_node outer x m' ≡ ok tt m')
            × Returns (λ r _. r ≡ some d) (Defs.take_data x m')
            × ((free x >> Defs.take_data x) m' ≡ fault))
          (Defs.remove_node x m)
  early_drop-faults outer x d ys zs m is =
      let alive = Chain-right outer m.nodes null ys ((x, some d) ∷ zs) null is.chain in
      Returns.mono (λ _. Removed outer x (some d) ys zs m) _ (Defs.remove_node x m)
        (remove_node-Removed outer x (some d) m ys zs is)
        λ _ m' got. (
          off-drop outer x _ m' alive.0 got.gone refl,
          rw (take_data-eq x _ d m' alive.0 got.gone refl) refl,
          freed-faults x (record m' { nodes = update m'.nodes x none })
              (update_same m'.nodes x none),
        )
