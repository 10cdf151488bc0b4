-- ===== src/Intrusive/Fifo.antt =====
-- Nodes that are pushed at the head and popped from the tail come out in the order they went in.
use colock.Base.{
  ℕ, ◌+◌, ◌<◌, ◌≡◌, refl, some, List, [], ◌∷◌, ◌++◌, arith, length, length-append, usize_mod,
  append-nil, append_assoc, ap, ◌∙◌, subst,
}
use colock.Intrusive.Heap.{Ptr, Mem, Cmd, pure, ◌>>◌}
use colock.Intrusive.Defs
use colock.Intrusive.Chain.{Cells, IsList}
use colock.Intrusive.Fresh.{AllNew, AllNew-kept, new-out}
use colock.Intrusive.Push.{Pushed, push_head-on}
use colock.Intrusive.Concurrent.{pop_all}
use colock.Intrusive.Concurrent.PopAll.{
  from_tail, length-from_tail, drain, Drained, pop_all-Drained,
}
use colock.Intrusive.Returns
use colock.Intrusive.Returns.{Returns}

module _ {D : Type 0} where
  -- A node in front is one more behind.
  from_tail-append :
      (zs : List (Ptr × D)) (p : Ptr) (d : D)
      → from_tail (zs ++ (p, d) ∷ []) ≡ (p, some d) ∷ from_tail zs
  from_tail-append [] p d = refl
  from_tail-append ((q, e) ∷ zs) p d = rw (from_tail-append zs p d)

module _ {E D : Type 0} (outer : Ptr) where
  unfoldable pub push_each : List (Ptr × D) → Cmd E D (Unit {0})
  push_each [] = pure tt
  push_each ((p, d) ∷ ns) = Defs.push_head outer p >> push_each ns

  -- The list is that of `zs` from its tail, and the closures have not run.
  record Filled (zs : List (Ptr × D)) (m m' : Mem E D) : Type 0 where
    is_list : IsList outer m' (from_tail zs)
    env : m'.env ≡ m.env

  push_each-Filled :
      (ns zs : List (Ptr × D)) (m : Mem E D)
      → IsList outer m (from_tail zs)
      → AllNew m ns
      → length zs + length ns < usize_mod
      → Returns (λ _. Filled (zs ++ ns) m) (push_each ns m)
  unfolding push_each
  push_each-Filled [] zs m is new room = record { is_list = rw (append-nil zs) is; env = refl }
  push_each-Filled ((p, d) ∷ ns) zs m is new room =
      let ys : Cells D = (p, some d) ∷ from_tail zs in
      Returns.bind (Pushed outer p m ys) (λ _. Filled (zs ++ (p, d) ∷ ns) m)
        (Defs.push_head outer p m) (λ _. push_each ns)
        (push_head-on outer p d m new.0 new.1 (from_tail zs) is
          (omega (arith, length-from_tail zs)))
        λ r m' put.
          Returns.mono (λ _. Filled ((zs ++ (p, d) ∷ []) ++ ns) m')
            (λ _. Filled (zs ++ (p, d) ∷ ns) m) (push_each ns m')
            (push_each-Filled ns (zs ++ (p, d) ∷ []) m' (rw (from_tail-append zs p d) put.is_list)
              (AllNew-kept m m' ns new.3 (λ q i.
                put.same q (ground (arith, new-out outer m (from_tail zs) ns q is new.3 i, new.2))))
              (omega (arith, length-append zs ((p, d) ∷ []))))
            λ _ m'' f. record {
              is_list =
                  subst (λ xs. IsList outer m'' (from_tail xs)) (append_assoc zs ((p, d) ∷ []) ns)
                    f.is_list;
              env = f.env ∙ put.env;
            }

  -- From an empty list, pushing fewer than 2 ^ 64 distinct new nodes at the head one after
  -- another, and then pop_all, runs the critical closure on their data in the order they were
  -- pushed and then the closure for the empty list, returns their number, and leaves the list
  -- empty.
  pub fifo :
      (critical : D → ℕ → E → E) (on_empty : E → E) (ns : List (Ptr × D)) (m : Mem E D)
      → IsList outer m []
      → AllNew m ns
      → length ns < usize_mod
      → Returns
          (λ n m'.
            (n ≡ length ns) × IsList outer m' [] × (m'.env ≡ on_empty (drain critical ns m.env)))
          ((push_each ns >> pop_all critical on_empty) m)
  fifo critical on_empty ns m is new room =
      Returns.bind (λ _. Filled ns m) _ (push_each ns m) (λ _. pop_all critical on_empty)
        (push_each-Filled ns [] m is new (omega arith))
        λ _ m' f.
          Returns.mono (λ n m''. (n ≡ length ns) × Drained outer critical on_empty ns m' m'') _
            (pop_all critical on_empty m') (pop_all-Drained outer critical on_empty ns m' f.is_list)
            λ n m'' (e, done).
              (e, done.is_list, done.env ∙ ap (λ x. on_empty (drain critical ns x)) f.env)
