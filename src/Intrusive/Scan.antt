-- ===== src/Intrusive/Scan.antt =====
-- `scan`: the closure runs on the nodes from head to tail until it says stop.
use colock.Base.{
  ℕ, zero, suc, ◌+◌, ◌<◌, ◌≡◌, refl, false, some, List, [], ◌∷◌, ◌++◌, arith, ap, sym, ◌∙◌, length,
  append_assoc, subst, ne→eq_false,
}
use colock.Intrusive.Heap.{Ptr, null, NodeAction, retain, remove, ScanAction, continue, stop, Mem}
use colock.Intrusive.Defs.{scan_at, scan_loop, scan}
use colock.Intrusive.Access.{node_at-ok}
use colock.Intrusive.Chain.{Cells, has, first, last, linked, IsList, Chain-right, has-append}
use colock.Intrusive.Sweep.{remains, count_after, from_head-remains, length-kept, visit, sweep}
use colock.Intrusive.Fresh.{from_head, length-from_head}
use colock.Intrusive.Visit.{Visited, scan_at-Visited}
use colock.Intrusive.Returns
use colock.Intrusive.Returns.{Returns}

module _ {E D : Type 0} (f : D → ℕ → E → (NodeAction × ScanAction) × D × E) where
  module _ (outer : Ptr) where
    -- The scan has left `got`, behind `ys`, and has written only to the nodes from `xs` on.
    pub record Swept (ys : Cells D) (xs : List (Ptr × D)) (got : List (Ptr × D) × E)
        (m m' : Mem E D) : Type 0 where
      pub is_list : IsList outer m' (ys ++ from_head got.0)
      pub env : m'.env ≡ got.1
      pub same : (p : Ptr) → has p (ys ++ from_head xs) ≡ false → m'.nodes p ≡ m.nodes p

    module _ (k : ℕ) (ys : Cells D) (x : Ptr) (d : D) (xs : List (Ptr × D)) (m m' : Mem E D)
        (is : IsList outer m (ys ++ (x, some d) ∷ from_head xs)) where
      -- The loop goes on where the node has stayed, and where it is gone.
      go_on-Swept :
          (a : NodeAction) (d' : D) (e : E) (rest : List (Ptr × D) × E)
          → Visited outer x ys (from_head xs) d m is ((a, continue), d', e) continue m'
          → ((ys' : Cells D)
              → IsList outer m' (ys' ++ from_head xs)
              → Returns
                  (λ _. Swept ys' xs rest m')
                  (scan_loop f k (first (from_head xs) null) continue m'))
          → Returns
              (λ _. Swept ys ((x, d) ∷ xs) (remains a x d' rest.0, rest.1) m)
              (scan_loop f k (first (from_head xs) null) continue m')
      go_on-Swept retain d' e rest v more =
          let ys' : Cells D = ys ++ (x, some d') ∷ [] in
          Returns.mono (λ _. Swept ys' xs rest m')
            (λ _. Swept ys ((x, d) ∷ xs) ((x, d') ∷ rest.0, rest.1) m) _
            (more ys' (
              subst (IsList outer m') (sym (append_assoc ys ((x, some d') ∷ []) (from_head xs)))
                v.is_list))
            λ _ m'' s. record {
              is_list =
                  subst (IsList outer m'') (append_assoc ys ((x, some d') ∷ []) (from_head rest.0))
                    s.is_list;
              env = s.env;
              same = λ p out.
                  s.same p
                    (rw (append_assoc ys ((x, some d') ∷ []) (from_head xs)) (same_cells p out))
                  ∙ v.same p out;
            }
        where
          same_cells :
              (p : Ptr)
              → has p (ys ++ (x, some d) ∷ from_head xs) ≡ false
              → has p (ys ++ (x, some d') ∷ from_head xs) ≡ false
          same_cells p out = ground (
            arith,
            has-append p ys ((x, some d) ∷ from_head xs),
            has-append p ys ((x, some d') ∷ from_head xs),
          )
      go_on-Swept remove d' e rest v more =
          Returns.mono (λ _. Swept ys xs rest m') (λ _. Swept ys ((x, d) ∷ xs) rest m) _
            (more ys v.is_list)
            λ _ m'' s. record {
              is_list = s.is_list;
              env = s.env;
              same = λ p out.
                  s.same p (
                    ground (
                      arith,
                      has-append p ys ((x, some d) ∷ from_head xs),
                      has-append p ys (from_head xs),
                    ))
                  ∙ v.same p out;
            }

      -- The count that the closure sees next.
      counted :
          (r : (NodeAction × ScanAction) × D × E) (s : ScanAction)
          → Visited outer x ys (from_head xs) d m is r s m'
          → m'.inner.count ≡ count_after r.0.0 m.inner.count
      counted r s v =
          ap (λ l. l.count) v.is_list.inner
          ∙ length-kept r.0.0 x (some d) r.1 ys (from_head xs)
          ∙ ap (λ l. count_after r.0.0 l.count) (sym is.inner)

      seen :
          (a : NodeAction) (d' : D) (e : E)
          → Visited outer x ys (from_head xs) d m is ((a, continue), d', e) continue m'
          → sweep f xs m'.inner.count m'.env ≡ sweep f xs (count_after a m.inner.count) e
      seen a d' e v =
          ap (λ n. sweep f xs n m'.env) (counted ((a, continue), d', e) continue v)
          ∙ ap (sweep f xs (count_after a m.inner.count)) v.env

    stop-Swept :
        (k : ℕ) (ys : Cells D) (x : Ptr) (d : D) (xs : List (Ptr × D)) (m m' : Mem E D)
        (is : IsList outer m (ys ++ (x, some d) ∷ from_head xs)) (a : NodeAction) (d' : D) (e : E)
        → Visited outer x ys (from_head xs) d m is ((a, stop), d', e) stop m'
        → length xs < k
        → Returns
            (λ _. Swept ys ((x, d) ∷ xs) (remains a x d' xs, e) m)
            (scan_loop f k (first (from_head xs) null) stop m')
    unfolding scan_loop
    stop-Swept zero ys x d xs m m' is a d' e v fuel = absurd (omega arith)
    stop-Swept (suc k) ys x d xs m m' is a d' e v fuel = record {
      is_list = rw (from_head-remains a x d' xs) v.is_list;
      env = v.env;
      same = v.same;
    }

    -- After the visit of one node.
    next-Swept :
        (k : ℕ) (ys : Cells D) (x : Ptr) (d : D) (xs : List (Ptr × D)) (m m' : Mem E D)
        (is : IsList outer m (ys ++ (x, some d) ∷ from_head xs))
        (r : (NodeAction × ScanAction) × D × E) (s : ScanAction)
        → Visited outer x ys (from_head xs) d m is r s m'
        → length xs < k
        → ((ys' : Cells D)
            → IsList outer m' (ys' ++ from_head xs)
            → Returns
                (λ _. Swept ys' xs (sweep f xs m'.inner.count m'.env) m')
                (scan_loop f k (first (from_head xs) null) continue m'))
        → Returns
            (λ _. Swept ys ((x, d) ∷ xs) (visit r x xs m.inner.count (sweep f xs)) m)
            (scan_loop f k (first (from_head xs) null) s m')
    next-Swept k ys x d xs m m' is ((a, stop), d', e) stop v fuel more =
        stop-Swept k ys x d xs m m' is a d' e v fuel
    next-Swept k ys x d xs m m' is ((a, continue), d', e) continue v fuel more =
        go_on-Swept k ys x d xs m m' is a d' e (sweep f xs (count_after a m.inner.count) e) v
          (λ ys' is'.
            subst
              (λ g.
                Returns (λ _. Swept ys' xs g m')
                  (scan_loop f k (first (from_head xs) null) continue m'))
              (seen k ys x d xs m m' is a d' e v) (more ys' is'))
    next-Swept k ys x d xs m m' is ((a, stop), d', e) continue v fuel more = cc v.goes
    next-Swept k ys x d xs m m' is ((a, continue), d', e) stop v fuel more = cc v.goes

    scan_loop-Swept :
        (k : ℕ) (ys : Cells D) (xs : List (Ptr × D)) (m : Mem E D)
        → IsList outer m (ys ++ from_head xs)
        → length xs < k
        → Returns
            (λ _. Swept ys xs (sweep f xs m.inner.count m.env) m)
            (scan_loop f k (first (from_head xs) null) continue m)
    unfolding scan_loop
    scan_loop-Swept zero ys xs m is fuel = absurd (omega arith)
    scan_loop-Swept (suc k) ys [] m is fuel = record {
      is_list = is;
      env = refl;
      same = λ p out. refl;
    }
    scan_loop-Swept (suc k) ys ((x, d) ∷ xs) m is fuel =
        let c = Chain-right outer m.nodes null ys ((x, some d) ∷ from_head xs) null is.chain in
        rw
          (
            ne→eq_false x null c.0,
            node_at-ok x (linked outer (last ys null) (first (from_head xs) null) (some d)) m c.0
                c.1,
          )
          (Returns.bind (Visited outer x ys (from_head xs) d m is (f d m.inner.count m.env))
            (λ _. Swept ys ((x, d) ∷ xs) (sweep f ((x, d) ∷ xs) m.inner.count m.env) m)
            (scan_at f x m) _ (scan_at-Visited outer x ys (from_head xs) d m is f)
            λ s m' v.
              next-Swept k ys x d xs m m' is (f d m.inner.count m.env) s v (omega arith)
                (λ ys' is'. scan_loop-Swept k ys' xs m' is' (omega arith)))

    -- Scan with any closure, on a list whose nodes all hold data, ends, and does what the
    -- reference sweep does on the sequence of items: the closure runs from the head with each
    -- node's data and the current count until it says stop, the nodes it says to remove are gone,
    -- the others keep their order and hold what it left in them, and no node off the list is
    -- written to.
    pub scan-Swept :
        (xs : List (Ptr × D)) (m : Mem E D)
        → IsList outer m (from_head xs)
        → Returns (λ _. Swept [] xs (sweep f xs (length xs) m.env) m) (scan f m)
    unfolding scan
    scan-Swept xs m is =
        let n : m.inner.count ≡ length xs = ap (λ l. l.count) is.inner ∙ length-from_head xs in
        subst
          (λ n.
            Returns (λ _. Swept [] xs (sweep f xs n m.env) m)
              (scan_loop f (m.inner.count + 1) m.inner.head continue m))
          n
          (subst
            (λ h.
              Returns (λ _. Swept [] xs (sweep f xs m.inner.count m.env) m)
                (scan_loop f (m.inner.count + 1) h continue m))
            (sym (ap (λ l. l.head) is.inner))
            (scan_loop-Swept (m.inner.count + 1) [] xs m is (omega (arith, n))))
