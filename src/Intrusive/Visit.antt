-- ===== src/Intrusive/Visit.antt =====
-- What `scan` does at one node.
use colock.Base.{
  ℕ, ◌≡◌, ◌≢◌, refl, false, Option, none, some, ◌∷◌, ◌++◌, arith, update, ◌∙◌, length-append,
  update_same, update_ne,
}
use colock.Intrusive.Heap.{
  Ptr, null, NodeAction, retain, remove, ScanAction, Mem, pure, ◌>>◌, ok, set_data,
}
use colock.Intrusive.Defs.{on_data, scan_at, remove_node}
use colock.Intrusive.Access.{node_at-ok, set_data-ok}
use colock.Intrusive.Chain.{
  Cells, has, first, last, linked, list_of, Chain, IsList, has-append, first-append, last-append,
  Chain-update, Chain-append, Chain-left, Chain-right, Chain-apart, Chain-apart_back,
}
use colock.Intrusive.Unlink.{Removed, remove_node-Removed}
use colock.Intrusive.Returns
use colock.Intrusive.Returns.{Returns}

module _ {D : Type 0} where
  list_of-data :
      (ys zs : Cells D) (x : Ptr) (d d' : Option D)
      → list_of (ys ++ (x, d) ∷ zs) ≡ list_of (ys ++ (x, d') ∷ zs)
  list_of-data ys zs x d d' = ground (
    arith,
    first-append ys ((x, d) ∷ zs) null,
    first-append ys ((x, d') ∷ zs) null,
    last-append ys ((x, d) ∷ zs) null,
    last-append ys ((x, d') ∷ zs) null,
    length-append ys ((x, d) ∷ zs),
    length-append ys ((x, d') ∷ zs),
  )

  -- The cells after a visit of `x` that left `d` there.
  abbrev pub kept : NodeAction → Ptr → D → Cells D → Cells D
  kept retain x d zs = (x, some d) ∷ zs
  kept remove x d zs = zs

module _ {E D : Type 0} (outer x : Ptr) (ys zs : Cells D) where
  -- The node at `x`, with other data.
  abbrev put : Option D → E → Mem E D → Mem E D
  put d e m = record m {
    nodes = update m.nodes x (some (linked outer (last ys null) (first zs null) d));
    env = e;
  }

  module _ (d : Option D) (m : Mem E D) (is : IsList outer m (ys ++ (x, d) ∷ zs)) where
    abbrev here : Chain outer m.nodes (last ys null) ((x, d) ∷ zs) null
    here = Chain-right outer m.nodes null ys ((x, d) ∷ zs) null is.chain

    not_before : has x ys ≡ false
    not_before = Chain-apart_back outer m.nodes null ys ((x, d) ∷ zs) null x is.chain (ground arith)

    put-IsList : (d' : Option D) (e : E) → IsList outer (put d' e m) (ys ++ (x, d') ∷ zs)
    put-IsList d' e = record {
      inner = is.inner ∙ list_of-data ys zs x d d';
      chain =
          Chain-append outer _ null ys ((x, d') ∷ zs) null
            (Chain-update outer m.nodes null ys x x _
              (Chain-left outer m.nodes null ys ((x, d) ∷ zs) null is.chain) not_before)
            (
              here.0,
              update_same m.nodes x _,
              here.2,
              Chain-update outer m.nodes x zs null x _ here.3 here.2,
            )
            (λ p i. Chain-apart outer m.nodes null ys ((x, d) ∷ zs) null p is.chain i);
    }

module _ {E D : Type 0} (outer x : Ptr) (ys zs : Cells D) (d : D) (m : Mem E D)
    (is : IsList outer m (ys ++ (x, some d) ∷ zs)) where
  on_data-ok :
      {R : Type 0} (g : D → E → R × D × E)
      → on_data x g m ≡ ok (g d m.env).0 (put outer x ys zs (some (g d m.env).1) (g d m.env).2 m)
  unfolding on_data
  on_data-ok g =
      let c = here outer x ys zs (some d) m is in
      rw (node_at-ok x (linked outer (last ys null) (first zs null) (some d)) m c.0 c.1)

  -- The closure has run on the data of `x`, whose node stays with the new data or is gone.
  pub record Visited (r : (NodeAction × ScanAction) × D × E) (action : ScanAction) (m' : Mem E D)
      : Type 0 where
    pub goes : action ≡ r.0.1
    pub is_list : IsList outer m' (ys ++ kept r.0.0 x r.1 zs)
    pub env : m'.env ≡ r.2
    pub same : (p : Ptr) → has p (ys ++ (x, some d) ∷ zs) ≡ false → m'.nodes p ≡ m.nodes p

  not-here : (p : Ptr) → has p (ys ++ (x, some d) ∷ zs) ≡ false → p ≢ x
  not-here p out e = ground (arith, has-append p ys ((x, some d) ∷ zs))

  after_action :
      (action : NodeAction) (goes : ScanAction) (d' : D) (e : E)
      → Returns (Visited ((action, goes), d', e)) (
          (elim action [ retain ↦ pure tt | remove ↦ set_data x none >> remove_node x ]
              >> pure goes)
            (put outer x ys zs (some d') e m))
  after_action retain goes d' e = record {
    goes = refl;
    is_list = put-IsList outer x ys zs (some d) m is (some d') e;
    env = refl;
    same = λ p out. update_ne m.nodes p x _ (not-here p out);
  }
  after_action remove goes d' e =
      let m1 : Mem E D = put outer x ys zs (some d') e m in
      let is1 : IsList outer m1 (ys ++ (x, some d') ∷ zs) =
        put-IsList outer x ys zs (some d) m is (some d') e in
      let m2 : Mem E D = put outer x ys zs none e m1 in
      let c = here outer x ys zs (some d) m is in
      rw
        (set_data-ok x (linked outer (last ys null) (first zs null) (some d')) m1 c.0
          (update_same m.nodes x _) none)
        (Returns.bind (λ _. Removed outer x none ys zs m2) (Visited ((remove, goes), d', e))
          (remove_node x m2) (λ _. pure goes)
          (remove_node-Removed outer x none m2 ys zs
            (put-IsList outer x ys zs (some d') m1 is1 none e))
          λ _ m3 r. record {
            goes = refl;
            is_list = r.is_list;
            env = r.env;
            same = λ p out.
                r.same p (
                  ground
                    (arith, has-append p ys ((x, some d) ∷ zs), has-append p ys ((x, none) ∷ zs)))
                ∙ update_ne m1.nodes p x _ (not-here p out)
                ∙ update_ne m.nodes p x _ (not-here p out);
          })

  pub scan_at-Visited :
      (f : D → ℕ → E → (NodeAction × ScanAction) × D × E)
      → Returns (Visited (f d m.inner.count m.env)) (scan_at f x m)
  unfolding scan_at
  scan_at-Visited f =
      let r = f d m.inner.count m.env in
      rw (on_data-ok (λ d' e. f d' m.inner.count e)) (after_action r.0.0 r.0.1 r.1 r.2)
