-- ===== src/Intrusive/Unlink.antt =====
-- `remove_node` takes the node out of the list that the memory holds, wherever it stands.
use colock.Base.{
  sym, ◌+◌, ◌≡◌, refl, ◌≢◌, true, false, Option, some, [], ◌∷◌, ◌++◌, arith, update_ne2, update_ne3,
  length, length-append,
}
use colock.Intrusive.Heap.{Ptr, null, Mem}
use colock.Intrusive.Defs.{remove_node}
use colock.Intrusive.Chain.{
  Cells, has, first, last, linked, Chain-update, Chain-relink_first, Chain-relink_last,
  Chain-append, Chain-left, Chain-right, Chain-apart, Chain-apart_back, IsList, has-last,
  has-ne-null, ne_of_has, node_of_last, last-append, not-has-left, not-has-right,
  ne_of_not-has_head,
}
use colock.Intrusive.Remove.{
  off, remove_node-only, remove_node-first, remove_node-last, remove_node-middle,
}
use colock.Intrusive.Returns.{Returns}

module _ {E D : Type 0} where
  -- The memory after `x` was taken from between `ys` and `zs`.
  pub record Removed (outer x : Ptr) (d : Option D) (ys zs : Cells D) (m m' : Mem E D)
      : Type 0 where
    pub is_list : IsList outer m' (ys ++ zs)
    pub gone : m'.nodes x ≡ some (off (linked outer (last ys null) (first zs null) d))
    pub env : m'.env ≡ m.env
    pub same : (r : Ptr) → has r (ys ++ (x, d) ∷ zs) ≡ false → m'.nodes r ≡ m.nodes r

  module _ (outer x : Ptr) (d : Option D) (m : Mem E D) where
    unlink_only :
        IsList outer m ((x, d) ∷ []) → Returns (λ _. Removed outer x d [] [] m) (remove_node x m)
    unlink_only is =
        rw (remove_node-only x _ m is.chain.0 is.chain.1 refl 0 is.inner refl refl) (record {
          is_list = record { inner = refl; chain = tt };
          gone = ground arith;
          env = refl;
          same = λ r out. ground arith;
        })

    unlink_first :
        (z : Ptr) (e : Option D) (zs : Cells D)
        → IsList outer m ((x, d) ∷ (z, e) ∷ zs)
        → Returns (λ _. Removed outer x d [] ((z, e) ∷ zs) m) (remove_node x m)
    unlink_first z e zs is =
        let c = is.chain in
        let zx : z ≢ x = (λ p. ne_of_not-has_head x z e zs c.2 (sym p)) in
        rw
          (remove_node-first x _ m c.0 c.1 refl _ _ z _ is.inner
            (ne_of_has ((z, e) ∷ zs) x (last zs z) c.2 (has-last z e zs)) refl refl c.3.0 zx c.3.1)
          (record {
            is_list = record {
              inner = refl;
              chain =
                  Chain-update outer _ null ((z, e) ∷ zs) null x _
                    (Chain-relink_first outer m.nodes x null z e zs null c.3) c.2;
            };
            gone = ground arith;
            env = refl;
            same = λ r out.
                update_ne2 m.nodes r z x _ _
                  (ne_of_not-has_head r z e zs (not-has-right r ((x, d) ∷ []) ((z, e) ∷ zs) out))
                  (ne_of_not-has_head r x d ((z, e) ∷ zs) out);
          })

    module _ (y : Ptr) (f : Option D) (ys : Cells D) where
      abbrev before : Cells D
      before = (y, f) ∷ ys

      unlink_last :
          IsList outer m (before ++ (x, d) ∷ [])
          → Returns (λ _. Removed outer x d before [] m) (remove_node x m)
      unlink_last is =
          let c = is.chain in
          let left = Chain-left outer m.nodes null before ((x, d) ∷ []) null c in
          let right = Chain-right outer m.nodes null before ((x, d) ∷ []) null c in
          let (b, g, at_last) = node_of_last outer m.nodes null y f ys x left in
          let out : has x before ≡ false =
            Chain-apart_back outer m.nodes null before ((x, d) ∷ []) null x c (ground arith) in
          let px : last ys y ≢ x =
            (λ p. ne_of_has before x (last ys y) out (has-last y f ys) (sym p)) in
          let size = length-append before ((x, d) ∷ []) in
          rw
            (remove_node-last x _ m right.0 right.1 refl (length before) y (last ys y) _
              (ground (arith, is.inner, last-append ys ((x, d) ∷ []) y, size))
              (λ p. ne_of_not-has_head x y f ys out (sym p)) refl
              (has-ne-null outer m.nodes null before x (last ys y) left (has-last y f ys)) px
              at_last)
            (record {
              is_list = record {
                inner = ground (arith, length-append before [], last-append ys [] y);
                chain =
                    Chain-append outer _ null before [] null
                      (Chain-update outer _ null before null x _
                        (Chain-relink_last outer m.nodes null y f ys x null left _ at_last) out)
                      tt (λ q i. refl);
              };
              gone = ground arith;
              env = refl;
              same = λ r o.
                  update_ne2 m.nodes r (last ys y) x _ _
                    (ne_of_has before r (last ys y) (not-has-left r before ((x, d) ∷ []) o)
                      (has-last y f ys))
                    (ne_of_not-has_head r x d [] (not-has-right r before ((x, d) ∷ []) o));
            })

      unlink_middle_on :
          (z : Ptr) (e : Option D) (zs : Cells D)
          → IsList outer m (before ++ (x, d) ∷ (z, e) ∷ zs)
          → Returns (λ _. Removed outer x d before ((z, e) ∷ zs) m) (remove_node x m)
      unlink_middle_on z e zs is =
          let after : Cells D = (z, e) ∷ zs in
          let c = is.chain in
          let left = Chain-left outer m.nodes null before ((x, d) ∷ after) null c in
          let right = Chain-right outer m.nodes null before ((x, d) ∷ after) null c in
          let (b, g, at_last) = node_of_last outer m.nodes null y f ys x left in
          let out : has x before ≡ false =
            Chain-apart_back outer m.nodes null before ((x, d) ∷ after) null x c (ground arith) in
          let z_out : has z before ≡ false =
            Chain-apart_back outer m.nodes null before ((x, d) ∷ after) null z c (ground arith) in
          let y_in : has (last ys y) before ≡ true = has-last y f ys in
          let p_out : has (last ys y) ((x, d) ∷ after) ≡ false =
            Chain-apart outer m.nodes null before ((x, d) ∷ after) null (last ys y) c y_in in
          let px : last ys y ≢ x = ne_of_not-has_head (last ys y) x d after p_out in
          let zx : z ≢ x = (λ p. ne_of_not-has_head x z e zs right.2 (sym p)) in
          rw
            (remove_node-middle x _ m right.0 right.1 refl (length before + length zs + 1) y
              (last zs z) (last ys y) z _ _
              (ground (
                arith,
                is.inner,
                last-append ys ((x, d) ∷ after) y,
                length-append before ((x, d) ∷ after),
              ))
              (λ p. ne_of_not-has_head x y f ys out (sym p))
              (λ p. ne_of_has after x (last zs z) right.2 (has-last z e zs) (sym p)) refl refl
              (has-ne-null outer m.nodes null before x (last ys y) left y_in) right.3.0 px zx
              (ne_of_not-has_head (last ys y) z e zs
                (not-has-right (last ys y) ((x, d) ∷ []) after p_out))
              at_last right.3.1)
            (record {
              is_list = record {
                inner = ground (arith, length-append before after, last-append ys after y);
                chain =
                    Chain-append outer _ null before after null
                      (Chain-update outer _ null before z x _
                        (Chain-update outer _ null before z z _
                          (Chain-relink_last outer m.nodes null y f ys x z left _ at_last) z_out)
                        out)
                      (Chain-update outer _ (last ys y) after null x _
                        (Chain-relink_first outer _ x (last ys y) z e zs null (
                          Chain-update outer m.nodes x after null (last ys y) _ right.3
                            (not-has-right (last ys y) ((x, d) ∷ []) after p_out)))
                        right.2)
                      (λ q i.
                        not-has-right q ((x, d) ∷ []) after
                          (Chain-apart outer m.nodes null before ((x, d) ∷ after) null q c i));
              };
              gone = ground arith;
              env = refl;
              same = λ r o.
                  let o' = not-has-right r before ((x, d) ∷ after) o in
                  update_ne3 m.nodes r (last ys y) z x _ _ _
                    (ne_of_has before r (last ys y) (not-has-left r before ((x, d) ∷ after) o) y_in)
                    (ne_of_not-has_head r z e zs (not-has-right r ((x, d) ∷ []) after o'))
                    (ne_of_not-has_head r x d after o');
            })

    -- remove_node on a node of a linked list, wherever it stands, does not fault, leaves the
    -- other nodes linked in order with the count right, marks the node as off the list, and
    -- writes to no other memory.
    pub remove_node-Removed :
        (ys zs : Cells D)
        → IsList outer m (ys ++ (x, d) ∷ zs)
        → Returns (λ _. Removed outer x d ys zs m) (remove_node x m)
    remove_node-Removed [] [] is = unlink_only is
    remove_node-Removed [] ((z, e) ∷ zs) is = unlink_first z e zs is
    remove_node-Removed ((y, f) ∷ ys) [] is = unlink_last y f ys is
    remove_node-Removed ((y, f) ∷ ys) ((z, e) ∷ zs) is = unlink_middle_on y f ys z e zs is
