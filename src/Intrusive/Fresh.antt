-- ===== src/Intrusive/Fresh.antt =====
-- Lists whose nodes all hold data, and nodes that are made and not yet pushed.
use colock.Base.{
  ◌≡◌, ◌≢◌, refl, ap, ◌∙◌, true, false, some, suc, List, [], ◌∷◌, ◌++◌, arith, length, Bool-cases,
  inl, inr, eq_of_test, ◌==◌,
}
use colock.Intrusive.Heap.{Ptr, null, Mem}
use colock.Intrusive.Defs
use colock.Intrusive.Chain.{Cells, has, IsList, not-has_of_off}

module _ {D : Type 0} where
  -- The cells of these items.
  abbrev pub from_head : List (Ptr × D) → Cells D
  from_head [] = []
  from_head ((p, d) ∷ zs) = (p, some d) ∷ from_head zs

  pub length-from_head : (zs : List (Ptr × D)) → length (from_head zs) ≡ length zs
  length-from_head [] = refl
  length-from_head ((p, d) ∷ zs) = ap suc (length-from_head zs)

  pub from_head-append :
      (ys zs : List (Ptr × D)) → from_head (ys ++ zs) ≡ from_head ys ++ from_head zs
  from_head-append [] zs = refl
  from_head-append ((p, d) ∷ ys) zs = ap (λ xs. (p, some d) ∷ xs) (from_head-append ys zs)

module _ {E D : Type 0} where
  -- Each of the nodes is new, and they are distinct.
  abbrev pub AllNew : Mem E D → List (Ptr × D) → Type 0
  AllNew m [] = Unit
  AllNew m ((p, d) ∷ ns) =
      (p ≢ null)
      × (m.nodes p ≡ some (Defs.new_node d))
      × (has p (from_head ns) ≡ false)
      × AllNew m ns

  pub AllNew-kept :
      (m m' : Mem E D) (ns : List (Ptr × D))
      → AllNew m ns
      → ((q : Ptr) → has q (from_head ns) ≡ true → m'.nodes q ≡ m.nodes q)
      → AllNew m' ns
  AllNew-kept m m' [] new same = tt
  AllNew-kept m m' ((p, d) ∷ ns) new same = (
    new.0,
    same p (ground arith) ∙ new.1,
    new.2,
    AllNew-kept m m' ns new.3 (λ q i. same q (ground arith)),
  )

  -- A new node is none of a list.
  pub new-out :
      (outer : Ptr) (m : Mem E D) (xs : Cells D) (ns : List (Ptr × D)) (q : Ptr)
      → IsList outer m xs
      → AllNew m ns
      → has q (from_head ns) ≡ true
      → has q xs ≡ false
  new-out outer m xs [] q is new i = cc
  new-out outer m xs ((p, d) ∷ ns) q is new i = elim (Bool-cases (q == p)) [
    | inl same ↦
        not-has_of_off outer m.nodes null xs null q (Defs.new_node d) is.chain
          (ap m.nodes (eq_of_test q p same) ∙ new.1) refl
    | inr other ↦ new-out outer m xs ns q is new.3 (rw other at i)
  ]
