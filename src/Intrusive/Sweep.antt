-- ===== src/Intrusive/Sweep.antt =====
-- What a scan leaves of a list of items: the reference for `scan`.
use colock.Base.{ℕ, ◌-◌, ◌≡◌, refl, Option, some, List, [], ◌∷◌, ◌++◌, arith, length, length-append}
use colock.Intrusive.Heap.{Ptr, NodeAction, retain, remove, ScanAction, continue, stop}
use colock.Intrusive.Chain.{Cells}
use colock.Intrusive.Fresh.{from_head}
use colock.Intrusive.Visit.{kept}

abbrev pub count_after : NodeAction → ℕ → ℕ
count_after retain n = n
count_after remove n = n - 1

module _ {D : Type 0} where
  abbrev pub remains : NodeAction → Ptr → D → List (Ptr × D) → List (Ptr × D)
  remains retain x d xs = (x, d) ∷ xs
  remains remove x d xs = xs

  pub from_head-remains :
      (a : NodeAction) (x : Ptr) (d : D) (xs : List (Ptr × D))
      → from_head (remains a x d xs) ≡ kept a x d (from_head xs)
  from_head-remains retain x d xs = refl
  from_head-remains remove x d xs = refl

  pub length-kept :
      (a : NodeAction) (x : Ptr) (d : Option D) (d' : D) (ys zs : Cells D)
      → length (ys ++ kept a x d' zs) ≡ count_after a (length (ys ++ (x, d) ∷ zs))
  length-kept retain x d d' ys zs =
      omega (arith, length-append ys ((x, some d') ∷ zs), length-append ys ((x, d) ∷ zs))
  length-kept remove x d d' ys zs =
      omega (arith, length-append ys zs, length-append ys ((x, d) ∷ zs))

-- What a scan does at one item, and `more` at those after it.
abbrev pub visit :
    {D E : Type 0}
    → (NodeAction × ScanAction) × D × E
    → Ptr
    → List (Ptr × D)
    → ℕ
    → (ℕ → E → List (Ptr × D) × E)
    → List (Ptr × D) × E
visit ((a, stop), d, e) x xs n more = (remains a x d xs, e)
visit ((a, continue), d, e) x xs n more =
    let rest = more (count_after a n) e in (remains a x d rest.0, rest.1)

module _ {E D : Type 0} (f : D → ℕ → E → (NodeAction × ScanAction) × D × E) where
  -- The scan of a list of items, with the number `n` of nodes on the list as the closure sees it.
  abbrev pub sweep : List (Ptr × D) → ℕ → E → List (Ptr × D) × E
  sweep [] n e = ([], e)
  sweep ((x, d) ∷ xs) n e = visit (f d n e) x xs n (sweep xs)
