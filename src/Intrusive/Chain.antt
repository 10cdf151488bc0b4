-- ===== src/Intrusive/Chain.antt =====
-- What the linked nodes of a list stand for: address and data of each node, from head to tail. The
-- data is `none` only between the two writes by which `scan` takes a node out.
use colock.Base.{
  ◌≡◌, refl, ap, ◌∙◌, ◌≢◌, Bool, true, false, ◌||◌, Option, some, List, [], ◌∷◌, ◌++◌, arith, ◌==◌,
  update, update_ne, length, Bool-cases, inl, inr,
}
use colock.Intrusive.Heap.{Ptr, null, Node, IntrusiveList, Mem}

abbrev pub Cells : Type 0 → Type 0
Cells D = List (Ptr × Option D)

module _ {D : Type 0} where
  abbrev pub has : Ptr → Cells D → Bool
  has a [] = false
  has a ((p, _) ∷ xs) = (a == p) || has a xs

  -- The first address of the cells, or what follows them.
  abbrev pub first : Cells D → Ptr → Ptr
  first [] after = after
  first ((p, _) ∷ xs) after = p

  -- The last address of the cells, or what precedes them.
  abbrev pub last : Cells D → Ptr → Ptr
  last [] before = before
  last ((p, _) ∷ xs) before = last xs p

  abbrev pub linked : Ptr → Ptr → Ptr → Option D → Node D
  linked outer before after d = record {
    next = after;
    prev = before;
    list = outer;
    data_of = d;
    is_on_list = true;
  }

  -- From `before` to `after` the nodes `xs` are linked both ways, distinct and none at null.
  abbrev pub Chain : Ptr → (Ptr → Option (Node D)) → Ptr → Cells D → Ptr → Type 0
  Chain outer h before [] after = Unit
  Chain outer h before ((p, d) ∷ xs) after =
      (p ≢ null)
      × (h p ≡ some (linked outer before (first xs after) d))
      × (has p xs ≡ false)
      × Chain outer h p xs after

  abbrev pub list_of : Cells D → IntrusiveList
  list_of xs = record { head = first xs null; tail = last xs null; count = length xs }

  -- The memory holds exactly the list `xs`.
  pub record IsList {E : Type 0} (outer : Ptr) (m : Mem E D) (xs : Cells D) : Type 0 where
    pub inner : m.inner ≡ list_of xs
    pub chain : Chain outer m.nodes null xs null

  pub has-append : (a : Ptr) (xs ys : Cells D) → has a (xs ++ ys) ≡ (has a xs || has a ys)
  has-append a [] ys = refl
  has-append a ((p, d) ∷ xs) ys = ground (arith, has-append a xs ys)

  pub not-has-left : (a : Ptr) (xs ys : Cells D) → has a (xs ++ ys) ≡ false → has a xs ≡ false
  not-has-left a xs ys out = ground (arith, has-append a xs ys)

  pub not-has-right : (a : Ptr) (xs ys : Cells D) → has a (xs ++ ys) ≡ false → has a ys ≡ false
  not-has-right a xs ys out = ground (arith, has-append a xs ys)

  pub ne_of_not-has_head :
      (a p : Ptr) (d : Option D) (xs : Cells D) → has a ((p, d) ∷ xs) ≡ false → a ≢ p
  ne_of_not-has_head a p d xs out = ground arith

  pub first-append : (xs ys : Cells D) (a : Ptr) → first (xs ++ ys) a ≡ first xs (first ys a)
  first-append [] ys a = refl
  first-append (x ∷ xs) ys a = refl

  pub last-append : (xs ys : Cells D) (b : Ptr) → last (xs ++ ys) b ≡ last ys (last xs b)
  last-append [] ys b = refl
  last-append ((p, d) ∷ xs) ys b = last-append xs ys p

  -- The last of some cells is one of them.
  pub has-last : (p : Ptr) (d : Option D) (xs : Cells D) → has (last xs p) ((p, d) ∷ xs) ≡ true
  has-last p d [] = ground arith
  has-last p d ((q, e) ∷ xs) = ground (arith, has-last q e xs)

  pub ne_of_has : (xs : Cells D) (p q : Ptr) → has p xs ≡ false → has q xs ≡ true → p ≢ q
  ne_of_has xs p q out i e = cc (ap (λ r. has r xs) e)

  module _ (outer : Ptr) (h : Ptr → Option (Node D)) where
    -- A chain survives any change that spares its own addresses.
    pub Chain-frame :
        {g : Ptr → Option (Node D)} (b : Ptr) (xs : Cells D) (a : Ptr)
        → Chain outer h b xs a
        → ((p : Ptr) → has p xs ≡ true → g p ≡ h p)
        → Chain outer g b xs a
    Chain-frame b [] a c same = tt
    Chain-frame b ((p, d) ∷ xs) a c same =
        (c.0, ground (arith, same p), c.2, Chain-frame p xs a c.3 (λ q i. same q (ground arith)))

    pub Chain-update :
        (b : Ptr) (xs : Cells D) (a p : Ptr) (n : Option (Node D))
        → Chain outer h b xs a
        → has p xs ≡ false
        → Chain outer (update h p n) b xs a
    Chain-update b xs a p n c out = Chain-frame b xs a c (λ q i. ground arith)

    pub Chain-append :
        (b : Ptr) (xs ys : Cells D) (a : Ptr)
        → Chain outer h b xs (first ys a)
        → Chain outer h (last xs b) ys a
        → ((p : Ptr) → has p xs ≡ true → has p ys ≡ false)
        → Chain outer h b (xs ++ ys) a
    Chain-append b [] ys a c e apart = e
    Chain-append b ((p, d) ∷ xs) ys a c e apart = (
      c.0,
      ground (arith, first-append xs ys a),
      ground (arith, has-append p xs ys, apart p),
      Chain-append p xs ys a c.3 e (λ q i. apart q (ground arith)),
    )

    pub Chain-left :
        (b : Ptr) (xs ys : Cells D) (a : Ptr)
        → Chain outer h b (xs ++ ys) a
        → Chain outer h b xs (first ys a)
    Chain-left b [] ys a c = tt
    Chain-left b ((p, d) ∷ xs) ys a c = (
      c.0,
      ground (arith, first-append xs ys a),
      ground (arith, has-append p xs ys),
      Chain-left p xs ys a c.3,
    )

    pub Chain-right :
        (b : Ptr) (xs ys : Cells D) (a : Ptr)
        → Chain outer h b (xs ++ ys) a
        → Chain outer h (last xs b) ys a
    Chain-right b [] ys a c = c
    Chain-right b ((p, d) ∷ xs) ys a c = Chain-right p xs ys a c.3

    pub Chain-apart :
        (b : Ptr) (xs ys : Cells D) (a q : Ptr)
        → Chain outer h b (xs ++ ys) a
        → has q xs ≡ true
        → has q ys ≡ false
    Chain-apart b [] ys a q c i = absurd (ground arith)
    Chain-apart b ((p, d) ∷ xs) ys a q c i =
        ground (arith, has-append p xs ys, Chain-apart p xs ys a q c.3)

    pub has-ne-null :
        (b : Ptr) (xs : Cells D) (a p : Ptr) → Chain outer h b xs a → has p xs ≡ true → p ≢ null
    has-ne-null b [] a p c i = absurd (ground arith)
    has-ne-null b ((q, d) ∷ xs) a p c i = ground (arith, has-ne-null q xs a p c.3)

    -- The end of a chain gets a new successor, its start a new predecessor.
    pub Chain-relink_last :
        (b p : Ptr) (d : Option D) (xs : Cells D) (a a' : Ptr)
        → Chain outer h b ((p, d) ∷ xs) a
        → (n : Node D) → h (last xs p) ≡ some n
        → Chain outer (update h (last xs p) (some (record n { next = a' }))) b ((p, d) ∷ xs) a'
    Chain-relink_last b p d [] a a' c n e = (c.0, ground arith, refl, tt)
    Chain-relink_last b p d ((q, f) ∷ xs) a a' c n e = (
      c.0,
      update_ne h p (last xs q) _ (ne_of_has ((q, f) ∷ xs) p (last xs q) c.2 (has-last q f xs))
          ∙ c.1,
      c.2,
      Chain-relink_last p q f xs a a' c.3 n e,
    )

    pub Chain-relink_first :
        (b b' p : Ptr) (d : Option D) (xs : Cells D) (a : Ptr)
        → Chain outer h b ((p, d) ∷ xs) a
        → Chain outer (update h p (some (linked outer b' (first xs a) d))) b' ((p, d) ∷ xs) a
    Chain-relink_first b b' p d xs a c = (c.0, ground arith, c.2, Chain-update p xs a p _ c.3 c.2)

    -- A node that is not on a list is none of the chain.
    pub not-has_of_off :
        (b : Ptr) (xs : Cells D) (a p : Ptr) (n : Node D)
        → Chain outer h b xs a
        → h p ≡ some n
        → n.is_on_list ≡ false
        → has p xs ≡ false
    not-has_of_off b [] a p n c e off = refl
    not-has_of_off b ((q, d) ∷ xs) a p n c e off =
        ground (arith, not-has_of_off q xs a p n c.3 e off)

    -- The last node of a chain that is not empty.
    pub node_of_last :
        (b p : Ptr) (d : Option D) (xs : Cells D) (a : Ptr)
        → Chain outer h b ((p, d) ∷ xs) a
        → (before : Ptr) × (f : Option D) × (h (last xs p) ≡ some (linked outer before a f))
    node_of_last b p d [] a c = (b, d, c.1)
    node_of_last b p d ((q, e) ∷ xs) a c = node_of_last p q e xs a c.3

    pub Chain-apart_back :
        (b : Ptr) (xs ys : Cells D) (a q : Ptr)
        → Chain outer h b (xs ++ ys) a
        → has q ys ≡ true
        → has q xs ≡ false
    Chain-apart_back b xs ys a q c i = elim (Bool-cases (has q xs)) [
      | inl j ↦ cc (Chain-apart b xs ys a q c j)
      | inr out ↦ out
    ]
