-- ===== src/Intrusive/Access.antt =====
-- What the reads and writes of a node do where the pointer leads to one.
use colock.Base.{◌≡◌, ◌≢◌, Bool, Option, some, ne→eq_false, update}
use colock.Intrusive.Heap.{
  Ptr, null, Node, Mem, ok, node_at, set_next, set_prev, set_list, set_data, set_on_list,
}

module _ {E D : Type 0} (p : Ptr) (n : Node D) (m : Mem E D) (ne : p ≢ null)
    (e : m.nodes p ≡ some n) where
  pub node_at-ok : node_at p m ≡ ok n m
  unfolding node_at
  node_at-ok = rw (ne→eq_false p null ne, e)

  pub set_next-ok :
      (q : Ptr)
      → set_next p q m
        ≡ ok tt (record m { nodes = update m.nodes p (some (record n { next = q })) })
  unfolding set_next
  set_next-ok q = rw (ne→eq_false p null ne, e)

  pub set_prev-ok :
      (q : Ptr)
      → set_prev p q m
        ≡ ok tt (record m { nodes = update m.nodes p (some (record n { prev = q })) })
  unfolding set_prev
  set_prev-ok q = rw (ne→eq_false p null ne, e)

  pub set_list-ok :
      (q : Ptr)
      → set_list p q m
        ≡ ok tt (record m { nodes = update m.nodes p (some (record n { list = q })) })
  unfolding set_list
  set_list-ok q = rw (ne→eq_false p null ne, e)

  pub set_data-ok :
      (d : Option D)
      → set_data p d m
        ≡ ok tt (record m { nodes = update m.nodes p (some (record n { data_of = d })) })
  unfolding set_data
  set_data-ok d = rw (ne→eq_false p null ne, e)

  pub set_on_list-ok :
      (b : Bool)
      → set_on_list p b m
        ≡ ok tt (record m { nodes = update m.nodes p (some (record n { is_on_list = b })) })
  unfolding set_on_list
  set_on_list-ok b = rw (ne→eq_false p null ne, e)
