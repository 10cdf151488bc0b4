-- ===== src/Intrusive/Heap.antt =====
-- intrusive_list/src/lib.rs: nodes at addresses, the list's own fields, and commands on both.
-- A command faults where the source dereferences a null or dangling pointer, fails a
-- `debug_assert!`, panics, or leaves the range of a `usize`.
use colock.Base.{ℕ, Bool, Option, none, some, ◌==◌, if◌then◌else◌, update}

abbrev pub Ptr : Type 0
Ptr = ℕ

abbrev pub null : Ptr
null = 0

pub data Error : Type 0 where
  dirty_node aborted_push : Error

pub data Result (A : Type 0) : Type 0 where
  success : A → Result A
  failure : Error → Result A

pub data NodeAction : Type 0 where
  retain remove : NodeAction

pub data ScanAction : Type 0 where
  continue stop : ScanAction

pub record Node (D : Type 0) : Type 0 where
  pub next : Ptr
  pub prev : Ptr
  pub list : Ptr
  pub data_of : Option D
  pub is_on_list : Bool

-- `head`, `tail` and `count` of an `IntrusiveList`.
pub record IntrusiveList : Type 0 where
  pub head : Ptr
  pub tail : Ptr
  pub count : ℕ

-- Memory as the list's code sees it: the nodes, the list under its lock, and what the closures
-- handed to the list capture.
pub record Mem (E D : Type 0) : Type 0 where
  pub nodes : Ptr → Option (Node D)
  pub inner : IntrusiveList
  pub env : E

pub data Run (E D A : Type 0) : Type 0 where
  ok : A → Mem E D → Run E D A
  fault : Run E D A
  out_of_fuel : Run E D A

abbrev pub Cmd : Type 0 → Type 0 → Type 0 → Type 0
Cmd E D A = Mem E D → Run E D A

module _ {E D : Type 0} where
  abbrev pub pure : {A : Type 0} → A → Cmd E D A
  pure = ok

  abbrev pub and_then : {A B : Type 0} → Run E D A → (A → Cmd E D B) → Run E D B
  and_then (ok a m) k = k a m
  and_then fault k = fault
  and_then out_of_fuel k = out_of_fuel

  infixl 5 ◌>>=◌ ◌>>◌
  abbrev pub ◌>>=◌ : {A B : Type 0} → Cmd E D A → (A → Cmd E D B) → Cmd E D B
  c >>= k = λ m. and_then (c m) k

  abbrev pub ◌>>◌ : {A B : Type 0} → Cmd E D A → Cmd E D B → Cmd E D B
  c >> d = c >>= λ _. d

  -- What a pointer leads to, where that is a node.
  abbrev pub found : {A : Type 0} → Option A → Mem E D → Run E D A
  found none m = fault
  found (some a) m = ok a m

  abbrev pub debug_assert : Bool → Cmd E D (Unit {0})
  debug_assert b m = if b then ok tt m else fault

  -- `&mut *p`
  unfoldable pub node_at : Ptr → Cmd E D (Node D)
  node_at p m = if p == null then fault else found (m.nodes p) m

  abbrev pub put_node : Ptr → Node D → Cmd E D (Unit {0})
  put_node p n m = ok tt (record m { nodes = update m.nodes p (some n) })

  abbrev pub get_list : Cmd E D IntrusiveList
  get_list m = ok m.inner m

  abbrev pub put_list : IntrusiveList → Cmd E D (Unit {0})
  put_list l m = ok tt (record m { inner = l })

  unfoldable pub set_next : Ptr → Ptr → Cmd E D (Unit {0})
  unfolding node_at
  set_next p q = do n ← node_at p; put_node p (record n { next = q })

  unfoldable pub set_prev : Ptr → Ptr → Cmd E D (Unit {0})
  unfolding node_at
  set_prev p q = do n ← node_at p; put_node p (record n { prev = q })

  unfoldable pub set_list : Ptr → Ptr → Cmd E D (Unit {0})
  unfolding node_at
  set_list p q = do n ← node_at p; put_node p (record n { list = q })

  unfoldable pub set_data : Ptr → Option D → Cmd E D (Unit {0})
  unfolding node_at
  set_data p d = do n ← node_at p; put_node p (record n { data_of = d })

  -- `is_on_list.store`
  unfoldable pub set_on_list : Ptr → Bool → Cmd E D (Unit {0})
  unfolding node_at
  set_on_list p b = do n ← node_at p; put_node p (record n { is_on_list = b })
