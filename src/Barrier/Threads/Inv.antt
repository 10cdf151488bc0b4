-- ===== src/Barrier/Threads/Inv.antt =====
-- The invariant of threads at a barrier: who waits on the list, and which round each is in.
use colock.Base.{
  ℕ, ◌+◌, ◌<◌, ◌≤◌, ◌≡◌, ◌≢◌, refl, Bool, true, false, not, ◌&&◌, Option, none, some, List, [], ◌∷◌,
  arith, ◌==◌, if◌then◌else◌, length, mem, ap, suc,
}
use colock.Base.Total.{total, total-zero}
use colock.Intrusive.Heap.{Ptr, Node}
use colock.Intrusive.Defs
use colock.Intrusive.Chain.{has, IsList}
use colock.Intrusive.Fresh.{from_head}
use colock.Barrier.Threads.{Place, outside, ready, leading, parked, faulted, Threads, address, init}

abbrev pub one_if : Bool → ℕ
one_if b = if b then 1 else 0

-- In `park`, and not woken.
abbrev pub asleep_at : Place → Bool → Bool
asleep_at parked flag = not flag
asleep_at _ flag = false

abbrev pub is_asleep : Threads → ℕ → Bool
is_asleep s i = asleep_at (s.place i) (s.flags i)

-- With a node of its own that is not on the list.
abbrev pub has_free_node : Place → Bool → Bool
has_free_node ready flag = true
has_free_node leading flag = true
has_free_node parked flag = flag
has_free_node _ flag = false

abbrev pub is_free : Option (Node ℕ) → Bool
is_free none = false
is_free (some node) = not node.is_on_list

abbrev pub is_ready : Place → Bool
is_ready ready = true
is_ready _ = false

abbrev pub is_leading : Place → Bool
is_leading leading = true
is_leading _ = false

abbrev pub is_inside : Place → Bool
is_inside outside = false
is_inside _ = true

abbrev pub holds : ℕ → Option ℕ → Bool
holds i none = false
holds i (some l) = i == l

abbrev pub is_held : Option ℕ → Bool
is_held none = false
is_held (some l) = true

-- The rounds for which a leader was found.
abbrev pub rounds : Threads → ℕ
rounds s = s.leaders + one_if (is_held s.locked_by)

-- In a wait of the next round: not asleep for a leader that has yet to wake it.
abbrev pub is_ahead : Place → Bool → Option ℕ → Bool
is_ahead ready flag lock = true
is_ahead parked flag lock = not flag && not (is_held lock)
is_ahead _ flag lock = false

-- The nodes of these threads, with their wakers.
abbrev pub items : List ℕ → List (Ptr × ℕ)
items [] = []
items (i ∷ is) = (address i, i) ∷ items is

pub has-items : (i : ℕ) (is : List ℕ) → has (address i) (from_head (items is)) ≡ mem i is
has-items i [] = refl
has-items i (j ∷ is) = ground (arith, has-items i is)

pub length-items : (is : List ℕ) → length (items is) ≡ length is
length-items [] = refl
length-items (j ∷ is) = ap suc (length-items is)

pub record Inv (n : ℕ) (outer : Ptr) (s : Threads) : Type 0 where
  pub is : List ℕ
  pub is_list : IsList outer s.mem (from_head (items is))
  pub asleep : (i : ℕ) → is_asleep s i ≡ mem i is
  pub counted : total n (λ i. one_if (is_asleep s i)) ≡ length is
  pub short : length is < n
  pub fresh : (i : ℕ) → s.place i ≡ ready → s.mem.nodes (address i) ≡ some (Defs.new_node i)
  pub quiet : (i : ℕ) → s.place i ≡ ready → s.flags i ≡ false
  pub free_node :
      (i : ℕ)
      → has_free_node (s.place i) (s.flags i) ≡ true
      → is_free (s.mem.nodes (address i)) ≡ true
  pub one_leads : (i : ℕ) → is_leading (s.place i) ≡ holds i s.locked_by
  pub beyond : (i : ℕ) → n ≤ i → s.place i ≡ outside
  pub in_round :
      (i : ℕ) → i < n → s.began i ≡ rounds s + one_if (is_ahead (s.place i) (s.flags i) s.locked_by)
  pub within : (i : ℕ) → s.began i ≡ s.done i + one_if (is_inside (s.place i))
  pub sound : (i : ℕ) → s.place i ≢ faulted

pub Inv-init : (n : ℕ) (outer : Ptr) → 0 < n → Inv n outer init
Inv-init n outer pos = record {
  is = [];
  is_list = record { inner = refl; chain = tt };
  asleep = λ i. refl;
  counted = total-zero n (λ i. 0) (λ i lt. refl);
  short = pos;
  fresh = λ i e. cc;
  quiet = λ i e. cc;
  free_node = λ i e. cc;
  one_leads = λ i. refl;
  beyond = λ i h. refl;
  in_round = λ i lt. refl;
  within = λ i. refl;
  sound = λ i e. cc;
}
