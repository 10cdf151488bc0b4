-- ===== src/MiniLock/Change.antt =====
-- mini_lock/src/lib.rs: the exchanges in `push_or_lock` and `pop` that change the stack.
use colock.Base.{
  mem, ℕ, ◌≡◌, true, false, List, [], ◌∷◌, ◌==◌, arith, update, ap, ◌∙◌, Bool-cases, inl, inr,
}
use colock.MiniLock.Word.{get_ptr, set_flag, get_flag, address, owner_of}
use colock.MiniLock.Thread.{
  Pc, pushing, parked, popping, releasing, Shared, Action, run, advance, push_or_lock, pop_round,
}
use colock.MiniLock.Exclusion.{Inv, Moved}
use colock.MiniLock.Stack.{Chain, Chain-same, get_ptr-set_flag, wakes, Waits, Points-push}
use colock.MiniLock.Still.{changes, Waits-still}

-- The node of thread `i` is now the first.
pub record Pushed (m m' : Shared) (pc : ℕ → Pc) (i head : ℕ) (p' : Pc) : Type 0 where
  pub here : pc i ≡ pushing head
  pub same : m.head ≡ head
  pub locked : get_flag head ≡ true
  pub after : m' ≡ record m { head = set_flag (address i); next = update m.next i (get_ptr m.head) }
  pub at : p' ≡ parked

-- The first node, that of `z`, is now off the stack.
pub record Popped (m m' : Shared) (pc : ℕ → Pc) (i z : ℕ) (p' : Pc) : Type 0 where
  pub here : (head : ℕ) × (pc i ≡ popping head)
  pub after : m' ≡ record m { head = set_flag (m.next z); waker = update m.waker z false }
  pub at : p' ≡ releasing z

module _ {m m' : Shared} {pc : ℕ → Pc} {is : List ℕ} (w : Waits m pc is) (i : ℕ) {p' : Pc} where
  module _ {head : ℕ} (t : Pushed m m' pc i head p') where
    new_node : mem i is ≡ false
    new_node = ground (arith, w.queued i, t.here)

    pushed-Chain : Chain m'.next (get_ptr m'.head) (i ∷ is)
    pushed-Chain =
        let linked : m'.next i ≡ get_ptr m.head = ground (arith, t.after) in
        (
          ground (arith, t.after),
          rw linked (
              Chain-same m.next m'.next (get_ptr m.head) is
                (λ j q. ground (arith, t.after, new_node)) w.chain),
        )

    Waits-push : Waits m' (update pc i p') (i ∷ is)
    Waits-push = record {
      chain = pushed-Chain;
      once = ground (arith, new_node, w.once);
      queued = λ j q. ground (arith, t.after, t.at, w.queued j, w.fresh i, t.here);
      fresh = λ j q. ground (arith, t.after, t.at, w.fresh j);
      popped = λ j z q. ground (arith, t.after, t.at, t.here, w.popped j z);
      one_waker = λ j k z q r. ground (arith, t.at, w.one_waker j k z);
      sleeping = λ j s. elim (Bool-cases (j == i)) [
        | inl same ↦ inl (ground arith)
        | inr other ↦ elim (w.sleeping j (ground (arith, t.after, t.at))) [
          | inl q ↦ inl (ground arith)
          | inr (k, y) ↦ inr (k, ground (arith, t.at, t.here))
        ]
      ];
      reads = λ j word e. Points-push word i is (w.reads j word (ground (arith, t.at)));
    }

module _ {m m' : Shared} {pc : ℕ → Pc} {z : ℕ} {is : List ℕ} (inv : Inv m pc)
    (w : Waits m pc (z ∷ is)) (i : ℕ) {p' : Pc} (t : Popped m m' pc i z p') where
  popped-Chain : Chain m'.next (get_ptr m'.head) is
  popped-Chain =
      let ptr : get_ptr m'.head ≡ m.next z =
        ap get_ptr (ap (λ s. s.head) t.after) ∙ get_ptr-set_flag m.next (m.next z) is w.chain.1 in
      rw ptr (Chain-same m.next m'.next (m.next z) is (λ j q. ground (arith, t.after)) w.chain.1)

  not_waking : (y : ℕ) → wakes y (pc i) ≡ false
  not_waking y = ground (arith, t.here.1)

  Waits-pop : Waits m' (update pc i p') is
  Waits-pop = record {
    chain = popped-Chain;
    once = ground (arith, w.once);
    queued = λ j q. ground (arith, t.after, t.at, w.queued j, t.here.1, w.once);
    fresh = λ j q. ground (arith, t.after, t.at, w.fresh j, w.queued z);
    popped = λ j y q. ground (arith, t.after, t.at, t.here.1, w.popped j y, w.queued z, w.once);
    one_waker = λ j k y q r. ground (arith, t.at, w.one_waker j k y, w.popped j z, w.popped k z);
    sleeping = λ j s. elim (w.sleeping j (ground (arith, t.after, t.at, t.here.1))) [
      | inl q ↦ elim (Bool-cases (j == z)) [
        | inl same ↦ inr (i, ground (arith, t.at))
        | inr other ↦ inl (ground arith)
      ]
      | inr (k, y) ↦ inr (k, ground (arith, t.at, t.here.1))
    ];
    reads = λ j word e. absurd (ground (arith, t.at, t.here.1, inv.one i j));
  }

module _ {m m' : Shared} {pc : ℕ → Pc} (i : ℕ) where
  -- What a step that changes the stack has done.
  pushes :
      (a : Action) (head : ℕ) (p' : Pc)
      → Moved m m' pc i a (pushing head) p'
      → changes (pushing head) m ≡ true
      → Pushed m m' pc i head p'
  unfolding advance push_or_lock
  pushes run head p' v c = record {
    here = v.here;
    same = ground arith;
    locked = ground arith;
    after = ground (arith, v.step);
    at = ground (arith, v.step);
  }
  pushes a head p' v c = ground (arith, v.step)

  pops :
      (a : Action) (head z : ℕ) (is : List ℕ) (p' : Pc)
      → Moved m m' pc i a (popping head) p'
      → changes (popping head) m ≡ true
      → Waits m pc (z ∷ is)
      → Popped m m' pc i z p'
  unfolding advance pop_round
  pops run head z is p' v c w =
      let first : owner_of head ≡ z = ground (arith, w.chain.0) in
      let present : m.waker z ≡ true = ground (arith, w.queued z) in
      record {
        here = (head, v.here);
        after = ground (arith, v.step, first, present, w.chain.0);
        at = ground (arith, v.step, first, present, w.chain.0);
      }
  pops a head z is p' v c w = ground (arith, v.step)

-- Every step leads to a stack of waiting nodes.
module _ {m m' : Shared} {pc : ℕ → Pc} {is : List ℕ} (inv : Inv m pc) (w : Waits m pc is)
    (i : ℕ) where
  changed :
      (a : Action) (p p' : Pc)
      → Moved m m' pc i a p p'
      → changes p m ≡ true
      → (is' : List ℕ) × Waits m' (update pc i p') is'
  changed a (pushing head) p' v c = (i ∷ is, Waits-push w i (pushes i a head p' v c))
  changed a (popping head) p' v c = taken is w
    where
      taken : (is : List ℕ) → Waits m pc is → (is' : List ℕ) × Waits m' (update pc i p') is'
      taken [] w = absurd (ground (arith, w.chain, inv.sane i, v.here))
      taken (z ∷ is) w = (is, Waits-pop inv w i (pops i a head z is p' v c w))
  changed a p p' v c = ground arith

  pub Waits-kept :
      (a : Action) (p p' : Pc)
      → Moved m m' pc i a p p'
      → (is' : List ℕ) × Waits m' (update pc i p') is'
  Waits-kept a p p' v = elim (Bool-cases (changes p m)) [
    | inl c ↦ changed a p p' v c
    | inr c ↦ (is, Waits-still inv w i a p p' v c)
  ]
