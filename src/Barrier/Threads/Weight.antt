-- ===== src/Barrier/Threads/Weight.antt =====
-- A step of a thread in its wait brings all waits nearer to their end.
use colock.Base.{
  ℕ, ◌-◌, ◌<◌, ◌≡◌, ◌≢◌, refl, Bool, Option, none, some, List, [], ◌∷◌, arith, ◌==◌, if◌then◌else◌,
  subst, update, of_some, Bool-cases, inl, inr, sym,
}
use colock.Base.Total.{total, total-change}
use colock.Intrusive.Heap.{Ptr, Run, and_then, ok, fault, out_of_fuel}
use colock.Intrusive.Defs
use colock.Intrusive.Concurrent.{drop_node}
use colock.Intrusive.Chain.{IsList}
use colock.Intrusive.Fresh.{from_head}
use colock.Intrusive.Pop.{Popped, pop_head-Popped, pop_head-none}
use colock.Intrusive.Returns.{Returns}
use colock.Barrier.{expect}
use colock.Barrier.Threads.{
  Place, outside, ready, leading, parked, faulted, Threads, step, arrive, lead, leave, led, queued,
  returned, address, unlocked,
}
use colock.Barrier.Threads.Inv.{items, Inv}
use colock.Barrier.Threads.Lead.{sleeper_below, listed, sleeper}

-- How many steps a thread has left in its wait, with one for each time that it is woken.
abbrev pub weight : Place → Bool → ℕ
weight ready flag = 3
weight parked flag = if flag then 1 else 2
weight leading flag = 1
weight _ flag = 0

abbrev pub steps_left : ℕ → Threads → ℕ
steps_left n s = total n (λ i. weight (s.place i) (s.flags i))

-- One thread's weight falls, and no other's changes.
falls :
    (n : ℕ) (s t : Threads) (i : ℕ)
    → i < n
    → ((j : ℕ) → j ≢ i → weight (s.place j) (s.flags j) ≡ weight (t.place j) (t.flags j))
    → weight (t.place i) (t.flags i) < weight (s.place i) (s.flags i)
    → steps_left n t < steps_left n s
falls n s t i lt same less = omega (
  arith,
  less,
  total-change n (λ j. weight (s.place j) (s.flags j)) (λ j. weight (t.place j) (t.flags j)) i lt
      same,
)

module _ (n : ℕ) (s : Threads) (i : ℕ) (lt : i < n) where
  queued-less :
      s.place i ≡ ready
      → (run : Run (List ℕ) ℕ (Unit {0})) → steps_left n (queued i s run) < steps_left n s
  queued-less at (ok u m) =
      falls n s (queued i s (ok u m)) i lt (λ j ne. ground arith) (ground arith)
  queued-less at fault = falls n s (queued i s fault) i lt (λ j ne. ground arith) (ground arith)
  queued-less at out_of_fuel =
      falls n s (queued i s out_of_fuel) i lt (λ j ne. ground arith) (ground arith)

  arrive-less :
      (outer : Ptr) → s.place i ≡ ready → steps_left n (arrive n outer i s) < steps_left n s
  unfolding arrive
  arrive-less outer at = elim (Bool-cases (s.mem.inner.count == n - 1)) [
    | inl last ↦ rw last (
        falls n s (record s { locked_by = some i; place = update s.place i leading }) i lt
          (λ j ne. ground arith) (ground arith))
    | inr more ↦
        rw more
          (queued-less at (and_then (Defs.push_head outer (address i) (s.mem)) (λ r. expect r)))
  ]

  -- `leave` at a state with the same places and flags.
  returned-less :
      (s' : Threads)
      → ((j : ℕ) → s'.place j ≡ s.place j)
      → ((j : ℕ) → s'.flags j ≡ s.flags j)
      → 0 < weight (s.place i) (s.flags i)
      → (run : Run (List ℕ) ℕ (Unit {0})) → steps_left n (returned i s' run) < steps_left n s
  returned-less s' same same' some_left (ok u m) =
      falls n s (returned i s' (ok u m)) i lt (λ j ne. ground (arith, same j, same' j))
        (ground arith)
  returned-less s' same same' some_left fault =
      falls n s (returned i s' fault) i lt (λ j ne. ground (arith, same j, same' j)) (ground arith)
  returned-less s' same same' some_left out_of_fuel =
      falls n s (returned i s' out_of_fuel) i lt (λ j ne. ground (arith, same j, same' j))
        (ground arith)

  leave-less :
      (outer : Ptr) (s' : Threads)
      → ((j : ℕ) → s'.place j ≡ s.place j)
      → ((j : ℕ) → s'.flags j ≡ s.flags j)
      → 0 < weight (s.place i) (s.flags i)
      → steps_left n (leave outer i s') < steps_left n s
  unfolding leave
  leave-less outer s' same same' some_left =
      returned-less s' same same' some_left (drop_node outer (address i) (s'.mem))

  module _ {outer : Ptr} (inv : Inv n outer s) (at : s.place i ≡ leading) where
    led-less :
        (w : ℕ) (rest : List ℕ) (here : inv.is ≡ w ∷ rest) (run : Run (List ℕ) ℕ (Option ℕ))
        → Returns
            (Popped outer
              (address w)
              w
              (from_head (items (w ∷ rest)))
              (from_head (items rest))
              s.mem)
            run
        → steps_left n (led outer i s run) < steps_left n s
    led-less w rest here (ok (some x) m) got =
        subst (λ y. steps_left n (led outer i s (ok (some y) m)) < steps_left n s)
          (of_some (sym got.result))
          (falls n s (led outer i s (ok (some w) m)) w
            (sleeper_below n outer i inv lt at w rest here) (λ j ne. ground arith)
            (ground (arith, sleeper n outer i inv lt at w rest here)))
    led-less w rest here (ok none m) got = cc got.result
    led-less w rest here fault got = absurd got
    led-less w rest here out_of_fuel got = absurd got

    lead-less : steps_left n (lead outer i s) < steps_left n s
    unfolding lead
    lead-less = by_list inv.is refl
      where
        by_list :
            (is : List ℕ)
            → inv.is ≡ is
            → steps_left n (led outer i s (Defs.pop_head (s.mem))) < steps_left n s
        by_list [] none_left =
            rw
              (pop_head-none outer s.mem
                (subst (λ q. IsList outer s.mem (from_head (items q))) none_left inv.is_list))
              (leave-less outer (unlocked s) (λ j. refl) (λ j. refl) (ground arith))
        by_list (w ∷ rest) here = led-less w rest here (Defs.pop_head (s.mem)) (
            pop_head-Popped outer (address w) w s.mem (from_head (items rest))
              (listed n outer i inv lt at w rest here))

-- A step inside a wait takes one or more of the steps left.
pub step-less :
    (n : ℕ) (outer : Ptr) (s t : Threads) (i : ℕ) (p : Place)
    → Inv n outer s
    → i < n
    → s.place i ≡ p
    → p ≢ outside
    → step n outer i p s ≡ some t
    → steps_left n t < steps_left n s
unfolding step
step-less n outer s t i outside inv lt at inside e = absurd (inside refl)
step-less n outer s t i ready inv lt at inside e = by_lock s.locked_by e
  where
    by_lock :
        (o : Option ℕ)
        → elim o [ none ↦ some (arrive n outer i s) | some _ ↦ none ] ≡ some t
        → steps_left n t < steps_left n s
    by_lock none e' =
        subst (λ u. steps_left n u < steps_left n s) (of_some e') (arrive-less n s i lt outer at)
    by_lock (some l) e' = cc
step-less n outer s t i leading inv lt at inside e =
    subst (λ u. steps_left n u < steps_left n s) (of_some e) (lead-less n s i lt inv at)
step-less n outer s t i parked inv lt at inside e = elim (Bool-cases (s.flags i)) [
  | inl up ↦
      subst (λ u. steps_left n u < steps_left n s) (of_some (rw up at e))
        (leave-less n s i lt outer s (λ j. refl) (λ j. refl) (ground arith))
  | inr down ↦ cc (rw down at e)
]
step-less n outer s t i faulted inv lt at inside e = cc
