-- ===== src/Barrier/Threads/Lead.antt =====
-- The leader's loop: each round wakes the first of the list, and the last round ends the wait.
use colock.Base.{
  ℕ, ◌+◌, ◌<◌, ◌≡◌, refl, true, false, ◌||◌, Option, none, some, List, [], ◌∷◌, ◌++◌, arith, ◌==◌,
  length, mem, ap, suc, update, ◌∙◌, sym, subst, Bool-cases, ltb, inl, inr, eq_of_test, of_some,
}
use colock.Base.Total.{total-same, total-change}
use colock.Intrusive.Heap.{Ptr, ok, fault, out_of_fuel, Run}
use colock.Intrusive.Defs
use colock.Intrusive.Chain.{IsList}
use colock.Intrusive.Fresh.{from_head}
use colock.Intrusive.Pop.{Popped, pop_head-Popped, pop_head-none}
use colock.Intrusive.Returns.{Returns}
use colock.Barrier.Threads.{leading, Threads, address, leave, lead, led, unlocked, BarrierMem}
use colock.Barrier.Threads.Inv.{
  one_if, asleep_at, is_asleep, has_free_node, holds, rounds, is_ahead, is_free, items, has-items,
  Inv,
}
use colock.Barrier.Threads.Steps.{leave-left, set_node-IsList}

module _ (n : ℕ) (outer : Ptr) {s : Threads} (i : ℕ) (inv : Inv n outer s) (lt : i < n)
    (at : s.place i ≡ leading) where
  locked : s.locked_by ≡ some i
  locked = by_lock s.locked_by (sym (inv.one_leads i) ∙ rw at refl)
    where
      by_lock : (o : Option ℕ) → holds i o ≡ true → o ≡ some i
      by_lock none h = cc
      by_lock (some l) h = ground arith

  ended-Inv : inv.is ≡ [] → Inv n outer (leave outer i (unlocked s))
  ended-Inv none_left =
      rw (leave-left n outer i (unlocked s) (ground (arith, inv.free_node i))) (record {
        is = inv.is;
        is_list = set_node-IsList n outer s.mem i inv.is _ inv.is_list (ground arith);
        asleep = λ j. ground (arith, inv.asleep j);
        counted = total-same n _ _ (λ j lt'. ground (arith)) ∙ inv.counted;
        short = inv.short;
        fresh = λ j e. ground (arith, inv.fresh j);
        quiet = λ j e. ground (arith, inv.quiet j);
        free_node = λ j e. ground (arith, inv.free_node j);
        one_leads = λ j. ground (arith, inv.one_leads j, locked);
        beyond = λ j h. ground (arith, inv.beyond j);
        in_round = λ j lt'. ground (arith, inv.in_round j, inv.asleep j, locked);
        within = λ j. ground (arith, inv.within j);
        sound = λ j. ground (arith, inv.sound j);
      })

  module _ (w : ℕ) (rest : List ℕ) (here : inv.is ≡ w ∷ rest) where
    abbrev woken : BarrierMem → Threads
    woken m = record s { mem = record m { env = m.env ++ w ∷ [] }; flags = update s.flags w true }

    pub listed : IsList outer s.mem (from_head (items (w ∷ rest)))
    listed = subst (λ q. IsList outer s.mem (from_head (items q))) here inv.is_list

    once : mem w rest ≡ false
    once = sym (has-items w rest) ∙ listed.chain.2

    gone : (j : ℕ) → (j == w) ≡ true → mem j rest ≡ false
    gone j this = ap (λ k. mem k rest) (eq_of_test j w this) ∙ once

    pub sleeper : is_asleep s w ≡ true
    sleeper = ground (arith, inv.asleep w)

    asleep_or : (j : ℕ) → is_asleep s j ≡ ((j == w) || mem j rest)
    asleep_or j = inv.asleep j ∙ ap (mem j) here

    pub sleeper_below : w < n
    sleeper_below = elim (Bool-cases (ltb w n)) [
      | inl below ↦ ground arith
      | inr above ↦ cc (ap (λ p. asleep_at p (s.flags w)) (inv.beyond w (ground arith)), sleeper)
    ]

    woken-Inv :
        (r : Option ℕ) (m : BarrierMem)
        → Popped outer
            (address w)
            w
            (from_head (items (w ∷ rest)))
            (from_head (items rest))
            s.mem
            r
            m
        → Inv n outer (woken m)
    woken-Inv r m got =
        let len : length inv.is ≡ suc (length rest) = ap length here in
        record {
          is = rest;
          is_list = record { inner = got.is_list.inner; chain = got.is_list.chain };
          asleep = λ j. ground (arith, asleep_or j, gone j);
          counted = omega (
            arith,
            inv.counted,
            len,
            total-change n (λ j. one_if (is_asleep s j))
                (λ j. one_if (asleep_at (s.place j) (update s.flags w true j))) w sleeper_below
                (λ l ne. ground arith),
            now_awake,
            was_asleep,
          );
          short = omega (arith, inv.short, len);
          fresh = λ j e. ground (arith, inv.fresh j, asleep_or j, same_node j);
          quiet = λ j e. ground (arith, inv.quiet j, asleep_or j);
          free_node = free_nodes;
          one_leads = λ j. ground (arith, inv.one_leads j);
          beyond = λ j h. ground (arith, inv.beyond j);
          in_round = λ j lt'. inv.in_round j lt' ∙ ap (λ k. rounds s + k) (same_ahead j);
          within = λ j. ground (arith, inv.within j);
          sound = λ j. ground (arith, inv.sound j);
        }
      where
        same_ahead :
            (j : ℕ)
            → one_if (is_ahead (s.place j) (s.flags j) s.locked_by)
              ≡ one_if (is_ahead (s.place j) (update s.flags w true j) s.locked_by)
        same_ahead j = rw locked (ground arith)

        now_awake : one_if (asleep_at (s.place w) (update s.flags w true w)) ≡ 0
        now_awake = ground arith

        was_asleep : one_if (is_asleep s w) ≡ 1
        was_asleep = ap one_if sleeper

        same_node :
            (j : ℕ) → mem j (w ∷ rest) ≡ false → m.nodes (address j) ≡ s.mem.nodes (address j)
        same_node j out = got.same (address j) (has-items j (w ∷ rest) ∙ out)

        popped_free : is_free (m.nodes (address w)) ≡ true
        popped_free = let (node, is_there, empty, off) = got.emptied in rw is_there (ground arith)

        others_free :
            (j : ℕ)
            → (j == w) ≡ false
            → has_free_node (s.place j) (s.flags j) ≡ true
            → is_free (m.nodes (address j)) ≡ true
        others_free j other e =
            let awake : is_asleep s j ≡ false = ground arith in
            let out : mem j rest ≡ false = ground (arith, asleep_or j) in
            rw (same_node j (rw other out)) (inv.free_node j e)

        free_nodes :
            (j : ℕ)
            → has_free_node (s.place j) (update s.flags w true j) ≡ true
            → is_free (m.nodes (address j)) ≡ true
        free_nodes j e = elim (Bool-cases (j == w)) [
          | inl this ↦
              subst (λ k. is_free (m.nodes (address k)) ≡ true) (sym (eq_of_test j w this))
                popped_free
          | inr other ↦ others_free j other (rw other at e)
        ]

  led-Inv :
      (w : ℕ) (rest : List ℕ) (here : inv.is ≡ w ∷ rest) (run : Run (List ℕ) ℕ (Option ℕ))
      → Returns
          (Popped outer (address w) w (from_head (items (w ∷ rest))) (from_head (items rest)) s.mem)
          run
      → Inv n outer (led outer i s run)
  led-Inv w rest here (ok (some x) m) got =
      subst (λ y. Inv n outer (led outer i s (ok (some y) m))) (of_some (sym got.result))
        (woken-Inv w rest here (some x) m got)
  led-Inv w rest here (ok none m) got = cc got.result
  led-Inv w rest here fault got = absurd got
  led-Inv w rest here out_of_fuel got = absurd got

  pub lead-Inv : Inv n outer (lead outer i s)
  unfolding lead
  lead-Inv = by_list inv.is refl
    where
      by_list : (is : List ℕ) → inv.is ≡ is → Inv n outer (led outer i s (Defs.pop_head (s.mem)))
      by_list [] none_left =
          rw
            (pop_head-none outer s.mem
              (subst (λ q. IsList outer s.mem (from_head (items q))) none_left inv.is_list))
            (ended-Inv none_left)
      by_list (w ∷ rest) here =
          led-Inv w rest here (Defs.pop_head (s.mem)) (
            pop_head-Popped outer (address w) w s.mem (from_head (items rest)) (listed w rest here))
