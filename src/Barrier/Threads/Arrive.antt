-- ===== src/Barrier/Threads/Arrive.antt =====
-- An arrival at the list: the thread joins those that wait, or is the last and leads.
use colock.Base.{
  ℕ, ◌+◌, ◌-◌, ◌<◌, ◌≡◌, ◌≢◌, true, false, none, some, List, ◌∷◌, arith, ◌==◌, length, mem, ap, suc,
  update, ◌∙◌, Bool-cases, inl, inr, usize_mod, subst,
}
use colock.Base.Total.{total-same, total-change, total-all_but_one}
use colock.Intrusive.Heap.{Ptr, ok, fault, out_of_fuel, Run, Result, success, and_then}
use colock.Intrusive.Defs
use colock.Intrusive.Fresh.{from_head, length-from_head}
use colock.Intrusive.Push.{Pushed, push_head-on}
use colock.Intrusive.Returns
use colock.Intrusive.Returns.{Returns}
use colock.Barrier.{expect}
use colock.Barrier.Threads.{ready, leading, parked, Threads, address, arrive, queued, BarrierMem}
use colock.Barrier.Threads.Inv.{one_if, asleep_at, is_asleep, items, has-items, length-items, Inv}

module _ (n : ℕ) (outer : Ptr) {s : Threads} (i : ℕ) (inv : Inv n outer s) (lt : i < n)
    (at : s.place i ≡ ready) (unlocked : s.locked_by ≡ none) where
  count-length : s.mem.inner.count ≡ length inv.is
  count-length =
      ap (λ l. l.count) inv.is_list.inner ∙ length-from_head (items inv.is) ∙ length-items inv.is

  others_asleep : length inv.is + 1 ≡ n → (j : ℕ) → j < n → j ≢ i → is_asleep s j ≡ true
  others_asleep full j lt' ne =
      let one : one_if (is_asleep s j) ≡ 1 =
        total-all_but_one n (λ k. one_if (is_asleep s k)) (λ k. ground arith) i lt (ground arith)
          (omega (arith, inv.counted)) j lt' ne in
      ground arith

  leads-Inv :
      length inv.is + 1 ≡ n
      → Inv n outer (record s { locked_by = some i; place = update s.place i leading })
  leads-Inv full = record {
    is = inv.is;
    is_list = inv.is_list;
    asleep = λ j. ground (arith, inv.asleep j);
    counted = total-same n _ _ (λ j lt'. ground (arith)) ∙ inv.counted;
    short = inv.short;
    fresh = λ j e. ground (arith, inv.fresh j);
    quiet = λ j e. ground (arith, inv.quiet j);
    free_node = λ j e. ground (arith, inv.free_node j);
    one_leads = λ j. ground (arith, inv.one_leads j);
    beyond = λ j h. ground (arith, inv.beyond j);
    in_round = λ j lt'. ground (arith, inv.in_round j, others_asleep full j);
    within = λ j. ground (arith, inv.within j);
    sound = λ j. ground (arith, inv.sound j);
  }

  abbrev Joined : Result ℕ → BarrierMem → Type 0
  Joined = Pushed outer (address i) s.mem (from_head (items (i ∷ inv.is)))

  module _ {r : Result ℕ} (m : BarrierMem) (put : Joined r m) where
    same_node : (j : ℕ) → mem j (i ∷ inv.is) ≡ false → m.nodes (address j) ≡ s.mem.nodes (address j)
    same_node j out = put.same (address j) (has-items j (i ∷ inv.is) ∙ out)

    joined-Inv :
        length inv.is + 1 < n → Inv n outer (record s { mem = m; place = update s.place i parked })
    joined-Inv room =
        let quiet : s.flags i ≡ false = inv.quiet i at in
        record {
          is = i ∷ inv.is;
          is_list = put.is_list;
          asleep = λ j. ground (arith, inv.asleep j);
          counted = omega (
            arith,
            inv.counted,
            total-change n (λ j. one_if (is_asleep s j))
                (λ j. one_if (asleep_at (update s.place i parked j) (s.flags j))) i lt
                (λ l ne. ground arith),
            now_asleep,
            was_awake,
          );
          short = omega arith;
          fresh = λ j e. ground (arith, inv.fresh j, inv.asleep j, same_node j);
          quiet = λ j e. ground (arith, inv.quiet j);
          free_node = λ j e. ground (arith, inv.free_node j, inv.asleep j, same_node j);
          one_leads = λ j. ground (arith, inv.one_leads j);
          beyond = λ j h. ground (arith, inv.beyond j);
          in_round = λ j lt'. ground (arith, inv.in_round j);
          within = λ j. ground (arith, inv.within j);
          sound = λ j. ground (arith, inv.sound j);
        }
      where
        now_asleep : one_if (asleep_at (update s.place i parked i) (s.flags i)) ≡ 1
        now_asleep = ground (arith, inv.quiet i)

        was_awake : one_if (is_asleep s i) ≡ 0
        was_awake = ground arith

  queued-Inv :
      (r : Result ℕ) (run : Run (List ℕ) ℕ (Unit {0}))
      → Returns (λ _ m. Joined r m) run
      → length inv.is + 1 < n
      → Inv n outer (queued i s run)
  queued-Inv r (ok _ m) put room = joined-Inv m put room
  queued-Inv r fault put room = absurd put
  queued-Inv r out_of_fuel put room = absurd put

  out : mem i inv.is ≡ false
  out = ground (arith, inv.asleep i)

  push-Joined :
      n < usize_mod
      → Returns
          (λ _ m. Joined (success (suc (length (from_head (items inv.is))))) m)
          (and_then (Defs.push_head outer (address i) (s.mem)) (λ r. expect r))
  push-Joined fits =
      Returns.bind Joined (λ _. Joined (success (suc (length (from_head (items inv.is))))))
        (Defs.push_head outer (address i) (s.mem)) _
        (push_head-on outer (address i) i s.mem (omega arith) (inv.fresh i at)
          (from_head (items inv.is)) inv.is_list
          (omega (arith, inv.short, length-from_head (items inv.is), length-items inv.is)))
        λ r m put. rw put.result (subst (λ q. Joined q m) put.result put)

  pub arrive-Inv : n < usize_mod → Inv n outer (arrive n outer i s)
  unfolding arrive
  arrive-Inv fits = elim (Bool-cases (s.mem.inner.count == n - 1)) [
    | inl last ↦ rw last (leads-Inv (ground (arith, count-length)))
    | inr more ↦ rw more (
        queued-Inv _ (and_then (Defs.push_head outer (address i) (s.mem)) (λ r. expect r))
          (push-Joined fits) (ground (arith, count-length, inv.short)))
  ]
