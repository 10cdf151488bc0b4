-- ===== src/Barrier/Stress.antt =====
-- The test `stress_test_barrier_inner` of colock/src/barrier.rs: threads that meet at the barrier
-- again and again, in any order in each round.
use colock.Base.{
  ℕ, ◌+◌, ◌*◌, ◌%◌, ◌<◌, ◌≡◌, ◌≢◌, refl, sym, ap, ◌∙◌, false, some, List, [], ◌∷◌, ◌++◌, arith,
  length, map, usize_mod, append-nil, append_assoc, update, update_same,
}
use colock.Intrusive.Heap.{Ptr, null, Mem, Cmd, pure, ◌>>=◌, ◌>>◌, put_node}
use colock.Intrusive.Defs
use colock.Intrusive.Fresh.{from_head}
use colock.Intrusive.Chain.{has, IsList, Chain-update}
use colock.Intrusive.Returns
use colock.Intrusive.Returns.{Returns}
use colock.Barrier.{Arrival, leader, sleeps, wait}
use colock.Barrier.Wake.{Woken, wait-leader, wait-sleeps, Joined}
use colock.Barrier.Arrive.{last_leads, woken_by}

module _ {W : Type 0} where
  -- A round: each thread counts itself, makes a node, and waits.
  unfoldable pub meet : ℕ → Ptr → List (Ptr × W) → ℕ → Cmd (List W) W (ℕ × List Arrival)
  meet target outer [] counter = pure (counter, [])
  meet target outer ((p, w) ∷ ns) counter = do
    put_node p (Defs.new_node w)
    r ← wait target outer p
    rest ← meet target outer ns ((counter + 1) % usize_mod)
    pure (rest.0, r ∷ rest.1)

  unfoldable pub stress_test_barrier_inner :
      ℕ → Ptr → List (List (Ptr × W)) → ℕ → Cmd (List W) W (ℕ × List (List Arrival))
  stress_test_barrier_inner target outer [] counter = pure (counter, [])
  stress_test_barrier_inner target outer (ns ∷ rounds) counter = do
    met ← meet target outer ns counter
    rest ← stress_test_barrier_inner target outer rounds (met.0)
    pure (rest.0, met.1 ∷ rest.1)

  -- Threads with nodes of their own, none of which waits.
  abbrev pub Comers : List (Ptr × W) → List (Ptr × W) → Type 0
  Comers zs [] = Unit
  Comers zs ((p, w) ∷ ns) = (p ≢ null) × (has p (from_head zs) ≡ false) × Comers ((p, w) ∷ zs) ns

  -- In each round `n` threads meet.
  abbrev pub AllMeet : ℕ → List (List (Ptr × W)) → Type 0
  AllMeet n [] = Unit
  AllMeet n (ns ∷ rounds) = (length ns ≡ n) × Comers [] ns × AllMeet n rounds

  -- Who is woken in all rounds.
  abbrev pub woken_in : List (List (Ptr × W)) → List W
  woken_in [] = []
  woken_in (ns ∷ rounds) = woken_by ns [] ++ woken_in rounds

  module _ (outer target : Ptr) (fits : target < usize_mod) where
    pub record Met (ns zs : List (Ptr × W)) (counter : ℕ) (m : Mem (List W) W)
        (r : ℕ × List Arrival) (m' : Mem (List W) W) : Type 0 where
      pub counted : r.0 ≡ (counter + length ns) % usize_mod
      pub results : r.1 ≡ last_leads (length ns)
      pub is_list : IsList outer m' []
      pub env : m'.env ≡ m.env ++ woken_by ns zs

    abbrev pub made : Ptr → W → Mem (List W) W → Mem (List W) W
    made p w m = record m { nodes = update m.nodes p (some (Defs.new_node w)) }

    pub made-IsList :
        (p : Ptr) (w : W) (zs : List (Ptr × W)) (m : Mem (List W) W)
        → IsList outer m (from_head zs)
        → has p (from_head zs) ≡ false
        → IsList outer (made p w m) (from_head zs)
    made-IsList p w zs m is out = record {
      inner = is.inner;
      chain = Chain-update outer m.nodes null (from_head zs) null p _ is.chain out;
    }

    pub meet-Met :
        (ns zs : List (Ptr × W)) (counter : ℕ) (m : Mem (List W) W)
        → IsList outer m (from_head zs)
        → Comers zs ns
        → target ≡ length zs + length ns
        → 0 < length ns
        → Returns (Met ns zs counter m) (meet target outer ns counter m)
    unfolding meet
    meet-Met [] zs counter m is come full some_left = absurd (omega arith)
    meet-Met ((p, w) ∷ []) zs counter m is come full some_left =
        Returns.bind (λ r m'. (r ≡ leader) × Woken outer zs (made p w m) m')
          (Met ((p, w) ∷ []) zs counter m) (wait target outer p (made p w m)) _
          (wait-leader outer target p zs (made p w m) (made-IsList p w zs m is come.1)
            (omega arith))
          λ r m' (lead, done). record {
            counted = refl;
            results = ap (λ a. a ∷ []) lead;
            is_list = done.is_list;
            env = done.env;
          }
    meet-Met ((p, w) ∷ (p', w') ∷ ns) zs counter m is come full some_left =
        let rest : List (Ptr × W) = (p', w') ∷ ns in
        let is' = made-IsList p w zs m is come.1 in
        let new : (made p w m).nodes p ≡ some (Defs.new_node w) =
          update_same m.nodes p (some (Defs.new_node w)) in
        Returns.bind
          (λ r m'.
            (r ≡ sleeps)
            × Joined outer target p zs (made p w m) is' w (omega arith) (omega arith) come.0 new
                (omega arith) m')
          (Met ((p, w) ∷ rest) zs counter m) (wait target outer p (made p w m)) _
          (wait-sleeps outer target p zs (made p w m) is' w (omega arith) (omega arith) come.0 new
            (omega arith))
          λ r m' (sleep, put).
            Returns.bind (Met rest ((p, w) ∷ zs) ((counter + 1) % usize_mod) m')
              (Met ((p, w) ∷ rest) zs counter m)
              (meet target outer rest ((counter + 1) % usize_mod) m') _
              (meet-Met ((p', w') ∷ ns) ((p, w) ∷ zs) ((counter + 1) % usize_mod) m' put.is_list
                come.2 (omega arith) (omega arith))
              λ got m3 done. record {
                counted = omega (arith, done.counted);
                results = cc (sleep, done.results);
                is_list = done.is_list;
                env = done.env ∙ ap (λ e. e ++ woken_by rest ((p, w) ∷ zs)) put.env;
              }

    module _ (some_meet : 0 < target) where
      pub record Stressed (rounds : List (List (Ptr × W))) (counter : ℕ) (m : Mem (List W) W)
          (r : ℕ × List (List Arrival)) (m' : Mem (List W) W) : Type 0 where
        pub counted : r.0 ≡ (counter + target * length rounds) % usize_mod
        pub results : r.1 ≡ map (λ _. last_leads target) rounds
        pub is_list : IsList outer m' []
        pub env : m'.env ≡ m.env ++ woken_in rounds

      -- From an empty barrier with a positive target below 2 ^ 64, when in each of any number of
      -- rounds as many threads as the target come with distinct nodes, in any order, all rounds
      -- end: in each, all sleep but the last, which leads and wakes the others, the latest first;
      -- the counter has grown by the target for each round, modulo 2 ^ 64; and the barrier is
      -- empty.
      pub stress_test_barrier_inner-Stressed :
          (rounds : List (List (Ptr × W))) (counter : ℕ) (m : Mem (List W) W)
          → IsList outer m []
          → AllMeet target rounds
          → counter < usize_mod
          → Returns
              (Stressed rounds counter m)
              (stress_test_barrier_inner target outer rounds counter m)
      unfolding stress_test_barrier_inner
      stress_test_barrier_inner-Stressed [] counter m is meets small = record {
        counted = omega arith;
        results = refl;
        is_list = is;
        env = sym (append-nil m.env);
      }
      stress_test_barrier_inner-Stressed (ns ∷ rounds) counter m is meets small =
          Returns.bind (Met ns [] counter m) (Stressed (ns ∷ rounds) counter m)
            (meet target outer ns counter m) _
            (meet-Met ns [] counter m is (meets.1) (omega (arith, meets.0))
              (omega (arith, meets.0)))
            λ met m' done.
              Returns.bind (Stressed rounds met.0 m') (Stressed (ns ∷ rounds) counter m)
                (stress_test_barrier_inner target outer rounds (met.0) m') _
                (stress_test_barrier_inner-Stressed rounds (met.0) m' done.is_list (meets.2)
                  (omega (arith, done.counted)))
                λ rest m3 more. record {
                  counted = omega (arith, done.counted, more.counted, meets.0);
                  results = cc (done.results, more.results, meets.0);
                  is_list = more.is_list;
                  env =
                      more.env
                      ∙ ap (λ e. e ++ woken_in rounds) done.env
                      ∙ append_assoc m.env (woken_by ns []) (woken_in rounds);
                }
