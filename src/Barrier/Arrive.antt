-- ===== src/Barrier/Arrive.antt =====
-- One round of a barrier: as many threads arrive as its target says.
use colock.Base.{
  ℕ, zero, suc, ◌+◌, ◌<◌, ◌≡◌, ◌≢◌, sym, ap, ◌∙◌, false, List, [], ◌∷◌, ◌++◌, arith, length,
  usize_mod,
}
use colock.Intrusive.Heap.{Ptr, Mem, Cmd, pure, ◌>>=◌}
use colock.Intrusive.Fresh.{from_head, AllNew, AllNew-kept, new-out}
use colock.Intrusive.Chain.{has, IsList, ne_of_has}
use colock.Intrusive.Returns
use colock.Intrusive.Returns.{Returns}
use colock.Barrier.{Arrival, leader, sleeps, wait}
use colock.Barrier.Wake.{wakers, Woken, wait-leader, wait-sleeps, Joined}

-- All sleep but the last.
abbrev pub last_leads : ℕ → List Arrival
last_leads zero = []
last_leads (suc zero) = leader ∷ []
last_leads (suc (suc n)) = sleeps ∷ last_leads (suc n)

module _ {W : Type 0} where
  -- Threads with the nodes and wakers `ns` come to the barrier, one after the other.
  unfoldable pub arrive_all : ℕ → Ptr → List (Ptr × W) → Cmd (List W) W (List Arrival)
  arrive_all target outer [] = pure []
  arrive_all target outer ((p, w) ∷ ns) = do
    r ← wait target outer p
    rs ← arrive_all target outer ns
    pure (r ∷ rs)

  -- Who is woken, when `zs` wait and `ns` arrive: all but the last, the latest first.
  abbrev pub woken_by : List (Ptr × W) → List (Ptr × W) → List W
  woken_by [] zs = []
  woken_by (n ∷ []) zs = wakers zs
  woken_by (n ∷ n' ∷ ns) zs = woken_by (n' ∷ ns) (n ∷ zs)

  module _ (outer : Ptr) where
    pub record Round (target : ℕ) (ns zs : List (Ptr × W)) (m : Mem (List W) W) (rs : List Arrival)
        (m' : Mem (List W) W) : Type 0 where
      pub results : rs ≡ last_leads (length ns)
      pub is_list : IsList outer m' []
      pub env : m'.env ≡ m.env ++ woken_by ns zs

    -- From any moment of a round of the barrier, with some threads waiting and those with
    -- distinct fresh nodes still to arrive that make up the target, below 2 ^ 64, all that arrive
    -- sleep but the last, which is the leader and wakes all others; the barrier is then empty.
    pub arrive_all-Round :
        (target : ℕ) (ns zs : List (Ptr × W)) (m : Mem (List W) W)
        → IsList outer m (from_head zs)
        → AllNew m ns
        → target ≡ length zs + length ns
        → 0 < length ns
        → target < usize_mod
        → Returns (Round target ns zs m) (arrive_all target outer ns m)
    unfolding arrive_all
    arrive_all-Round target [] zs m is new full some_left fits = absurd (omega arith)
    arrive_all-Round target ((p, w) ∷ []) zs m is new full some_left fits =
        Returns.bind (λ r m'. (r ≡ leader) × Woken outer zs m m') (Round target ((p, w) ∷ []) zs m)
          (wait target outer p m) _ (wait-leader outer target p zs m is (omega arith))
          λ r m' (lead, done). record {
            results = ap (λ a. a ∷ []) lead;
            is_list = done.is_list;
            env = done.env;
          }
    arrive_all-Round target ((p, w) ∷ (p', w') ∷ ns) zs m is new full some_left fits =
        let rest : List (Ptr × W) = (p', w') ∷ ns in
        Returns.bind
          (λ r m'.
            (r ≡ sleeps)
            × Joined outer target p zs m is w (omega arith) (omega arith) new.0 new.1 (omega arith)
                m')
          (Round target ((p, w) ∷ rest) zs m) (wait target outer p m) _
          (wait-sleeps outer target p zs m is w (omega arith) (omega arith) new.0 new.1
            (omega arith))
          λ r m' (sleep, put).
            Returns.bind (Round target rest ((p, w) ∷ zs) m') (Round target ((p, w) ∷ rest) zs m)
              (arrive_all target outer rest m') _
              (arrive_all-Round target ((p', w') ∷ ns) ((p, w) ∷ zs) m' put.is_list
                (AllNew-kept m m' rest new.3 λ q i. put.same q (
                  out q (λ e. ne_of_has (from_head rest) p q new.2 i (sym e))
                    (new-out outer m (from_head zs) rest q is new.3 i)))
                (omega arith) (omega arith) fits)
              λ rs m3 done. record {
                results = cc (sleep, done.results);
                is_list = done.is_list;
                env = done.env ∙ ap (λ e. e ++ woken_by rest ((p, w) ∷ zs)) put.env;
              }
      where
        out :
            (q : Ptr)
            → q ≢ p
            → has q (from_head zs) ≡ false
            → has q (from_head ((p, w) ∷ zs)) ≡ false
        out q ne o = ground arith
