-- ===== src/Barrier/Wake.antt =====
-- The last to arrive wakes all that wait.
use colock.Base.{
  ℕ, zero, suc, ◌+◌, ◌-◌, ◌<◌, ◌≡◌, ◌≢◌, refl, sym, ap, ◌∙◌, true, false, some, List, [], ◌∷◌, ◌++◌,
  append-nil, append_assoc, arith, length, ◌==◌, ne→eq_false, usize_mod, Bool-cases, inl, inr,
  eq_of_test,
}
use colock.Intrusive.Heap.{Ptr, null, Node, Mem, success}
use colock.Intrusive.Defs
use colock.Intrusive.Fresh.{from_head, length-from_head}
use colock.Intrusive.Chain.{has, IsList}
use colock.Intrusive.Push.{Pushed, push_head-on}
use colock.Intrusive.Pop.{Popped, pop_head-Popped, pop_head-none}
use colock.Intrusive.Returns
use colock.Intrusive.Returns.{Returns}
use colock.Barrier.{arrival, leader, sleeps, wake_all, lock_inner, wait}

module _ {W : Type 0} where
  -- The wakers of those that wait, from the head.
  abbrev pub wakers : List (Ptr × W) → List W
  wakers [] = []
  wakers ((p, w) ∷ zs) = w ∷ wakers zs

  module _ (outer : Ptr) where
    -- Nobody waits any more, and all of `zs` were woken, in order; other nodes are as they were.
    pub record Woken (zs : List (Ptr × W)) (m m' : Mem (List W) W) : Type 0 where
      pub is_list : IsList outer m' []
      pub env : m'.env ≡ m.env ++ wakers zs
      pub same : (p : Ptr) → has p (from_head zs) ≡ false → m'.nodes p ≡ m.nodes p
      pub off :
          (p : Ptr)
          → has p (from_head zs) ≡ true
          → (n : Node W) × (m'.nodes p ≡ some n) × (n.is_on_list ≡ false)

    wake_all-Woken :
        (k : ℕ) (zs : List (Ptr × W)) (m : Mem (List W) W)
        → IsList outer m (from_head zs)
        → length zs < k
        → Returns (λ _. Woken zs m) (wake_all k m)
    unfolding wake_all
    wake_all-Woken zero zs m is fuel = absurd (omega arith)
    wake_all-Woken (suc k) [] m is fuel = rw (pop_head-none outer m is) (record {
      is_list = is;
      env = sym (append-nil m.env);
      same = λ p out. refl;
      off = λ p i. cc;
    })
    wake_all-Woken (suc k) ((x, w) ∷ zs) m is fuel =
        Returns.bind (Popped outer x w (from_head ((x, w) ∷ zs)) (from_head zs) m)
          (λ _. Woken ((x, w) ∷ zs) m) (Defs.pop_head m) _
          (pop_head-Popped outer x w m (from_head zs) is)
          λ r m' got. rw (got.result) (
            let m'' : Mem (List W) W = record m' { env = m'.env ++ w ∷ [] } in
            Returns.mono (λ _. Woken zs m'') (λ _. Woken ((x, w) ∷ zs) m) (wake_all k m'')
              (wake_all-Woken k zs m''
                (record { inner = got.is_list.inner; chain = got.is_list.chain }) (omega arith))
              λ _ m3 rest. record {
                is_list = rest.is_list;
                env =
                    rest.env
                    ∙ append_assoc m'.env (w ∷ []) (wakers zs)
                    ∙ ap (λ e. e ++ w ∷ wakers zs) got.env;
                same = λ p out. rest.same p (ground arith) ∙ got.same p out;
                off = λ p i. elim (Bool-cases (p == x)) [
                  | inl this ↦
                      let (n, e, empty, out) = (got.emptied) in
                      let same_node = eq_of_test p x this in
                      (n, rw same_node (rest.same x (is.chain.2) ∙ e), out)
                  | inr other ↦ rest.off p (rw other at i)
                ];
              })

    module _ (target node : Ptr) (zs : List (Ptr × W)) (m : Mem (List W) W)
        (is : IsList outer m (from_head zs)) where
      pub lock_inner-full :
          target ≡ suc (length zs)
          → Returns (λ b m'. (b ≡ false) × Woken zs m m') (lock_inner target outer node m)
      unfolding lock_inner
      lock_inner-full full =
          rw (ne→eq_false target 0 (omega arith), counted)
            (Returns.bind (λ _. Woken zs m) (λ b m'. (b ≡ false) × Woken zs m m')
              (wake_all (m.inner.count + 1) m) _
              (wake_all-Woken (m.inner.count + 1) zs m is
                (ground (arith, is.inner, length-from_head zs)))
              λ _ m' done. (refl, done))
        where
          counted : (m.inner.count == target - 1) ≡ true
          counted = ground (arith, is.inner, length-from_head zs)

      -- With all others waiting, an arrival is the leader, and wakes all of them in order.
      pub wait-leader :
          target ≡ suc (length zs)
          → Returns (λ r m'. (r ≡ leader) × Woken zs m m') (wait target outer node m)
      unfolding wait
      wait-leader full = rw (ne→eq_false target 0 (omega arith)) (
          Returns.bind (λ b m'. (b ≡ false) × Woken zs m m') (λ r m'. (r ≡ leader) × Woken zs m m')
            (lock_inner target outer node m) _ (lock_inner-full full)
            λ b m' (no_sleep, done). (ap arrival no_sleep, done))

      module _ (w : W) (pos : target ≢ 0) (short : target ≢ suc (length zs)) (ne : node ≢ null)
          (e : m.nodes node ≡ some (Defs.new_node w)) (room : length zs + 1 < usize_mod) where
        abbrev pub Joined : Mem (List W) W → Type 0
        Joined = Pushed outer node m (from_head ((node, w) ∷ zs)) (success (suc (length zs)))

        pub lock_inner-short :
            Returns (λ b m'. (b ≡ true) × Joined m') (lock_inner target outer node m)
        unfolding lock_inner
        lock_inner-short =
            rw (ne→eq_false target 0 pos, uncounted)
              (Returns.bind (Pushed outer node m (from_head ((node, w) ∷ zs)))
                (λ b m'. (b ≡ true) × Joined m') (Defs.push_head outer node m) _
                (push_head-on outer node w m ne e (from_head zs) is
                  (ground (arith, length-from_head zs)))
                λ r m' put.
                  let size = put.result ∙ ap (λ n. success (suc n)) (length-from_head zs) in
                  rw size (
                    refl,
                    record {
                      result = ap (λ n. success (suc n)) (sym (length-from_head zs));
                      is_list = put.is_list;
                      env = put.env;
                      same = put.same;
                    },
                  ))
          where
            uncounted : (m.inner.count == target - 1) ≡ false
            uncounted = ground (arith, is.inner, length-from_head zs)

        -- With fewer others waiting than the target less one, an arrival joins them and sleeps.
        pub wait-sleeps : Returns (λ r m'. (r ≡ sleeps) × Joined m') (wait target outer node m)
        unfolding wait
        wait-sleeps = rw (ne→eq_false target 0 pos) (
            Returns.bind (λ b m'. (b ≡ true) × Joined m') (λ r m'. (r ≡ sleeps) × Joined m')
              (lock_inner target outer node m) _ lock_inner-short
              λ b m' (sleep, put). (ap arrival sleep, put))
