-- ===== src/Intrusive/Concurrent/PopAll.antt =====
-- `pop_all`: every node goes, from the tail, and each call of the closure sees how many are left.
use colock.Base.{
  ℕ, zero, suc, ◌+◌, ◌<◌, ◌≡◌, refl, ap, ◌∙◌, false, some, List, [], ◌∷◌, ◌++◌, arith, length,
  length-append,
}
use colock.Intrusive.Heap.{Ptr, Mem}
use colock.Intrusive.Defs
use colock.Intrusive.Chain.{Cells, has, not-has-left, IsList}
use colock.Intrusive.Pop.{Popped, pop_tail-Popped, pop_tail-none}
use colock.Intrusive.Concurrent.{pop_all_loop, pop_all}
use colock.Intrusive.Returns
use colock.Intrusive.Returns.{Returns}

module _ {D : Type 0} where
  -- The cells of a list that is given from its tail.
  abbrev pub from_tail : List (Ptr × D) → Cells D
  from_tail [] = []
  from_tail ((p, d) ∷ zs) = from_tail zs ++ (p, some d) ∷ []

  pub length-from_tail : (zs : List (Ptr × D)) → length (from_tail zs) ≡ length zs
  length-from_tail [] = refl
  length-from_tail ((p, d) ∷ zs) =
      omega (arith, length-append (from_tail zs) ((p, some d) ∷ []), length-from_tail zs)

  -- What the closure is called on: each item, from the tail, with the number of those behind it.
  abbrev pub drain : {E : Type 0} → (D → ℕ → E → E) → List (Ptr × D) → E → E
  drain critical [] e = e
  drain critical ((p, d) ∷ zs) e = drain critical zs (critical d (length zs) e)

module _ {E D : Type 0} (outer : Ptr) (critical : D → ℕ → E → E) where
  -- The list is empty, the closure has run on all of `zs`, and other nodes are as they were.
  pub record Drained (on_empty : E → E) (zs : List (Ptr × D)) (m m' : Mem E D) : Type 0 where
    pub is_list : IsList outer m' []
    pub env : m'.env ≡ on_empty (drain critical zs m.env)
    pub same : (p : Ptr) → has p (from_tail zs) ≡ false → m'.nodes p ≡ m.nodes p

  pop_all_loop-Drained :
      (k : ℕ) (zs : List (Ptr × D)) (m : Mem E D)
      → IsList outer m (from_tail zs)
      → length zs < k
      → Returns (λ _. Drained (λ e. e) zs m) (pop_all_loop critical k m)
  unfolding pop_all_loop
  pop_all_loop-Drained zero zs m is fuel = absurd (omega arith)
  pop_all_loop-Drained (suc k) [] m is fuel =
      rw (pop_tail-none outer m is) (record { is_list = is; env = refl; same = λ p out. refl })
  pop_all_loop-Drained (suc k) ((x, d) ∷ zs) m is fuel =
      Returns.bind (Popped outer x d (from_tail ((x, d) ∷ zs)) (from_tail zs) m)
        (λ _. Drained (λ e. e) ((x, d) ∷ zs) m) (Defs.pop_tail m) _
        (pop_tail-Popped outer x d m (from_tail zs) is)
        λ r m' got. rw (got.result) (
          let e' : E = critical d m'.inner.count m'.env in
          let m'' : Mem E D = record m' { env = e' } in
          Returns.mono (λ _. Drained (λ e. e) zs m'') (λ _. Drained (λ e. e) ((x, d) ∷ zs) m)
            (pop_all_loop critical k m'')
            (pop_all_loop-Drained k zs m''
              (record { inner = got.is_list.inner; chain = got.is_list.chain }) (omega arith))
            λ _ m3 rest. record {
              is_list = rest.is_list;
              env =
                  rest.env
                  ∙ ap (λ c. drain critical zs (critical d c m'.env))
                      (ap (λ l. l.count) got.is_list.inner ∙ length-from_tail zs)
                  ∙ ap (λ e. drain critical zs (critical d (length zs) e)) got.env;
              same = λ p out.
                  rest.same p (not-has-left p (from_tail zs) ((x, some d) ∷ []) out)
                  ∙ got.same p out;
            })

  -- pop_all ends with fuel of one more than the count, runs its closure on the data of every node
  -- from tail to head with the number of nodes left, then the closure for the empty list, returns
  -- how many nodes there were, and leaves the list empty.
  pub pop_all-Drained :
      (on_empty : E → E) (zs : List (Ptr × D)) (m : Mem E D)
      → IsList outer m (from_tail zs)
      → Returns (λ n m'. (n ≡ length zs) × Drained on_empty zs m m') (pop_all critical on_empty m)
  unfolding pop_all
  pop_all-Drained on_empty zs m is =
      Returns.bind (λ _. Drained (λ e. e) zs m) (λ n m'. (n ≡ length zs) × Drained on_empty zs m m')
        (pop_all_loop critical (m.inner.count + 1) m) _
        (pop_all_loop-Drained (m.inner.count + 1) zs m is
          (ground (arith, is.inner, length-from_tail zs)))
        λ _ m' rest. (
          ground (arith, is.inner, length-from_tail zs),
          record {
            is_list = record { inner = rest.is_list.inner; chain = tt };
            env = ap on_empty rest.env;
            same = rest.same;
          },
        )
