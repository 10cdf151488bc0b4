-- ===== src/Barrier/Threads/Schedule.antt =====
-- Runs of the threads at a barrier by evaluation: which of them goes on next.
use colock.Base.{
  ℕ, ◌≡◌, refl, Option, none, some, List, [], ◌∷◌, arith, ltb, if◌then◌else◌, Bool-cases, inl, inr,
}
use colock.Intrusive.Heap.{Ptr}
use colock.Barrier.Threads.{Threads, step, Reach, later}

module _ (n : ℕ) (outer : Ptr) where
  unfoldable pub next_state : ℕ → Threads → Option Threads
  next_state i s = if ltb i n then step n outer i (s.place i) s else none

  abbrev pub all_steps : List ℕ → Option Threads → Option Threads
  all_steps _ none = none
  all_steps [] (some s) = some s
  all_steps (i ∷ is) (some s) = all_steps is (next_state i s)

  next_state-Reach :
      (i : ℕ) (s t : Threads) → Reach n outer s → next_state i s ≡ some t → Reach n outer t
  unfolding next_state
  next_state-Reach i s t r e = elim (Bool-cases (ltb i n)) [
    | inl lt ↦ later i r (ground arith) (rw lt at e)
    | inr ge ↦ cc (rw ge at e)
  ]

  pub all_steps-Reach :
      (is : List ℕ) (o : Option Threads) (t : Threads)
      → ((s : Threads) → o ≡ some s → Reach n outer s)
      → all_steps is o ≡ some t
      → Reach n outer t
  all_steps-Reach is none t r e = cc
  all_steps-Reach [] (some s) t r e = r t e
  all_steps-Reach (i ∷ is) (some s) t r e =
      all_steps-Reach is (next_state i s) t (λ s' h. next_state-Reach i s s' (r s refl) h) e
