-- ===== src/Barrier/Threads/Bound.antt =====
-- How many steps the threads in their waits can take until one of them calls `wait` again.
use colock.Base.{
  ℕ, ◌+◌, ◌*◌, ◌<◌, ◌≤◌, ◌≡◌, ◌≢◌, refl, Bool, Option, none, some, List, [], ◌∷◌, arith, ltb,
  if◌then◌else◌, subst, usize_mod, of_some, Bool-cases, inl, inr, zero, length, suc,
}
use colock.Base.Total.{total}
use colock.Intrusive.Heap.{Ptr}
use colock.Barrier.Threads.{Place, outside, ready, leading, parked, faulted, Threads, step, Reach}
use colock.Barrier.Threads.Inv.{Inv}
use colock.Barrier.Threads.Safety.{Reach-Inv}
use colock.Barrier.Threads.Weight.{weight, steps_left, step-less}
use colock.Barrier.Threads.Safety.{step-Inv}

-- The threads named go on, in that order, each in a wait that it has begun.
abbrev pub step_inside : ℕ → Ptr → ℕ → Place → Threads → Option Threads
step_inside n outer i outside s = none
step_inside n outer i p s = if ltb i n then step n outer i p s else none

abbrev pub steps_inside : ℕ → Ptr → List ℕ → Option Threads → Option Threads
steps_inside n outer _ none = none
steps_inside n outer [] (some s) = some s
steps_inside n outer (i ∷ is) (some s) =
    steps_inside n outer is (step_inside n outer i (s.place i) s)

module _ (n : ℕ) (outer : Ptr) where
  record Inside (i : ℕ) (p : Place) (s t : Threads) : Type 0 where
    below : i < n
    inside : p ≢ outside
    goes : step n outer i p s ≡ some t

  by_bound :
      (i : ℕ) (p : Place) (s t : Threads)
      → p ≢ outside
      → (if ltb i n then step n outer i p s else none) ≡ some t
      → Inside i p s t
  by_bound i p s t inside e = elim (Bool-cases (ltb i n)) [
    | inl lt ↦ record { below = ground arith; inside = inside; goes = rw lt at e }
    | inr ge ↦ cc (rw ge at e)
  ]

  step_inside-Inside :
      (i : ℕ) (p : Place) (s t : Threads) → step_inside n outer i p s ≡ some t → Inside i p s t
  step_inside-Inside i outside s t e = cc
  step_inside-Inside i ready s t e = by_bound i ready s t (λ q. cc) e
  step_inside-Inside i leading s t e = by_bound i leading s t (λ q. cc) e
  step_inside-Inside i parked s t e = by_bound i parked s t (λ q. cc) e
  step_inside-Inside i faulted s t e = by_bound i faulted s t (λ q. cc) e

  steps_left-le : (s : Threads) (k : ℕ) → total k (λ i. weight (s.place i) (s.flags i)) ≤ 3 * k
  unfolding total
  steps_left-le s zero = omega arith
  steps_left-le s (suc k) = omega (arith, steps_left-le s k, small (s.place k) (s.flags k))
    where
      small : (p : Place) (f : Bool) → weight p f ≤ 3
      small p f = ground arith

  module _ (pos : 0 < n) (fits : n < usize_mod) where
    -- With `c` steps taken.
    length-le :
        (is : List ℕ) (o : Option Threads) (c : ℕ) (t : Threads)
        → ((s : Threads) → o ≡ some s → Inv n outer s × (steps_left n s + c ≤ 3 * n))
        → steps_inside n outer is o ≡ some t
        → length is + c ≤ 3 * n
    length-le is none c t good e = cc
    length-le [] (some s) c t good e = let (inv, few) = good s refl in omega (arith, few)
    length-le (i ∷ is) (some s) c t good e =
        let (inv, few) = good s refl in
        let rest : length is + (c + 1) ≤ 3 * n =
          length-le is (step_inside n outer i (s.place i) s) (c + 1) t (stepped s inv i c few) e in
        omega (arith, rest)
      where
        stepped :
            (s : Threads)
            → Inv n outer s
            → (i c : ℕ) → steps_left n s + c ≤ 3 * n
            → (s' : Threads) → step_inside n outer i (s.place i) s ≡ some s'
            → Inv n outer s' × (steps_left n s' + (c + 1) ≤ 3 * n)
        stepped s inv i c few s' e =
            let did = step_inside-Inside i (s.place i) s s' e in
            (
              step-Inv pos fits i (s.place i) inv did.below refl did.goes,
              omega (
                arith,
                few,
                step-less n outer s s' i (s.place i) inv did.below refl did.inside did.goes,
              ),
            )

    -- From every state that n threads come to by calls of wait at a barrier with target n,
    -- positive and below 2 ^ 64, however they are scheduled, the threads in their waits take at
    -- most 3 * n steps before one of the n calls wait again.
    pub barrier_bound :
        (s t : Threads) (is : List ℕ)
        → Reach n outer s
        → steps_inside n outer is (some s) ≡ some t
        → length is ≤ 3 * n
    barrier_bound s t is r e = omega (
      arith,
      length-le is (some s) 0 t
          (λ s' same.
            subst (λ u. Inv n outer u × (steps_left n u + 0 ≤ 3 * n)) (of_some same)
              (Reach-Inv pos fits r, omega (arith, steps_left-le s n)))
          e,
    )
