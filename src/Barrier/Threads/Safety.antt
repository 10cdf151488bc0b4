-- ===== src/Barrier/Threads/Safety.antt =====
-- What every state of threads at a barrier keeps: the rounds stay together, and somebody can go on.
use colock.Base.{
  ℕ, ◌<◌, ◌≤◌, ◌≡◌, ◌≢◌, refl, true, false, Option, none, some, arith, subst, usize_mod, of_some,
  Bool-cases, inl, inr, ltb, ◌∙◌, ap, eq_self, ◌⊎◌,
}
use colock.Base.Total.{total-same, total-constant, fails_below}
use colock.Intrusive.Heap.{Ptr}
use colock.Barrier.Threads.{
  Place, outside, ready, leading, parked, faulted, Threads, step, Reach, start, later, arrive, lead,
  leave,
}
use colock.Barrier.Threads.Inv.{one_if, is_asleep, is_leading, holds, is_held, Inv, Inv-init}
use colock.Barrier.Threads.Steps.{call-Inv, leave-Inv}
use colock.Barrier.Threads.Arrive.{arrive-Inv}
use colock.Barrier.Threads.Lead.{lead-Inv}

abbrev pub CanStep : ℕ → Ptr → Threads → ℕ → Type 0
CanStep n outer s j = (t : Threads) × (step n outer j (s.place j) s ≡ some t)

at_lead : (p : Place) → is_leading p ≡ true → p ≡ leading
at_lead leading e = refl
at_lead p e = ground arith

module _ {n : ℕ} {outer : Ptr} (pos : 0 < n) (fits : n < usize_mod) where
  pub step-Inv :
      {s t : Threads} (i : ℕ) (p : Place)
      → Inv n outer s
      → i < n
      → s.place i ≡ p
      → step n outer i p s ≡ some t
      → Inv n outer t
  unfolding step
  step-Inv i outside inv lt at e = subst (Inv n outer) (of_some e) (call-Inv n outer i inv lt at)
  step-Inv {s} {t} i ready inv lt at e = by_lock s.locked_by refl e
    where
      by_lock :
          (o : Option ℕ)
          → s.locked_by ≡ o
          → elim o [ none ↦ some (arrive n outer i s) | some _ ↦ none ] ≡ some t
          → Inv n outer t
      by_lock none free e' =
          subst (Inv n outer) (of_some e') (arrive-Inv n outer i inv lt at free fits)
      by_lock (some l) taken e' = cc
  step-Inv i leading inv lt at e = subst (Inv n outer) (of_some e) (lead-Inv n outer i inv lt at)
  step-Inv {s} i parked inv lt at e = elim (Bool-cases (s.flags i)) [
    | inl up ↦ subst (Inv n outer) (of_some (rw up at e)) (leave-Inv n outer i inv lt at up)
    | inr down ↦ cc (rw down at e)
  ]
  step-Inv i faulted inv lt at e = cc

  pub Reach-Inv : {s : Threads} → Reach n outer s → Inv n outer s
  Reach-Inv start = Inv-init n outer pos
  Reach-Inv (later {s} i r lt e) = step-Inv i (s.place i) (Reach-Inv r) lt refl e

  -- Who holds the lock is in the leader's loop.
  holder_leads :
      {s : Threads} → Inv n outer s → (l : ℕ) → s.locked_by ≡ some l → s.place l ≡ leading
  holder_leads {s} inv l taken =
      at_lead (s.place l) (inv.one_leads l ∙ ap (holds l) taken ∙ eq_self l)

  held_by_leader :
      {s : Threads} → Inv n outer s → ((k : ℕ) → s.place k ≡ outside) → is_held s.locked_by ≡ false
  held_by_leader {s} inv away = by_lock s.locked_by refl
    where
      by_lock : (o : Option ℕ) → s.locked_by ≡ o → is_held o ≡ false
      by_lock none e = refl
      by_lock (some l) e = cc (holder_leads inv l e, away l)

  -- In every state that n threads come to at a barrier with target n, positive and below 2 ^ 64,
  -- by any number of calls of wait in any order of their steps, with the nodes of their waits on
  -- the heap, no thread has failed the expect of lock_inner or dereferenced a null or dropped
  -- node; no thread has returned from more waits than any other has begun; and when no thread is
  -- in a wait, each has returned from as many waits as there were leaders.
  pub barrier_rounds :
      {s : Threads}
      → Reach n outer s
      → (i j : ℕ) → i < n
      → j < n
      → (s.place i ≢ faulted)
        × (s.done i ≤ s.began j)
        × (((k : ℕ) → s.place k ≡ outside) → s.done i ≡ s.leaders)
  barrier_rounds {s} r i j lt lt' =
      let inv = Reach-Inv r in
      (
        inv.sound i,
        ground (arith, inv.in_round i lt, inv.in_round j lt', inv.within i),
        λ away. ground (arith, inv.in_round i lt, inv.within i, away i, held_by_leader inv away),
      )

  module _ {s : Threads} (inv : Inv n outer s) where
    goes_as :
        (j : ℕ) (p : Place) (t : Threads)
        → s.place j ≡ p
        → step n outer j p s ≡ some t
        → CanStep n outer s j
    goes_as j p t at e = (t, rw at e)

    awake_goes :
        (j : ℕ) (p : Place)
        → s.place j ≡ p
        → s.locked_by ≡ none
        → p ≢ outside
        → is_asleep s j ≡ false
        → CanStep n outer s j
    unfolding step
    awake_goes j outside at free inside awake = absurd (inside refl)
    awake_goes j ready at free inside awake = goes_as j ready (arrive n outer j s) at (rw free refl)
    awake_goes j leading at free inside awake = goes_as j leading (lead outer j s) at refl
    awake_goes j parked at free inside awake =
        let woken_up : s.flags j ≡ true = ground arith in
        goes_as j parked (leave outer j s) at (rw woken_up refl)
    awake_goes j faulted at free inside awake = absurd (inv.sound j at)

    leader_goes : (l : ℕ) → s.locked_by ≡ some l → (l < n) × CanStep n outer s l
    unfolding step
    leader_goes l taken =
        let here = holder_leads inv l taken in
        (below here (Bool-cases (ltb l n)), goes_as l leading (lead outer l s) here refl)
      where
        below : s.place l ≡ leading → (ltb l n ≡ true) ⊎ (ltb l n ≡ false) → l < n
        below here (inl lt) = ground arith
        below here (inr ge) = cc (here, inv.beyond l (ground arith))

    not_all_asleep : ((j : ℕ) → j < n → is_asleep s j ≡ true) → ⊥
    not_all_asleep all = omega (
      arith,
      inv.short,
      inv.counted,
      total-constant n 1,
      total-same n (λ j. one_if (is_asleep s j)) (λ _. 1) (λ j lt. ap one_if (all j lt)),
    )

  -- In every state that n threads come to by calls of wait at a barrier with target n, positive
  -- and below 2 ^ 64, if all of the n threads are in a wait, some thread can take a step.
  pub barrier_progress :
      {s : Threads}
      → Reach n outer s
      → ((i : ℕ) → i < n → s.place i ≢ outside)
      → (j : ℕ) × (j < n) × CanStep n outer s j
  barrier_progress {s} r inside = by_lock s.locked_by refl
    where
      by_lock : (o : Option ℕ) → s.locked_by ≡ o → (j : ℕ) × (j < n) × CanStep n outer s j
      by_lock (some l) taken =
          let (below, goes) = leader_goes (Reach-Inv r) l taken in (l, below, goes)
      by_lock none free = elim (fails_below n (is_asleep s)) [
        | inl (j, lt, awake) ↦
            (j, lt, awake_goes (Reach-Inv r) j (s.place j) refl free (inside j lt) awake)
        | inr all ↦ absurd (not_all_asleep (Reach-Inv r) all)
      ]
