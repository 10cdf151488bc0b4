-- ===== src/Handover/Progress.antt =====
-- The two threads of `it_works_threaded` are never stuck, over any lock with the laws of Lively.
use colock.Base.{
  subst, suc, zero, ℕ, ◌≡◌, ◌≢◌, ◌⊎◌, refl, sym, Bool, true, false, not, some, List, arith, of_some,
  ◌==◌, Bool-cases, inl, inr, ap, ◌∙◌,
}
use colock.Counter.Exclusive.{run}
use colock.Handover.{
  Where, resting, entering, leaving, owning, WatchedLock, Stage, starting, taking, first_wait,
  watching, asserting, releasing, last_wait, finished, failed, Hand, Go, holder_works, holder_goes,
  tester_works, tester_goes, both_meet, begin, works, holder_met, tester_met, hand_step, hand_steps,
  holder_next, tester_next,
}
use colock.Handover.Laws.{Watched, Lively, enters, leaves, is_busy}
use colock.Handover.Handed.{
  is_late, late_tester, is_watching, is_asserting, HolderAt, TesterAt, Handed, watcher_owns,
  Handed-begin,
}
use colock.Handover.Paired.{may_be, left_fits, is_awaited, Paired, Paired-begin}
use colock.Handover.Steps.{Both, Both-steps}

-- A step that is more than another look at an empty queue.
abbrev pub is_useful : Go → Stage → Bool → Bool
is_useful holder_goes watching has = has
is_useful g p has = true

abbrev pub CanMove : {S : Type 0} → WatchedLock S → Hand S → Type 0
CanMove lock h =
    (g : Go) × (is_useful g h.holder (lock.has_waiter h.sys) ≡ true)
    × (h' : Hand _) × (hand_step lock g h ≡ some h')

IsDone : {S : Type 0} → Hand S → Type 0
IsDone h = (h.holder ≡ finished) × (h.tester ≡ finished)

module _ {S : Type 0} {lock : WatchedLock S} {IsGood : S → Type 0} (w : Watched lock IsGood)
    (l : Lively lock IsGood) {h : Hand S} (inv : Handed lock IsGood h) (pair : Paired lock h) where
  holder_can :
      (p : Stage) (h' : Hand S)
      → h.holder ≡ p
      → is_useful holder_goes p (lock.has_waiter h.sys) ≡ true
      → holder_next lock p h ≡ some h'
      → CanMove lock h
  unfolding hand_step
  holder_can p h' at useful e = (
    holder_goes,
    subst (λ q. is_useful holder_goes q (lock.has_waiter h.sys) ≡ true) (sym at) useful,
    h',
    subst (λ q. holder_next lock q h ≡ some h') (sym at) e,
  )

  tester_can :
      (q : Stage) (h' : Hand S) → h.tester ≡ q → tester_next lock q h ≡ some h' → CanMove lock h
  unfolding hand_step
  tester_can q h' at e =
      (tester_goes, refl, h', subst (λ p. tester_next lock p h ≡ some h') (sym at) e)

  -- Who is in a call stands where it works on it.
  holder_in_call :
      (p : Stage) (v : Where) (s : S)
      → HolderAt p v
      → is_busy v ≡ true
      → works lock 0 p s ≡ lock.step 0 run s
  unfolding works
  holder_in_call taking v s at busy = refl
  holder_in_call releasing v s at busy = refl
  holder_in_call p v s at busy = ground arith

  tester_in_call :
      (q : Stage) (v : Where) (s : S)
      → TesterAt q v
      → is_busy v ≡ true
      → works lock 1 q s ≡ lock.step 1 run s
  unfolding works
  tester_in_call taking v s at busy = refl
  tester_in_call releasing v s at busy = refl
  tester_in_call q v s at busy = ground arith

  call_moves :
      (j : ℕ) (t : S)
      → is_busy (lock.place h.sys j) ≡ true
      → lock.step j run h.sys ≡ some t
      → CanMove lock h
  unfolding hand_step
  call_moves zero t busy e = (
    holder_works,
    refl,
    record h { sys = t },
    rw (holder_in_call h.holder (lock.place h.sys 0) h.sys inv.holder_stands busy, e) refl,
  )
  call_moves (suc zero) t busy e = (
    tester_works,
    refl,
    record h { sys = t },
    rw (tester_in_call h.tester (lock.place h.sys 1) h.sys inv.tester_stands busy, e) refl,
  )
  call_moves (suc (suc j)) t busy e = cc (ap is_busy (inv.away (suc (suc j)) (omega arith)), busy)

  -- A tester that has the lock gives it back.
  tester_owner : lock.place h.sys 1 ≡ owning → CanMove lock h
  unfolding tester_next
  tester_owner owns =
      let (t, e) = l.can_unlock 1 h.sys inv.good owns in
      tester_can taking (record h { sys = t; tester = releasing })
        (at_taking h.tester (subst (TesterAt h.tester) owns inv.tester_stands)
          (subst (λ v. may_be h.tester v ≡ true) owns pair.tester_may))
        (rw (owns, e) refl)
    where
      at_taking : (q : Stage) → TesterAt q owning → may_be q owning ≡ true → q ≡ taking
      at_taking taking at may = refl
      at_taking q at may = ground arith

  -- A holder in a call can go on, or the tester is the owner and can.
  holder_calls : is_busy (lock.place h.sys 0) ≡ true → CanMove lock h
  holder_calls busy = elim (l.someone h.sys inv.good 0 busy) [
    | inl (j, busy', t, e) ↦ call_moves j t busy' e
    | inr ((j, owns), has) ↦ by_owner j owns
  ]
    where
      by_owner : (j : ℕ) → lock.place h.sys j ≡ owning → CanMove lock h
      by_owner zero owns = cc (ap is_busy owns, busy)
      by_owner (suc zero) owns = tester_owner owns
      by_owner (suc (suc j)) owns = cc (owns, inv.away (suc (suc j)) (omega arith))

  -- A tester in a call can go on, or waits for the holder.
  tester_calls :
      is_busy (lock.place h.sys 1) ≡ true
      → CanMove lock h ⊎ ((lock.place h.sys 0 ≡ owning) × (lock.has_waiter h.sys ≡ true))
  tester_calls busy = elim (l.someone h.sys inv.good 1 busy) [
    | inl (j, busy', t, e) ↦ inl (call_moves j t busy' e)
    | inr ((j, owns), has) ↦ by_owner j owns has
  ]
    where
      by_owner :
          (j : ℕ)
          → lock.place h.sys j ≡ owning
          → lock.has_waiter h.sys ≡ true
          → CanMove lock h ⊎ ((lock.place h.sys 0 ≡ owning) × (lock.has_waiter h.sys ≡ true))
      by_owner zero owns has = inr (owns, has)
      by_owner (suc zero) owns has = cc (ap is_busy owns, busy)
      by_owner (suc (suc j)) owns has = cc (owns, inv.away (suc (suc j)) (omega arith))

  -- A tester between the two waits goes on, comes to the second, or waits for the holder.
  tester_late :
      (q : Stage) (v : Where)
      → h.tester ≡ q
      → lock.place h.sys 1 ≡ v
      → may_be q v ≡ true
      → late_tester q ≡ true
      → q ≢ watching
      → q ≢ asserting
      → CanMove lock h
        ⊎ (q ≡ last_wait)
        ⊎ ((lock.place h.sys 0 ≡ owning) × (lock.has_waiter h.sys ≡ true))
  unfolding tester_next
  tester_late taking owning at here may late nw na = inl (tester_owner here)
  tester_late taking entering at here may late nw na = elim (tester_calls (ap is_busy here)) [
    | inl moves ↦ inl moves
    | inr waits ↦ inr (inr waits)
  ]
  tester_late taking resting at here may late nw na = cc
  tester_late taking leaving at here may late nw na = cc
  tester_late releasing resting at here may late nw na =
      inl (tester_can releasing (record h { tester = last_wait }) at (rw here refl))
  tester_late releasing leaving at here may late nw na = elim (tester_calls (ap is_busy here)) [
    | inl moves ↦ inl moves
    | inr waits ↦ inr (inr waits)
  ]
  tester_late releasing owning at here may late nw na = cc
  tester_late releasing entering at here may late nw na = cc
  tester_late last_wait v at here may late nw na = inr (inl refl)
  tester_late watching v at here may late nw na = absurd (nw refl)
  tester_late asserting v at here may late nw na = absurd (na refl)
  tester_late q v at here may late nw na = cc

  -- The tester before its first wait comes to it, unless all is over.
  tester_early :
      (q : Stage)
      → h.tester ≡ q
      → late_tester q ≡ false
      → (CanMove lock h) ⊎ (q ≡ first_wait) ⊎ (q ≡ finished)
  unfolding tester_next
  tester_early starting at early = elim (Bool-cases (h.tester_left == 0)) [
    | inl over ↦ inl (tester_can starting (record h { tester = finished }) at (rw over refl))
    | inr more ↦ inl (tester_can starting (record h { tester = first_wait }) at (rw more refl))
  ]
  tester_early first_wait at early = inr (inl refl)
  tester_early finished at early = inr (inr refl)
  tester_early failed at early =
      absurd (subst (λ q. TesterAt q (lock.place h.sys 1)) at inv.tester_stands)
  tester_early q at early = cc

  meets :
      (p q : Stage) (h' : Hand S)
      → h.holder ≡ p
      → h.tester ≡ q
      → tester_met lock q (holder_met lock p h) ≡ some h'
      → CanMove lock h
  unfolding hand_step
  meets p q h' at here e = (
    both_meet,
    refl,
    h',
    subst (λ p'. tester_met lock h.tester (holder_met lock p' h) ≡ some h') (sym at)
        (subst (λ q'. tester_met lock q' (holder_met lock p h) ≡ some h') (sym here) e),
  )

  same_zero : (h.holder_left == 0) ≡ (h.tester_left == 0)
  same_zero = ap (λ k. k == 0) pair.lefts

  holder_fits_at : (p : Stage) → h.holder ≡ p → left_fits p (h.holder_left == 0) ≡ true
  holder_fits_at p at = subst (λ q. left_fits q (h.holder_left == 0) ≡ true) at pair.holder_fits

  tester_fits_at : (q : Stage) → h.tester ≡ q → left_fits q (h.holder_left == 0) ≡ true
  tester_fits_at q at =
      ap (left_fits q) same_zero
      ∙ subst (λ r. left_fits r (h.tester_left == 0) ≡ true) at pair.tester_fits

  -- Neither is at its end while the other has an iteration to go.
  not_over : (z : Bool) → not z ≡ true → z ≡ true → ⊥
  not_over true a b = cc
  not_over false a b = cc

  holder_stands_at : (p : Stage) → h.holder ≡ p → HolderAt p (lock.place h.sys 0)
  holder_stands_at p at = subst (λ q. HolderAt q (lock.place h.sys 0)) at inv.holder_stands

  tester_stands_at : (q : Stage) → h.tester ≡ q → TesterAt q (lock.place h.sys 1)
  tester_stands_at q at = subst (λ r. TesterAt r (lock.place h.sys 1)) at inv.tester_stands

  level_at : (p : Stage) → h.holder ≡ p → late_tester h.tester ≡ is_late p
  level_at p at = sym (subst (λ q. is_late q ≡ late_tester h.tester) at inv.level)

  asserter_goes : h.tester ≡ asserting → CanMove lock h
  unfolding tester_next
  asserter_goes at =
      let rests : lock.place h.sys 1 ≡ resting = tester_stands_at asserting at in
      let up : lock.is_locked h.sys ≡ true =
        w.owner_locked h.sys inv.good 0
          (watcher_owns h.holder (inv.asserted (ap is_asserting at)) inv.holder_stands) in
      let (t, e) = l.can_lock 1 h.sys inv.good rests in
      tester_can asserting (record h { sys = t; tester = taking }) at (rw (up, e) refl)

  at_asserting : (q : Stage) → is_asserting q ≡ true → q ≡ asserting
  at_asserting asserting e = refl
  at_asserting q e = ground arith

  -- A late tester, with the holder out of the way or in front of an empty queue.
  late_moves :
      late_tester h.tester ≡ true
      → ((lock.place h.sys 0 ≡ owning) × (lock.has_waiter h.sys ≡ true) → ⊥)
      → CanMove lock h ⊎ (h.tester ≡ last_wait)
  late_moves late free = elim (Bool-cases (is_asserting h.tester)) [
    | inl asserts ↦ inl (asserter_goes (at_asserting h.tester asserts))
    | inr not_so ↦
        elim (tester_late h.tester (lock.place h.sys 1) refl refl pair.tester_may late
          (λ e. tester_stands_at watching e) (λ e. cc (ap is_asserting e, not_so))) [
            | inl moves ↦ inl moves
            | inr (inl at_last) ↦ inr at_last
            | inr (inr waits) ↦ absurd (free waits)
          ]
  ]

  moves_or_over : (p : Stage) → h.holder ≡ p → CanMove lock h ⊎ IsDone h
  unfolding holder_next IsDone
  moves_or_over starting at = elim (Bool-cases (h.holder_left == 0)) [
    | inl over ↦ inl (holder_can starting (record h { holder = finished }) at refl (rw over refl))
    | inr more ↦
        let (t, e) = l.can_lock 0 h.sys inv.good (holder_stands_at starting at) in
        inl
          (holder_can starting (record h { sys = t; holder = taking }) at refl (rw (more, e) refl))
  ]
  moves_or_over taking at = inl (
      by_place (lock.place h.sys 0) refl
        (subst (λ p. may_be p (lock.place h.sys 0) ≡ true) at pair.holder_may))
    where
      by_place : (v : Where) → lock.place h.sys 0 ≡ v → enters v ≡ true → CanMove lock h
      by_place owning here in_it =
          holder_can taking (record h { holder = first_wait }) at refl (rw here refl)
      by_place entering here in_it = holder_calls (ap is_busy here)
      by_place resting here in_it = cc
      by_place leaving here in_it = cc
  moves_or_over releasing at = inl (
      by_place (lock.place h.sys 0) refl
        (subst (λ p. may_be p (lock.place h.sys 0) ≡ true) at pair.holder_may))
    where
      by_place : (v : Where) → lock.place h.sys 0 ≡ v → leaves v ≡ true → CanMove lock h
      by_place resting here in_it =
          holder_can releasing (record h { holder = last_wait }) at refl (rw here refl)
      by_place leaving here in_it = holder_calls (ap is_busy here)
      by_place owning here in_it = cc
      by_place entering here in_it = cc
  moves_or_over first_wait at = elim (tester_early h.tester refl (level_at first_wait at)) [
    | inl moves ↦ inl moves
    | inr (inl here) ↦ inl (meets first_wait first_wait _ at here refl)
    | inr (inr over) ↦ absurd (
        not_over (h.holder_left == 0) (holder_fits_at first_wait at) (tester_fits_at finished over))
  ]
  moves_or_over finished at = elim (tester_early h.tester refl (level_at finished at)) [
    | inl moves ↦ inl moves
    | inr (inl here) ↦ absurd (
        not_over (h.holder_left == 0) (tester_fits_at first_wait here) (holder_fits_at finished at))
    | inr (inr over) ↦ inr (at, over)
  ]
  moves_or_over watching at = elim (Bool-cases (lock.has_waiter h.sys)) [
    | inl has ↦
        let (t, e) = l.can_unlock 0 h.sys inv.good (holder_stands_at watching at) in
        inl
          (holder_can watching (record h { sys = t; holder = releasing }) at has (rw (has, e) refl))
    | inr none_there ↦
        elim (late_moves (level_at watching at) (λ (owns, has). cc (has, none_there))) [
          | inl moves ↦ inl moves
          | inr here ↦ cc (ap is_awaited here, pair.in_turn (ap is_watching at))
        ]
  ]
  moves_or_over last_wait at =
      elim (late_moves (level_at last_wait at)
        (λ (owns, has). cc (owns, holder_stands_at last_wait at))) [
          | inl moves ↦ inl moves
          | inr here ↦ inl (meets last_wait last_wait _ at here refl)
        ]
  moves_or_over asserting at = absurd (holder_stands_at asserting at)
  moves_or_over failed at = absurd (holder_stands_at failed at)

module _ {S : Type 0} {lock : WatchedLock S} {IsGood : S → Type 0} (w : Watched lock IsGood)
    (l : Lively lock IsGood) where
  -- Over any lock that goes on, the two threads of it_works_threaded, with any number of
  -- iterations and after any interleaving of the steps of their calls, have both come to their
  -- end, or some step can be taken that is more than another look of the holder at an empty
  -- queue. What the lock must show, besides the laws of assertions_hold: it has one owner at a
  -- time, lock ends with the lock and unlock without it, both can begin, and while a thread is in
  -- a call, some call can take a step, or a thread has the lock and another is queued.
  pub never_stuck :
      (num_iterations : ℕ) (gs : List Go) (h : Hand S)
      → hand_steps lock gs (some (begin lock num_iterations)) ≡ some h
      → CanMove lock h ⊎ ((h.holder ≡ finished) × (h.tester ≡ finished))
  unfolding IsDone
  never_stuck n gs h e =
      let (inv, pair) =
        Both-steps w l gs (some (begin lock n))
          (λ h' this. subst (Both w l) (of_some this) (Handed-begin w n, Paired-begin n)) e in
      moves_or_over w l inv pair h.holder refl
