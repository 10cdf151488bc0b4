-- ===== src/Handover/Steps.antt =====
-- Runs of `it_works_threaded` keep what Handed and Paired say.
use colock.Base.{
  subst, ℕ, ◌≡◌, refl, true, Option, none, some, List, [], ◌∷◌, arith, of_some, ◌==◌, ap, ◌-◌,
}
use colock.Counter.Exclusive.{run}
use colock.Handover.{
  WatchedLock, Stage, starting, taking, first_wait, watching, asserting, releasing, last_wait,
  finished, failed, Hand, Go, holder_works, holder_goes, tester_works, tester_goes, both_meet,
  works, holder_met, tester_met, hand_step, hand_steps,
}
use colock.Handover.Laws.{Watched, Lively}
use colock.Handover.Handed.{is_late, late_tester, Handed}
use colock.Handover.Safety.{Handed-step}
use colock.Handover.Nexts.{holder_at-some, tester_at-some}
use colock.Handover.Paired.{
  may_be, left_fits, Paired, pair_holder, pair_tester, other, holder_next-Paired,
  tester_next-Paired,
}

module _ {S : Type 0} {lock : WatchedLock S} {IsGood : S → Type 0} (w : Watched lock IsGood)
    (l : Lively lock IsGood) where
  -- A step in a call.
  worked :
      (i : ℕ) (p : Stage) (s t : S)
      → IsGood s
      → may_be p (lock.place s i) ≡ true
      → works lock i p s ≡ some t
      → (lock.step i run s ≡ some t) × (may_be p (lock.place t i) ≡ true)
  unfolding works
  worked i taking s t good may e = (e, l.still_enters i s t good may e)
  worked i releasing s t good may e = (e, l.still_leaves i s t good may e)
  worked i starting s t good may e = cc
  worked i first_wait s t good may e = cc
  worked i watching s t good may e = cc
  worked i asserting s t good may e = cc
  worked i last_wait s t good may e = cc
  worked i finished s t good may e = cc
  worked i failed s t good may e = cc

  both_met-Paired :
      (p q : Stage) {h h' : Hand S}
      → Paired lock h
      → left_fits p (h.holder_left == 0) ≡ true
      → left_fits q (h.tester_left == 0) ≡ true
      → is_late p ≡ late_tester q
      → tester_met lock q (holder_met lock p h) ≡ some h'
      → Paired lock h'
  both_met-Paired first_wait first_wait {h} pair fits fits' level e =
      subst (Paired lock) (of_some e) (record {
        holder_may = refl;
        tester_may = refl;
        lefts = pair.lefts;
        holder_fits = fits;
        tester_fits = fits';
        in_turn = λ f. refl;
      })
  both_met-Paired last_wait last_wait {h} pair fits fits' level e =
      subst (Paired lock) (of_some e) (record {
        holder_may = refl;
        tester_may = refl;
        lefts = ap (λ k. k - 1) pair.lefts;
        holder_fits = refl;
        tester_fits = refl;
        in_turn = λ f. cc;
      })
  both_met-Paired p q pair fits fits' level e = ground arith

  Paired-step :
      (g : Go) {h h' : Hand S}
      → Handed lock IsGood h
      → Paired lock h
      → hand_step lock g h ≡ some h'
      → Paired lock h'
  unfolding hand_step
  Paired-step holder_works {h} inv pair e =
      let (s, step, same) = holder_at-some lock (works lock 0 h.holder h.sys) h.holder h e in
      let (ran, may) = worked 0 h.holder h.sys s inv.good pair.holder_may step in
      subst (Paired lock) same (
        pair_holder h.holder s pair (other w l 0 run 1 (omega arith) ran) may pair.holder_fits
          pair.in_turn)
  Paired-step holder_goes {h} inv pair e = holder_next-Paired w l h.holder inv pair refl e
  Paired-step tester_works {h} inv pair e =
      let (s, step, same) = tester_at-some lock (works lock 1 h.tester h.sys) h.tester h e in
      let (ran, may) = worked 1 h.tester h.sys s inv.good pair.tester_may step in
      subst (Paired lock) same (
        pair_tester h.tester s pair (other w l 1 run 0 (omega arith) ran) may pair.tester_fits
          pair.in_turn)
  Paired-step tester_goes {h} inv pair e = tester_next-Paired w l h.tester inv pair refl e
  Paired-step both_meet {h} inv pair e =
      both_met-Paired h.holder h.tester pair pair.holder_fits pair.tester_fits inv.level e

  abbrev pub Both : Hand S → Type 0
  Both h = Handed lock IsGood h × Paired lock h

  pub Both-steps :
      (gs : List Go) (o : Option (Hand S)) {h : Hand S}
      → ((h' : Hand S) → o ≡ some h' → Both h')
      → hand_steps lock gs o ≡ some h
      → Both h
  Both-steps gs none inv e = cc
  Both-steps [] (some h) inv e = inv _ e
  Both-steps (g ∷ gs) (some h) inv e =
      Both-steps gs (hand_step lock g h)
        (λ h' this.
          let (inv', pair) = inv h refl in
          (Handed-step w g inv' this, Paired-step g inv' pair this))
        e
