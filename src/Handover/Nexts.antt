-- ===== src/Handover/Nexts.antt =====
-- A step of either thread alone keeps their places.
use colock.Base.{subst, ◌≡◌, refl, true, Option, none, some, of_some, ◌==◌, Bool-cases, inl, inr}
use colock.Counter.Exclusive.{Ask}
use colock.Handover.{
  Where, resting, entering, leaving, owning, WatchedLock, Stage, starting, taking, first_wait,
  watching, asserting, releasing, last_wait, finished, failed, Hand, holder_at, tester_at,
  holder_next, tester_next, returned, at_rest,
}
use colock.Handover.Laws.{Watched}
use colock.Handover.Handed.{
  is_late, late_tester, is_watching, is_asserting, HolderAt, TesterAt, watcher_owns, asserter_rests,
  Handed, by_holder, by_tester, still, stepped, no_waiter,
}

module _ {S : Type 0} (lock : WatchedLock S) where
  -- What a thread at a stage comes to.
  pub holder_at-some :
      (o : Option S) (p : Stage) (h : Hand S) {h' : Hand S}
      → holder_at lock o p h ≡ some h'
      → (s : S) × (o ≡ some s) × (record h { sys = s; holder = p } ≡ h')
  holder_at-some none p h e = cc
  holder_at-some (some s) p h e = (s, refl, of_some e)

  pub tester_at-some :
      (o : Option S) (p : Stage) (h : Hand S) {h' : Hand S}
      → tester_at lock o p h ≡ some h'
      → (s : S) × (o ≡ some s) × (record h { sys = s; tester = p } ≡ h')
  tester_at-some none p h e = cc
  tester_at-some (some s) p h e = (s, refl, of_some e)

  pub returned-some :
      (q : Where) (o : Option S) {s : S} → returned lock q o ≡ some s → (q ≡ owning) × (o ≡ some s)
  returned-some owning o e = (refl, e)
  returned-some resting o e = cc
  returned-some entering o e = cc
  returned-some leaving o e = cc

  pub at_rest-some :
      (q : Where) (o : Option S) {s : S} → at_rest lock q o ≡ some s → (q ≡ resting) × (o ≡ some s)
  at_rest-some resting o e = (refl, e)
  at_rest-some owning o e = cc
  at_rest-some entering o e = cc
  at_rest-some leaving o e = cc

module _ {S : Type 0} {lock : WatchedLock S} {IsGood : S → Type 0} (w : Watched lock IsGood) where
  pub holder_next-Handed :
      (p : Stage) {h h' : Hand S}
      → Handed lock IsGood h
      → HolderAt p (lock.place h.sys 0)
      → is_late p ≡ late_tester h.tester
      → (is_asserting h.tester ≡ true → is_watching p ≡ true)
      → holder_next lock p h ≡ some h'
      → Handed lock IsGood h'
  unfolding holder_next
  holder_next-Handed starting {h} {h'} inv stands level asserted e =
      elim (Bool-cases (h.holder_left == 0)) [
        | inl over ↦
            subst (Handed lock IsGood) (of_some (rw over at e))
              (by_holder finished h.holder_left inv (still 0 inv) stands level asserted)
        | inr more ↦
            let (s, step, same) =
              holder_at-some lock (lock.step 0 Ask.lock h.sys) taking h (rw more at e) in
            subst (Handed lock IsGood) same (
              by_holder taking h.holder_left inv (stepped w 0 Ask.lock inv.good step) tt level
                asserted)
      ]
  holder_next-Handed taking {h} inv stands level asserted e =
      let (s, got, same) =
        holder_at-some lock (returned lock (lock.place h.sys 0) (some h.sys)) first_wait h e in
      let (owns, here) = returned-some lock (lock.place h.sys 0) (some h.sys) got in
      subst (Handed lock IsGood) same (
        subst (λ t. Handed lock IsGood (record h { sys = t; holder = first_wait })) (of_some here)
          (by_holder first_wait h.holder_left inv (still 0 inv) owns level asserted))
  holder_next-Handed watching {h} inv stands level asserted e =
      elim (Bool-cases (lock.has_waiter h.sys)) [
        | inl has ↦
            let (s, step, same) =
              holder_at-some lock (lock.step 0 Ask.unlock h.sys) releasing h (rw has at e) in
            subst (Handed lock IsGood) same (
              by_holder releasing h.holder_left inv (stepped w 0 Ask.unlock inv.good step) tt level
                (λ waits. cc (
                  has,
                  no_waiter w inv stands
                      (asserter_rests h.tester (lock.place h.sys 1) waits inv.tester_stands),
                )))
        | inr none_there ↦ subst (Handed lock IsGood) (of_some (rw none_there at e)) inv
      ]
  holder_next-Handed releasing {h} inv stands level asserted e =
      let (s, got, same) =
        holder_at-some lock (at_rest lock (lock.place h.sys 0) (some h.sys)) last_wait h e in
      let (rests, here) = at_rest-some lock (lock.place h.sys 0) (some h.sys) got in
      subst (Handed lock IsGood) same (
        subst (λ t. Handed lock IsGood (record h { sys = t; holder = last_wait })) (of_some here)
          (by_holder last_wait h.holder_left inv (still 0 inv) rests level asserted))
  holder_next-Handed first_wait inv stands level asserted e = cc
  holder_next-Handed asserting inv stands level asserted e = cc
  holder_next-Handed last_wait inv stands level asserted e = cc
  holder_next-Handed finished inv stands level asserted e = cc
  holder_next-Handed failed inv stands level asserted e = cc

  pub tester_next-Handed :
      (p : Stage) {h h' : Hand S}
      → Handed lock IsGood h
      → TesterAt p (lock.place h.sys 1)
      → is_late h.holder ≡ late_tester p
      → (is_asserting p ≡ true → is_watching h.holder ≡ true)
      → tester_next lock p h ≡ some h'
      → Handed lock IsGood h'
  unfolding tester_next
  tester_next-Handed starting {h} inv stands level asserted e =
      elim (Bool-cases (h.tester_left == 0)) [
        | inl over ↦
            subst (Handed lock IsGood) (of_some (rw over at e))
              (by_tester finished h.tester_left inv (still 1 inv) stands level (λ f. cc))
        | inr more ↦
            subst (Handed lock IsGood) (of_some (rw more at e))
              (by_tester first_wait h.tester_left inv (still 1 inv) stands level (λ f. cc))
      ]
  tester_next-Handed asserting {h} inv stands level asserted e =
      let up : lock.is_locked h.sys ≡ true =
        w.owner_locked h.sys inv.good 0 (watcher_owns h.holder (asserted refl) inv.holder_stands) in
      let (s, step, same) =
        tester_at-some lock (lock.step 1 Ask.lock h.sys) taking h (rw up at e) in
      subst (Handed lock IsGood) same
        (by_tester taking h.tester_left inv (stepped w 1 Ask.lock inv.good step) tt level (λ f. cc))
  tester_next-Handed taking {h} inv stands level asserted e =
      let (s, got, same) =
        tester_at-some lock (returned lock (lock.place h.sys 1) (lock.step 1 Ask.unlock h.sys))
          releasing h e in
      let (owns, step) =
        returned-some lock (lock.place h.sys 1) (lock.step 1 Ask.unlock h.sys) got in
      subst (Handed lock IsGood) same (
        by_tester releasing h.tester_left inv (stepped w 1 Ask.unlock inv.good step) tt level
          (λ f. cc))
  tester_next-Handed releasing {h} inv stands level asserted e =
      let (s, got, same) =
        tester_at-some lock (at_rest lock (lock.place h.sys 1) (some h.sys)) last_wait h e in
      let (rests, here) = at_rest-some lock (lock.place h.sys 1) (some h.sys) got in
      subst (Handed lock IsGood) same (
        subst (λ t. Handed lock IsGood (record h { sys = t; tester = last_wait })) (of_some here)
          (by_tester last_wait h.tester_left inv (still 1 inv) rests level (λ f. cc)))
  tester_next-Handed watching inv stands level asserted e = cc
  tester_next-Handed first_wait inv stands level asserted e = cc
  tester_next-Handed last_wait inv stands level asserted e = cc
  tester_next-Handed finished inv stands level asserted e = cc
  tester_next-Handed failed inv stands level asserted e = cc
