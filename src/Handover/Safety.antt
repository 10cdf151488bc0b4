-- ===== src/Handover/Safety.antt =====
-- The assertions of `it_works_threaded` hold, for any lock with the laws of Watched.
use colock.Base.{
  subst, suc, zero, ℕ, ◌≡◌, ◌≢◌, refl, false, Option, none, some, List, [], ◌∷◌, arith, of_some,
}
use colock.Counter.Exclusive.{run}
use colock.Handover.{
  Where, resting, WatchedLock, Stage, starting, taking, first_wait, watching, asserting, releasing,
  last_wait, finished, failed, Hand, Go, holder_works, holder_goes, tester_works, tester_goes,
  both_meet, begin, works, holder_met, tester_met, hand_step, hand_steps,
}
use colock.Handover.Laws.{Watched}
use colock.Handover.Handed.{
  is_late, late_tester, HolderAt, TesterAt, Handed, Stepped, by_holder, by_tester, Handed-begin,
  stepped,
}
use colock.Handover.Nexts.{holder_at-some, tester_at-some, holder_next-Handed, tester_next-Handed}

module _ {S : Type 0} {lock : WatchedLock S} {IsGood : S → Type 0} (w : Watched lock IsGood) where
  works-Stepped :
      (i : ℕ) (p : Stage) {s t : S}
      → IsGood s
      → works lock i p s ≡ some t
      → Stepped lock IsGood i s t
  unfolding works
  works-Stepped i taking good e = stepped w i run good e
  works-Stepped i releasing good e = stepped w i run good e
  works-Stepped i starting good e = cc
  works-Stepped i first_wait good e = cc
  works-Stepped i watching good e = cc
  works-Stepped i asserting good e = cc
  works-Stepped i last_wait good e = cc
  works-Stepped i finished good e = cc
  works-Stepped i failed good e = cc

  holder_works-at :
      (p : Stage) (v : Where) (s : S) {t : S} → works lock 0 p s ≡ some t → HolderAt p v
  unfolding works
  holder_works-at taking v s e = tt
  holder_works-at releasing v s e = tt
  holder_works-at p v s e = ground arith

  tester_works-at :
      (p : Stage) (v : Where) (s : S) {t : S} → works lock 1 p s ≡ some t → TesterAt p v
  unfolding works
  tester_works-at taking v s e = tt
  tester_works-at releasing v s e = tt
  tester_works-at p v s e = ground arith

  both_met-Handed :
      (p q : Stage) {h h' : Hand S}
      → Handed lock IsGood h
      → HolderAt p (lock.place h.sys 0)
      → TesterAt q (lock.place h.sys 1)
      → is_late p ≡ late_tester q
      → tester_met lock q (holder_met lock p h) ≡ some h'
      → Handed lock IsGood h'
  both_met-Handed first_wait first_wait {h} inv holds rests level e =
      subst (Handed lock IsGood) (of_some e) (record {
        good = inv.good;
        away = inv.away;
        holder_stands = holds;
        tester_stands = rests;
        level = refl;
        asserted = λ a. refl;
      })
  both_met-Handed last_wait last_wait {h} inv holds rests level e =
      subst (Handed lock IsGood) (of_some e) (record {
        good = inv.good;
        away = inv.away;
        holder_stands = holds;
        tester_stands = rests;
        level = refl;
        asserted = λ a. cc;
      })
  both_met-Handed p q inv holds rests level e = ground arith

  pub Handed-step :
      (g : Go) {h h' : Hand S}
      → Handed lock IsGood h
      → hand_step lock g h ≡ some h'
      → Handed lock IsGood h'
  unfolding hand_step
  Handed-step holder_works {h} inv e =
      let (s, step, same) = holder_at-some lock (works lock 0 h.holder h.sys) h.holder h e in
      subst (Handed lock IsGood) same (
        by_holder h.holder h.holder_left inv (works-Stepped 0 h.holder inv.good step)
          (holder_works-at h.holder (lock.place s 0) h.sys step) inv.level inv.asserted)
  Handed-step holder_goes {h} inv e =
      holder_next-Handed w h.holder inv inv.holder_stands inv.level inv.asserted e
  Handed-step tester_works {h} inv e =
      let (s, step, same) = tester_at-some lock (works lock 1 h.tester h.sys) h.tester h e in
      subst (Handed lock IsGood) same (
        by_tester h.tester h.tester_left inv (works-Stepped 1 h.tester inv.good step)
          (tester_works-at h.tester (lock.place s 1) h.sys step) inv.level inv.asserted)
  Handed-step tester_goes {h} inv e =
      tester_next-Handed w h.tester inv inv.tester_stands inv.level inv.asserted e
  Handed-step both_meet {h} inv e =
      both_met-Handed h.holder h.tester inv inv.holder_stands inv.tester_stands inv.level e

  -- Runs come to nothing else.
  Handed-steps :
      (gs : List Go) (o : Option (Hand S)) {h : Hand S}
      → ((h' : Hand S) → o ≡ some h' → Handed lock IsGood h')
      → hand_steps lock gs o ≡ some h
      → Handed lock IsGood h
  Handed-steps gs none inv e = cc
  Handed-steps [] (some h) inv e = inv _ e
  Handed-steps (g ∷ gs) (some h) inv e =
      Handed-steps gs (hand_step lock g h) (λ h' this. Handed-step g (inv h refl) this) e

  -- Over any lock whose readings say what they should, the two threads of it_works_threaded, with
  -- any number of iterations and in any interleaving of the steps of their calls, never fail the
  -- assertion that the lock is locked, and leave it unlocked if both come to their end. Waits of
  -- the barrier return to both threads once both have called. What the lock must show: it is
  -- locked while a thread has it, free with all threads at rest, a waiter is in a call, and a
  -- step of one thread changes the place of no other.
  pub assertions_hold :
      (num_iterations : ℕ) (gs : List Go) (h : Hand S)
      → hand_steps lock gs (some (begin lock num_iterations)) ≡ some h
      → (h.tester ≢ failed)
        × (h.holder ≡ finished → h.tester ≡ finished → lock.is_locked h.sys ≡ false)
  assertions_hold n gs h e =
      let inv =
        Handed-steps gs (some (begin lock n))
          (λ h' this. subst (Handed lock IsGood) (of_some this) (Handed-begin w n)) e in
      (
        λ bad. subst (λ p. TesterAt p (lock.place h.sys 1)) bad inv.tester_stands,
        λ over done. w.rest_free h.sys inv.good (everyone_rests inv over done),
      )
    where
      everyone_rests :
          {h : Hand S}
          → Handed lock IsGood h
          → h.holder ≡ finished
          → h.tester ≡ finished
          → (i : ℕ) → lock.place h.sys i ≡ resting
      everyone_rests {h} inv over done zero =
          subst (λ p. HolderAt p (lock.place h.sys 0)) over inv.holder_stands
      everyone_rests {h} inv over done (suc zero) =
          subst (λ p. TesterAt p (lock.place h.sys 1)) done inv.tester_stands
      everyone_rests inv over done (suc (suc j)) = inv.away (suc (suc j)) (omega arith)
