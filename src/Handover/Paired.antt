-- ===== src/Handover/Paired.antt =====
-- The two threads of `it_works_threaded` keep step: what is needed so that neither waits for ever.
use colock.Base.{
  subst, ℕ, ◌≡◌, ◌≢◌, refl, sym, Bool, true, false, not, some, arith, of_some, ◌==◌, Bool-cases,
  inl, inr, ap,
}
use colock.Counter.Exclusive.{Ask}
use colock.Handover.{
  Where, WatchedLock, Stage, starting, taking, first_wait, watching, asserting, releasing,
  last_wait, finished, failed, Hand, begin, holder_next, tester_next, returned, at_rest,
}
use colock.Handover.Laws.{Watched, Lively, enters, leaves}
use colock.Handover.Handed.{is_watching, is_asserting, Handed, watcher_owns}
use colock.Handover.Nexts.{holder_at-some, tester_at-some, returned-some, at_rest-some}

-- Where a thread can be in its call.
abbrev pub may_be : Stage → Where → Bool
may_be taking w = enters w
may_be releasing w = leaves w
may_be _ w = true

-- With or without an iteration left.
abbrev pub left_fits : Stage → Bool → Bool
left_fits starting over = true
left_fits finished over = over
left_fits failed over = false
left_fits _ over = not over

-- The tester's places while the holder watches.
abbrev pub is_awaited : Stage → Bool
is_awaited asserting = true
is_awaited taking = true
is_awaited _ = false

pub record Paired {S : Type 0} (lock : WatchedLock S) (h : Hand S) : Type 0 where
  pub holder_may : may_be h.holder (lock.place h.sys 0) ≡ true
  pub tester_may : may_be h.tester (lock.place h.sys 1) ≡ true
  pub lefts : h.holder_left ≡ h.tester_left
  pub holder_fits : left_fits h.holder (h.holder_left == 0) ≡ true
  pub tester_fits : left_fits h.tester (h.tester_left == 0) ≡ true
  pub in_turn : is_watching h.holder ≡ true → is_awaited h.tester ≡ true

module _ {S : Type 0} {lock : WatchedLock S} where
  pub Paired-begin : (n : ℕ) → Paired lock (begin lock n)
  Paired-begin n = record {
    holder_may = refl;
    tester_may = refl;
    lefts = refl;
    holder_fits = refl;
    tester_fits = refl;
    in_turn = λ e. cc;
  }

  pub pair_holder :
      {h : Hand S} (p : Stage) (s : S)
      → Paired lock h
      → lock.place s 1 ≡ lock.place h.sys 1
      → may_be p (lock.place s 0) ≡ true
      → left_fits p (h.holder_left == 0) ≡ true
      → (is_watching p ≡ true → is_awaited h.tester ≡ true)
      → Paired lock (record h { sys = s; holder = p })
  pair_holder p s pair same may fits turn = record {
    holder_may = may;
    tester_may = rw same pair.tester_may;
    lefts = pair.lefts;
    holder_fits = fits;
    tester_fits = pair.tester_fits;
    in_turn = turn;
  }

  pub pair_tester :
      {h : Hand S} (p : Stage) (s : S)
      → Paired lock h
      → lock.place s 0 ≡ lock.place h.sys 0
      → may_be p (lock.place s 1) ≡ true
      → left_fits p (h.tester_left == 0) ≡ true
      → (is_watching h.holder ≡ true → is_awaited p ≡ true)
      → Paired lock (record h { sys = s; tester = p })
  pair_tester p s pair same may fits turn = record {
    holder_may = rw same pair.holder_may;
    tester_may = may;
    lefts = pair.lefts;
    holder_fits = pair.holder_fits;
    tester_fits = fits;
    in_turn = turn;
  }

module _ {S : Type 0} {lock : WatchedLock S} {IsGood : S → Type 0} (w : Watched lock IsGood)
    (l : Lively lock IsGood) where
  pub other :
      (i : ℕ) (a : Ask) {s t : S} (j : ℕ)
      → j ≢ i
      → lock.step i a s ≡ some t
      → lock.place t j ≡ lock.place s j
  other i a {s} {t} j ne e = w.others_keep i a s t e j ne

  pub holder_next-Paired :
      (p : Stage) {h h' : Hand S}
      → Handed lock IsGood h
      → Paired lock h
      → h.holder ≡ p
      → holder_next lock p h ≡ some h'
      → Paired lock h'
  unfolding holder_next
  holder_next-Paired starting {h} inv pair at e = elim (Bool-cases (h.holder_left == 0)) [
    | inl over ↦
        subst (Paired lock) (of_some (rw over at e))
          (pair_holder finished h.sys pair refl refl over (λ f. cc))
    | inr more ↦
        let (s, step, same) =
          holder_at-some lock (lock.step 0 Ask.lock h.sys) taking h (rw more at e) in
        subst (Paired lock) same (
          pair_holder taking s pair (other 0 Ask.lock 1 (omega arith) step)
            (l.lock_enters 0 h.sys s step) (ap not more) (λ f. cc))
  ]
  holder_next-Paired taking {h} inv pair at e =
      let (s, got, same) =
        holder_at-some lock (returned lock (lock.place h.sys 0) (some h.sys)) first_wait h e in
      let (owns, here) = returned-some lock (lock.place h.sys 0) (some h.sys) got in
      subst (Paired lock) same (
        pair_holder first_wait s pair (ap (λ t. lock.place t 1) (sym (of_some here))) refl
          (ground (arith, pair.holder_fits)) (λ f. cc))
  holder_next-Paired watching {h} inv pair at e = elim (Bool-cases (lock.has_waiter h.sys)) [
    | inl has ↦
        let (s, step, same) =
          holder_at-some lock (lock.step 0 Ask.unlock h.sys) releasing h (rw has at e) in
        subst (Paired lock) same (
          pair_holder releasing s pair (other 0 Ask.unlock 1 (omega arith) step)
            (l.unlock_leaves 0 h.sys s step) (ground (arith, pair.holder_fits)) (λ f. cc))
    | inr none_there ↦ subst (Paired lock) (of_some (rw none_there at e)) pair
  ]
  holder_next-Paired releasing {h} inv pair at e =
      let (s, got, same) =
        holder_at-some lock (at_rest lock (lock.place h.sys 0) (some h.sys)) last_wait h e in
      let (rests, here) = at_rest-some lock (lock.place h.sys 0) (some h.sys) got in
      subst (Paired lock) same (
        pair_holder last_wait s pair (ap (λ t. lock.place t 1) (sym (of_some here))) refl
          (ground (arith, pair.holder_fits)) (λ f. cc))
  holder_next-Paired first_wait inv pair at e = cc
  holder_next-Paired asserting inv pair at e = cc
  holder_next-Paired last_wait inv pair at e = cc
  holder_next-Paired finished inv pair at e = cc
  holder_next-Paired failed inv pair at e = cc

  pub tester_next-Paired :
      (p : Stage) {h h' : Hand S}
      → Handed lock IsGood h
      → Paired lock h
      → h.tester ≡ p
      → tester_next lock p h ≡ some h'
      → Paired lock h'
  unfolding tester_next
  tester_next-Paired starting {h} inv pair at e = elim (Bool-cases (h.tester_left == 0)) [
    | inl over ↦
        subst (Paired lock) (of_some (rw over at e))
          (pair_tester finished h.sys pair refl refl over (λ f. ground (arith, pair.in_turn)))
    | inr more ↦ subst (Paired lock) (of_some (rw more at e)) (
        pair_tester first_wait h.sys pair refl refl (ap not more)
          (λ f. ground (arith, pair.in_turn)))
  ]
  tester_next-Paired asserting {h} inv pair at e =
      let up : lock.is_locked h.sys ≡ true =
        w.owner_locked h.sys inv.good 0
          (watcher_owns h.holder (inv.asserted (ap is_asserting at)) inv.holder_stands) in
      let (s, step, same) =
        tester_at-some lock (lock.step 1 Ask.lock h.sys) taking h (rw up at e) in
      subst (Paired lock) same (
        pair_tester taking s pair (other 1 Ask.lock 0 (omega arith) step)
          (l.lock_enters 1 h.sys s step) (ground (arith, pair.tester_fits)) (λ f. refl))
  tester_next-Paired taking {h} inv pair at e =
      let (s, got, same) =
        tester_at-some lock (returned lock (lock.place h.sys 1) (lock.step 1 Ask.unlock h.sys))
          releasing h e in
      let (owns, step) =
        returned-some lock (lock.place h.sys 1) (lock.step 1 Ask.unlock h.sys) got in
      subst (Paired lock) same (
        pair_tester releasing s pair (other 1 Ask.unlock 0 (omega arith) step)
          (l.unlock_leaves 1 h.sys s step) (ground (arith, pair.tester_fits))
          (λ watches. absurd (
            omega (
              arith,
              l.one_owner h.sys inv.good 0 1 (watcher_owns h.holder watches inv.holder_stands) owns,
            ))))
  tester_next-Paired releasing {h} inv pair at e =
      let (s, got, same) =
        tester_at-some lock (at_rest lock (lock.place h.sys 1) (some h.sys)) last_wait h e in
      let (rests, here) = at_rest-some lock (lock.place h.sys 1) (some h.sys) got in
      subst (Paired lock) same (
        pair_tester last_wait s pair (ap (λ t. lock.place t 0) (sym (of_some here))) refl
          (ground (arith, pair.tester_fits)) (λ f. ground (arith, pair.in_turn)))
  tester_next-Paired watching inv pair at e = cc
  tester_next-Paired first_wait inv pair at e = cc
  tester_next-Paired last_wait inv pair at e = cc
  tester_next-Paired finished inv pair at e = cc
  tester_next-Paired failed inv pair at e = cc
