-- ===== src/Handover/Handed.antt =====
-- Where the two threads of `it_works_threaded` can stand, and what the lock then shows.
use colock.Base.{
  suc, zero, ℕ, ◌≡◌, ◌≢◌, refl, Bool, true, false, some, arith, ◌<◌, Bool-cases, inl, inr,
}
use colock.Counter.Exclusive.{Ask}
use colock.Handover.{
  Where, resting, entering, owning, WatchedLock, Stage, starting, taking, first_wait, watching,
  asserting, releasing, last_wait, finished, failed, Hand, begin,
}
use colock.Handover.Laws.{Watched}

-- Past the first wait of the iteration.
abbrev pub is_late : Stage → Bool
is_late watching = true
is_late asserting = true
is_late releasing = true
is_late last_wait = true
is_late _ = false

-- A taker is in the first half for the holder, and in the second for the tester.
abbrev pub late_tester : Stage → Bool
late_tester taking = true
late_tester p = is_late p

abbrev pub is_watching : Stage → Bool
is_watching watching = true
is_watching _ = false

abbrev pub is_asserting : Stage → Bool
is_asserting asserting = true
is_asserting _ = false

abbrev pub HolderAt : Stage → Where → Type 0
HolderAt starting w = w ≡ resting
HolderAt first_wait w = w ≡ owning
HolderAt watching w = w ≡ owning
HolderAt last_wait w = w ≡ resting
HolderAt finished w = w ≡ resting
HolderAt asserting w = ⊥
HolderAt failed w = ⊥
HolderAt _ w = Unit

abbrev pub TesterAt : Stage → Where → Type 0
TesterAt taking w = Unit
TesterAt releasing w = Unit
TesterAt watching w = ⊥
TesterAt failed w = ⊥
TesterAt _ w = w ≡ resting

-- While the tester is about to assert, the holder still waits for it in the queue.
pub record Handed {S : Type 0} (lock : WatchedLock S) (IsGood : S → Type 0) (h : Hand S)
    : Type 0 where
  pub good : IsGood h.sys
  pub away : (j : ℕ) → 1 < j → lock.place h.sys j ≡ resting
  pub holder_stands : HolderAt h.holder (lock.place h.sys 0)
  pub tester_stands : TesterAt h.tester (lock.place h.sys 1)
  pub level : is_late h.holder ≡ late_tester h.tester
  pub asserted : is_asserting h.tester ≡ true → is_watching h.holder ≡ true

pub watcher_owns : (p : Stage) {w : Where} → is_watching p ≡ true → HolderAt p w → w ≡ owning
watcher_owns watching e at = at
watcher_owns p e at = ground arith

pub asserter_rests : (p : Stage) (w : Where) → is_asserting p ≡ true → TesterAt p w → w ≡ resting
asserter_rests asserting w e at = at
asserter_rests p w e at = ground arith

module _ {S : Type 0} (lock : WatchedLock S) (IsGood : S → Type 0) where
  -- Thread `i` may have made a step of the lock.
  abbrev pub Stepped : ℕ → S → S → Type 0
  Stepped i s t = IsGood t × ((j : ℕ) → j ≢ i → lock.place t j ≡ lock.place s j)

module _ {S : Type 0} {lock : WatchedLock S} {IsGood : S → Type 0} where
  pub by_holder :
      {h : Hand S} (p : Stage) {s : S} (n : ℕ)
      → Handed lock IsGood h
      → Stepped lock IsGood 0 h.sys s
      → HolderAt p (lock.place s 0)
      → is_late p ≡ late_tester h.tester
      → (is_asserting h.tester ≡ true → is_watching p ≡ true)
      → Handed lock IsGood (record h { sys = s; holder = p; holder_left = n })
  by_holder {h} p n inv (good, same) stands level asserted = record {
    good = good;
    away = λ j more. rw (same j (omega arith)) (inv.away j more);
    holder_stands = stands;
    tester_stands = rw (same 1 (omega arith)) inv.tester_stands;
    level = level;
    asserted = asserted;
  }

  pub by_tester :
      {h : Hand S} (p : Stage) {s : S} (n : ℕ)
      → Handed lock IsGood h
      → Stepped lock IsGood 1 h.sys s
      → TesterAt p (lock.place s 1)
      → is_late h.holder ≡ late_tester p
      → (is_asserting p ≡ true → is_watching h.holder ≡ true)
      → Handed lock IsGood (record h { sys = s; tester = p; tester_left = n })
  by_tester {h} p n inv (good, same) stands level asserted = record {
    good = good;
    away = λ j more. rw (same j (omega arith)) (inv.away j more);
    holder_stands = rw (same 0 (omega arith)) inv.holder_stands;
    tester_stands = stands;
    level = level;
    asserted = asserted;
  }

  pub still : (i : ℕ) {h : Hand S} → Handed lock IsGood h → Stepped lock IsGood i h.sys h.sys
  still i inv = (inv.good, λ j ne. refl)

module _ {S : Type 0} {lock : WatchedLock S} {IsGood : S → Type 0} (w : Watched lock IsGood) where
  pub Handed-begin : (n : ℕ) → Handed lock IsGood (begin lock n)
  Handed-begin n = record {
    good = w.good_init;
    away = λ j _. w.first j;
    holder_stands = w.first 0;
    tester_stands = w.first 1;
    level = refl;
    asserted = λ e. cc;
  }

  pub stepped :
      (i : ℕ) (a : Ask) {s t : S} → IsGood s → lock.step i a s ≡ some t → Stepped lock IsGood i s t
  stepped i a {s} {t} good e = (w.good_step i a s t good e, w.others_keep i a s t e)

  -- A waiter is neither the owner nor at rest, so it is not there while the tester asserts.
  pub no_waiter :
      {h : Hand S}
      → Handed lock IsGood h
      → lock.place h.sys 0 ≡ owning
      → lock.place h.sys 1 ≡ resting
      → lock.has_waiter h.sys ≡ false
  no_waiter {h} inv owner rest = elim (Bool-cases (lock.has_waiter h.sys)) [
    | inl has ↦ let (j, calls) = w.waiter_calls h.sys inv.good has in absurd (nobody j calls)
    | inr none_there ↦ none_there
  ]
    where
      nobody : (j : ℕ) → lock.place h.sys j ≡ entering → ⊥
      nobody zero c = cc
      nobody (suc zero) c = cc
      nobody (suc (suc j)) c = cc (c, inv.away (suc (suc j)) (omega arith))
