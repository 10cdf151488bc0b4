-- ===== src/Mutex/Strong.antt =====
-- colock/src/mutex/guard.rs: what the two ways to give a guard up do to the `Arc` of its mutex.
use colock.Base.{ℕ, ◌+◌, ◌-◌, ◌≡◌, refl, sym, ap, Option, none, some, of_some, arith}
use colock.Mutex.Raw.{RawLock}
use colock.Mutex.Guard.{
  Handle, by_ref, by_arc, Mutex, lock, drop_guard, unlock_fair, on_raw, after_drop, guard_after,
}

-- The strong references that a guard holds.
abbrev pub refs : Handle → ℕ
refs by_ref = 0
refs by_arc = 1

module _ {S T : Type 0} (raw : RawLock S) where
  on_raw-strong :
      (o : Option S) (m m' : Mutex S T) → on_raw raw o m ≡ some m' → m'.strong ≡ m.strong
  on_raw-strong none m m' e = cc
  on_raw-strong (some s) m m' e = sym (ap (λ x. x.strong) (of_some e))

  lock-strong :
      (h g : Handle) (m m1 : Mutex S T)
      → lock raw h m ≡ some (g, m1)
      → (g ≡ h) × (m1.strong ≡ m.strong + refs h)
  unfolding lock
  lock-strong h g m m1 e = by_result h (on_raw raw (raw.lock m.raw_mutex) m) refl e
    where
      by_result :
          (h : Handle) (o : Option (Mutex S T))
          → on_raw raw (raw.lock m.raw_mutex) m ≡ o
          → guard_after raw h o ≡ some (g, m1)
          → (g ≡ h) × (m1.strong ≡ m.strong + refs h)
      by_result h none f e = cc
      by_result by_ref (some m0) f e = (
        sym (ap (λ x. x.0) (of_some e)),
        omega (arith, on_raw-strong _ m m0 f, ap (λ x. x.1.strong) (of_some e)),
      )
      by_result by_arc (some m0) f e = (
        sym (ap (λ x. x.0) (of_some e)),
        omega (arith, on_raw-strong _ m m0 f, ap (λ x. x.1.strong) (of_some e)),
      )

  drop-strong :
      (g : Handle) (m m' : Mutex S T) → drop_guard raw g m ≡ some m' → m'.strong ≡ m.strong - refs g
  unfolding drop_guard
  drop-strong g m m' e = by_result g (on_raw raw (raw.unlock m.raw_mutex) m) refl e
    where
      by_result :
          (g : Handle) (o : Option (Mutex S T))
          → on_raw raw (raw.unlock m.raw_mutex) m ≡ o
          → after_drop raw g o ≡ some m'
          → m'.strong ≡ m.strong - refs g
      by_result g none f e = cc
      by_result by_ref (some m0) f e =
          omega (arith, on_raw-strong _ m m0 f, ap (λ x. x.strong) (of_some e))
      by_result by_arc (some m0) f e =
          omega (arith, on_raw-strong _ m m0 f, ap (λ x. x.strong) (of_some e))

  -- For a guard made by lock or lock_arc, dropping it brings the strong count of the Arc back to
  -- what it was, while unlock_fair leaves the count one higher if it is an ArcMutexGuard.
  pub fair_unlock_keeps_ref :
      (h g : Handle) (m m1 dropped fair : Mutex S T)
      → lock raw h m ≡ some (g, m1)
      → drop_guard raw g m1 ≡ some dropped
      → unlock_fair raw g m1 ≡ some fair
      → (dropped.strong ≡ m.strong) × (fair.strong ≡ m.strong + refs h)
  unfolding unlock_fair
  fair_unlock_keeps_ref h g m m1 dropped fair e d f =
      let (eg, em) = lock-strong h g m m1 e in
      (
        omega (arith, drop-strong g m1 dropped d, ap refs eg, em),
        omega (arith, on_raw-strong _ m1 fair f, em),
      )
