-- ===== src/Mutex/Balance.antt =====
-- colock/src/mutex/mod.rs and guard.rs: a client of one `Mutex<T>`, with at most one guard at a
-- time. It does with the guard what its type allows, and what it asks for otherwise is skipped.
use colock.Base.{
  ℕ, ◌≡◌, refl, Bool, true, false, not, Option, none, some, List, [], ◌∷◌, of_some, subst, ap, sym,
}
use colock.Mutex.Raw.{RawLock, RawLaws, Leaves, Tries, after_leaving, after_trying}
use colock.Mutex.Guard.{
  guard_after, then_guard, after_drop, relock, call_with, Handle, by_ref, by_arc, Mutex, lock,
  lock_async, try_lock, try_lock_for, try_lock_until, drop_guard, unlock_fair, bump, deref_mut,
  unlocked, unlocked_fair, on_raw,
}

pub data GuardOp (T : Type 0) : Type 0 where
  lock_by await_by try_by : Handle → GuardOp T
  try_for : (duration : ℕ) → Handle → GuardOp T
  try_until : (timeout : ℕ) → Handle → GuardOp T
  drops drops_fair bumps : GuardOp T
  writes : T → GuardOp T
  runs_unlocked : (fair : Bool) → GuardOp T

pub record Client (S T : Type 0) : Type 0 where
  pub mutex : Mutex S T
  pub guard : Option Handle

-- Is there a guard?
abbrev pub has_guard : Option Handle → Bool
has_guard none = false
has_guard (some _) = true

module _ {S T : Type 0} (raw : RawLock S) where
  abbrev locked_by : Option (Handle × Mutex S T) → Option (Client S T)
  locked_by none = none
  locked_by (some (g, m)) = some (record { mutex = m; guard = some g })

  abbrev tried_by : Option (Option Handle × Mutex S T) → Option (Client S T)
  tried_by none = none
  tried_by (some (g, m)) = some (record { mutex = m; guard = g })

  abbrev left_with : Option Handle → Option (Mutex S T) → Option (Client S T)
  left_with g none = none
  left_with g (some m) = some (record { mutex = m; guard = g })

  abbrev ran_by : Handle → Option (Bool × Mutex S T) → Option (Client S T)
  ran_by g none = none
  ran_by g (some (_, m)) = some (record { mutex = m; guard = some g })

  -- The closure given to `unlocked` looks whether the mutex is locked.
  abbrev looks : Mutex S T → Option (Bool × Mutex S T)
  looks m = some (raw.is_locked m.raw_mutex, m)

  abbrev without_guard : GuardOp T → Mutex S T → Option (Client S T)
  without_guard (lock_by h) m = locked_by (lock raw h m)
  without_guard (await_by h) m = locked_by (lock_async raw h m)
  without_guard (try_by h) m = tried_by (try_lock raw h m)
  without_guard (try_for d h) m = tried_by (try_lock_for raw h d m)
  without_guard (try_until t h) m = tried_by (try_lock_until raw h t m)
  without_guard _ m = some (record { mutex = m; guard = none })

  abbrev with_guard : GuardOp T → Handle → Mutex S T → Option (Client S T)
  with_guard drops g m = left_with none (drop_guard raw g m)
  with_guard drops_fair g m = left_with none (unlock_fair raw g m)
  with_guard bumps g m = left_with (some g) (bump raw m)
  with_guard (writes value) g m = some (record { mutex = deref_mut raw value m; guard = some g })
  with_guard (runs_unlocked false) g m = ran_by g (unlocked raw looks m)
  with_guard (runs_unlocked true) g m = ran_by g (unlocked_fair raw looks m)
  with_guard _ g m = some (record { mutex = m; guard = some g })

  abbrev by_guard : GuardOp T → Option Handle → Mutex S T → Option (Client S T)
  by_guard op none m = without_guard op m
  by_guard op (some g) m = with_guard op g m

  abbrev pub act : GuardOp T → Client S T → Option (Client S T)
  act op c = by_guard op c.guard c.mutex

  abbrev pub act_all : List (GuardOp T) → Option (Client S T) → Option (Client S T)
  act_all ops none = none
  act_all [] (some c) = some c
  act_all (op ∷ ops) (some c) = act_all ops (act op c)

  module _ (IsAlone : S → Type 0) where
    -- The lock is held exactly when the client has a guard.
    pub record Agrees (c : Client S T) : Type 0 where
      pub alone : IsAlone c.mutex.raw_mutex
      pub agrees : raw.is_locked c.mutex.raw_mutex ≡ has_guard c.guard

    abbrev Acts : Option (Client S T) → Type 0
    Acts o = (c : Client S T) × (o ≡ some c) × Agrees c

    module _ (laws : RawLaws raw IsAlone) where
      stands :
          (c : Client S T)
          → IsAlone c.mutex.raw_mutex
          → raw.is_locked c.mutex.raw_mutex ≡ has_guard c.guard
          → Acts (some c)
      stands c al lk = (c, refl, record { alone = al; agrees = lk })

      locked-Acts :
          (h : Handle) (m : Mutex S T) (o : Option S)
          → Leaves raw IsAlone o true
          → Acts (locked_by (guard_after raw h (on_raw raw o m)))
      locked-Acts by_ref m o =
          after_leaving raw IsAlone
            (λ o. Acts (locked_by (guard_after raw by_ref (on_raw raw o m))))
            (λ s al' lk'. stands _ al' lk')
      locked-Acts by_arc m o =
          after_leaving raw IsAlone
            (λ o. Acts (locked_by (guard_after raw by_arc (on_raw raw o m))))
            (λ s al' lk'. stands _ al' lk')

      tried-Acts :
          (h : Handle) (m : Mutex S T) (o : Option (Bool × S)) (free : Bool)
          → free ≡ true
          → Tries raw IsAlone o free
          → Acts (tried_by (then_guard raw h m o))
      tried-Acts by_ref m o true up =
          after_trying raw IsAlone (λ o. Acts (tried_by (then_guard raw by_ref m o)))
            (λ s al' lk'. stands _ al' lk')
      tried-Acts by_arc m o true up =
          after_trying raw IsAlone (λ o. Acts (tried_by (then_guard raw by_arc m o)))
            (λ s al' lk'. stands _ al' lk')
      tried-Acts h m o false up = cc

      dropped-Acts :
          (g : Handle) (m : Mutex S T)
          → IsAlone m.raw_mutex
          → raw.is_locked m.raw_mutex ≡ true
          → Acts (left_with none (drop_guard raw g m))
      unfolding drop_guard
      dropped-Acts by_ref m al lk =
          after_leaving raw IsAlone
            (λ o. Acts (left_with none (after_drop raw by_ref (on_raw raw o m))))
            (λ s al' lk'. stands _ al' lk') (laws.unlock_held m.raw_mutex al lk)
      dropped-Acts by_arc m al lk =
          after_leaving raw IsAlone
            (λ o. Acts (left_with none (after_drop raw by_arc (on_raw raw o m))))
            (λ s al' lk'. stands _ al' lk') (laws.unlock_held m.raw_mutex al lk)

      relocked-Acts :
          (g : Handle) (b : Bool) (m : Mutex S T)
          → IsAlone m.raw_mutex
          → raw.is_locked m.raw_mutex ≡ false
          → Acts (ran_by g (relock raw (some (b, m))))
      relocked-Acts g b m al lk =
          after_leaving raw IsAlone
            (λ o. Acts (ran_by g (elim (on_raw raw o m) [ none ↦ none | some m' ↦ some (b, m') ])))
            (λ s al' lk'. stands _ al' lk') (laws.lock_free m.raw_mutex al lk)

      unlocked-Acts :
          (g : Handle) (m : Mutex S T) (o : Option S)
          → Leaves raw IsAlone o false
          → Acts (ran_by g (relock raw (call_with raw looks (on_raw raw o m))))
      unlocked-Acts g m o =
          after_leaving raw IsAlone
            (λ o. Acts (ran_by g (relock raw (call_with raw looks (on_raw raw o m)))))
            (λ s al' lk'. relocked-Acts g (raw.is_locked s) (record m { raw_mutex = s }) al' lk')

      without-Acts :
          (op : GuardOp T) (m : Mutex S T)
          → IsAlone m.raw_mutex
          → raw.is_locked m.raw_mutex ≡ false
          → Acts (without_guard op m)
      unfolding lock lock_async try_lock try_lock_for try_lock_until
      without-Acts (lock_by h) m al lk = locked-Acts h m _ (laws.lock_free m.raw_mutex al lk)
      without-Acts (await_by h) m al lk = locked-Acts h m _ (laws.async_free m.raw_mutex al lk)
      without-Acts (try_by h) m al lk = tried-Acts h m _ _ (ap not lk) (laws.try_any m.raw_mutex al)
      without-Acts (try_for d h) m al lk =
          tried-Acts h m _ _ (ap not lk) (laws.for_any d m.raw_mutex al)
      without-Acts (try_until t h) m al lk =
          tried-Acts h m _ _ (ap not lk) (laws.until_any t m.raw_mutex al)
      without-Acts drops m al lk = stands _ al lk
      without-Acts drops_fair m al lk = stands _ al lk
      without-Acts bumps m al lk = stands _ al lk
      without-Acts (writes value) m al lk = stands _ al lk
      without-Acts (runs_unlocked fair) m al lk = stands _ al lk

      with-Acts :
          (op : GuardOp T) (g : Handle) (m : Mutex S T)
          → IsAlone m.raw_mutex
          → raw.is_locked m.raw_mutex ≡ true
          → Acts (with_guard op g m)
      unfolding unlock_fair bump unlocked unlocked_fair
      with-Acts (lock_by h) g m al lk = stands _ al lk
      with-Acts (await_by h) g m al lk = stands _ al lk
      with-Acts (try_by h) g m al lk = stands _ al lk
      with-Acts (try_for d h) g m al lk = stands _ al lk
      with-Acts (try_until t h) g m al lk = stands _ al lk
      with-Acts drops g m al lk = dropped-Acts g m al lk
      with-Acts drops_fair g m al lk =
          after_leaving raw IsAlone (λ o. Acts (left_with none (on_raw raw o m)))
            (λ s al' lk'. stands _ al' lk') (laws.fair_held m.raw_mutex al lk)
      with-Acts bumps g m al lk =
          after_leaving raw IsAlone (λ o. Acts (left_with (some g) (on_raw raw o m)))
            (λ s al' lk'. stands _ al' lk') (laws.bump_held m.raw_mutex al lk)
      with-Acts (writes value) g m al lk = stands _ al lk
      with-Acts (runs_unlocked false) g m al lk =
          unlocked-Acts g m _ (laws.unlock_held m.raw_mutex al lk)
      with-Acts (runs_unlocked true) g m al lk =
          unlocked-Acts g m _ (laws.fair_held m.raw_mutex al lk)

      act-Acts : (op : GuardOp T) (c : Client S T) → Agrees c → Acts (act op c)
      act-Acts op c a = by_case c.guard c.mutex a.alone a.agrees
        where
          by_case :
              (g : Option Handle) (m : Mutex S T)
              → IsAlone m.raw_mutex
              → raw.is_locked m.raw_mutex ≡ has_guard g
              → Acts (by_guard op g m)
          by_case none m al lk = without-Acts op m al lk
          by_case (some g) m al lk = with-Acts op g m al lk

      acted-Acts :
          (ops : List (GuardOp T)) (o : Option (Client S T)) → Acts o → Acts (act_all ops o)
      acted-Acts ops none (c, e, a) = cc
      acted-Acts [] (some c) acts = acts
      acted-Acts (op ∷ ops) (some c) (c', e, a) =
          acted-Acts ops (act op c) (act-Acts op c (subst Agrees (sym (of_some e)) a))

      -- Over any raw lock with the laws of RawLaws, a client with at most one guard that locks,
      -- awaits the lock, tries, drops, unlocks fairly, bumps, writes and runs closures that look
      -- at the mutex unlocked, in any order, never panics or waits without end, and after every
      -- sequence the lock is held exactly when the client has a guard, if it was so at the start.
      pub guards_balanced :
          (ops : List (GuardOp T)) (c : Client S T)
          → Agrees c
          → (c' : Client S T) × (act_all ops (some c) ≡ some c') × Agrees c'
      guards_balanced ops c a = acted-Acts ops (some c) (c, refl, a)
