-- ===== src/Mutex/Raw.antt =====
-- The operations of `RawMutex` that `Mutex<T>` and its guards call, and what they rely on when
-- no other thread is at the lock. In an operation, `none` is a panic or a wait without end.
use colock.Base.{ℕ, ◌≡◌, Bool, true, false, not, Option, some, subst, sym}

pub record RawLock (S : Type 0) : Type 0 where
  pub new : S
  pub lock : S → Option S
  pub lock_async : S → Option S  -- awaited to its end
  pub try_lock : S → Option (Bool × S)
  pub try_lock_for : (duration : ℕ) → S → Option (Bool × S)
  pub try_lock_until : (timeout : ℕ) → S → Option (Bool × S)
  pub unlock : S → Option S
  pub unlock_fair : S → Option S
  pub bump : S → Option S
  pub is_locked : S → Bool

module _ {S : Type 0} (raw : RawLock S) (IsAlone : S → Type 0) where
  -- The operation returns a lock in the given state.
  abbrev pub Leaves : Option S → Bool → Type 0
  Leaves o locked = (s : S) × (o ≡ some s) × IsAlone s × (raw.is_locked s ≡ locked)

  -- It returns whether the lock was free, and leaves it locked.
  abbrev pub Tries : Option (Bool × S) → Bool → Type 0
  Tries o free = (s : S) × (o ≡ some (free, s)) × IsAlone s × (raw.is_locked s ≡ true)

  pub record RawLaws : Type 0 where
    pub new_free : IsAlone raw.new × (raw.is_locked raw.new ≡ false)
    pub lock_free : (s : S) → IsAlone s → raw.is_locked s ≡ false → Leaves (raw.lock s) true
    pub async_free : (s : S) → IsAlone s → raw.is_locked s ≡ false → Leaves (raw.lock_async s) true
    pub try_any : (s : S) → IsAlone s → Tries (raw.try_lock s) (not (raw.is_locked s))
    pub for_any : (d : ℕ) (s : S) → IsAlone s → Tries (raw.try_lock_for d s) (not (raw.is_locked s))
    pub until_any :
        (t : ℕ) (s : S) → IsAlone s → Tries (raw.try_lock_until t s) (not (raw.is_locked s))
    pub unlock_held : (s : S) → IsAlone s → raw.is_locked s ≡ true → Leaves (raw.unlock s) false
    pub fair_held : (s : S) → IsAlone s → raw.is_locked s ≡ true → Leaves (raw.unlock_fair s) false
    pub bump_held : (s : S) → IsAlone s → raw.is_locked s ≡ true → Leaves (raw.bump s) true

  pub after_leaving :
      {o : Option S} {locked : Bool} (P : Option S → Type 0)
      → ((s : S) → IsAlone s → raw.is_locked s ≡ locked → P (some s))
      → Leaves o locked
      → P o
  after_leaving P each (s, e, al, lk) = subst P (sym e) (each s al lk)

  pub after_trying :
      {o : Option (Bool × S)} {free : Bool} (P : Option (Bool × S) → Type 0)
      → ((s : S) → IsAlone s → raw.is_locked s ≡ true → P (some (free, s)))
      → Tries o free
      → P o
  after_trying P each (s, e, al, lk) = subst P (sym e) (each s al lk)
