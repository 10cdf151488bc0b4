-- ===== src/Mutex/Guard.antt =====
-- colock/src/mutex/mod.rs and guard.rs: the operations of `Mutex<T>` and of its two guards.
-- A guard is how it refers to its mutex.
use colock.Base.{ℕ, ◌+◌, ◌-◌, Bool, true, false, Option, none, some}
use colock.Mutex.Raw.{RawLock}

-- `&Mutex<T>` and `Arc<Mutex<T>>`
pub data Handle : Type 0 where
  by_ref by_arc : Handle

-- With the strong count of the `Arc` that the mutex is in.
pub record Mutex (S T : Type 0) : Type 0 where
  pub raw_mutex : S
  pub data_cell : T
  pub strong : ℕ

module _ {S T : Type 0} (raw : RawLock S) where
  abbrev pub from_raw : S → T → Mutex S T
  from_raw s value = record { raw_mutex = s; data_cell = value; strong = 1 }

  abbrev pub new : T → Mutex S T
  new value = from_raw raw.new value

  abbrev pub into_inner : Mutex S T → T
  into_inner m = m.data_cell

  abbrev pub is_locked : Mutex S T → Bool
  is_locked m = raw.is_locked m.raw_mutex

  -- `make_guard` and `make_arc_guard`; the latter clones the `Arc`.
  abbrev pub make_guard : Handle → Mutex S T → (Handle × Mutex S T)
  make_guard by_ref m = (by_ref, m)
  make_guard by_arc m = (by_arc, record m { strong = m.strong + 1 })

  abbrev pub on_raw : Option S → Mutex S T → Option (Mutex S T)
  on_raw none m = none
  on_raw (some s) m = some (record m { raw_mutex = s })

  abbrev pub guard_after : Handle → Option (Mutex S T) → Option (Handle × Mutex S T)
  guard_after h none = none
  guard_after h (some m) = some (make_guard h m)

  -- `lock` and `lock_arc`
  unfoldable pub lock : Handle → Mutex S T → Option (Handle × Mutex S T)
  lock h m = guard_after h (on_raw (raw.lock m.raw_mutex) m)

  -- `lock_async` and `lock_async_arc`
  unfoldable pub lock_async : Handle → Mutex S T → Option (Handle × Mutex S T)
  lock_async h m = guard_after h (on_raw (raw.lock_async m.raw_mutex) m)

  -- `bool::then`
  abbrev pub then_guard :
      Handle → Mutex S T → Option (Bool × S) → Option (Option Handle × Mutex S T)
  then_guard h m none = none
  then_guard h m (some (false, s)) = some (none, record m { raw_mutex = s })
  then_guard h m (some (true, s)) =
      let (g, m') = make_guard h (record m { raw_mutex = s }) in some (some g, m')

  -- `try_lock` and `try_lock_arc`
  unfoldable pub try_lock : Handle → Mutex S T → Option (Option Handle × Mutex S T)
  try_lock h m = then_guard h m (raw.try_lock m.raw_mutex)

  unfoldable pub try_lock_until : Handle → ℕ → Mutex S T → Option (Option Handle × Mutex S T)
  try_lock_until h timeout m = then_guard h m (raw.try_lock_until timeout m.raw_mutex)

  unfoldable pub try_lock_for : Handle → ℕ → Mutex S T → Option (Option Handle × Mutex S T)
  try_lock_for h duration m = then_guard h m (raw.try_lock_for duration m.raw_mutex)

  abbrev pub force_unlock : Mutex S T → Option (Mutex S T)
  force_unlock m = on_raw (raw.unlock m.raw_mutex) m

  abbrev pub force_unlock_fair : Mutex S T → Option (Mutex S T)
  force_unlock_fair m = on_raw (raw.unlock_fair m.raw_mutex) m

  -- The field `mutex` of a guard goes after `drop` has run.
  abbrev pub drop_handle : Handle → Mutex S T → Mutex S T
  drop_handle by_ref m = m
  drop_handle by_arc m = record m { strong = m.strong - 1 }

  abbrev pub after_drop : Handle → Option (Mutex S T) → Option (Mutex S T)
  after_drop h none = none
  after_drop h (some m) = some (drop_handle h m)

  unfoldable pub drop_guard : Handle → Mutex S T → Option (Mutex S T)
  drop_guard h m = after_drop h (force_unlock m)

  -- The guard is forgotten, with its handle.
  unfoldable pub unlock_fair : Handle → Mutex S T → Option (Mutex S T)
  unlock_fair h m = force_unlock_fair m

  abbrev pub leak : Handle → Mutex S T → (T × Mutex S T)
  leak h m = (m.data_cell, m)

  abbrev pub deref : Mutex S T → T
  deref m = m.data_cell

  -- What is stored through `deref_mut`.
  abbrev pub deref_mut : T → Mutex S T → Mutex S T
  deref_mut value m = record m { data_cell = value }

  -- What is stored through `get_mut`, by who has the mutex to itself.
  abbrev pub get_mut : T → Mutex S T → Mutex S T
  get_mut value m = record m { data_cell = value }

  unfoldable pub bump : Mutex S T → Option (Mutex S T)
  bump m = on_raw (raw.bump m.raw_mutex) m

  abbrev pub relock : {U : Type 0} → Option (U × Mutex S T) → Option (U × Mutex S T)
  relock none = none
  relock (some (result, m)) = elim (on_raw (raw.lock m.raw_mutex) m) [
    | none ↦ none
    | some m' ↦ some (result, m')
  ]

  abbrev pub call_with :
      {U : Type 0}
      → (Mutex S T → Option (U × Mutex S T))
      → Option (Mutex S T)
      → Option (U × Mutex S T)
  call_with f none = none
  call_with f (some m) = f m

  -- `unlocked` and `unlocked_fair`: what `f` does to the mutex is its own.
  unfoldable pub unlocked :
      {U : Type 0} → (Mutex S T → Option (U × Mutex S T)) → Mutex S T → Option (U × Mutex S T)
  unlocked f m = relock (call_with f (force_unlock m))

  unfoldable pub unlocked_fair :
      {U : Type 0} → (Mutex S T → Option (U × Mutex S T)) → Mutex S T → Option (U × Mutex S T)
  unlocked_fair f m = relock (call_with f (force_unlock_fair m))
