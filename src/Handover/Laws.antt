-- ===== src/Handover/Laws.antt =====
-- What the threads of `it_works_threaded` need of a lock.
use colock.Base.{◌⊎◌, Bool, ℕ, ◌≡◌, ◌≢◌, true, false, some}
use colock.Counter.Exclusive.{Ask}
use colock.Handover.{Where, resting, entering, leaving, owning, WatchedLock}

-- A lock's readings say what they should: the owner has it locked, it is free with all threads at
-- rest, and a waiter is in a call of `lock`.
pub record Watched {S : Type 0} (lock : WatchedLock S) (IsGood : S → Type 0) : Type 0 where
  pub good_init : IsGood lock.init
  pub good_step : (i : ℕ) (a : Ask) (s t : S) → IsGood s → lock.step i a s ≡ some t → IsGood t
  pub first : (j : ℕ) → lock.place lock.init j ≡ resting
  pub others_keep :
      (i : ℕ) (a : Ask) (s t : S)
      → lock.step i a s ≡ some t
      → (j : ℕ) → j ≢ i
      → lock.place t j ≡ lock.place s j
  pub owner_locked :
      (s : S) → IsGood s → (i : ℕ) → lock.place s i ≡ owning → lock.is_locked s ≡ true
  pub rest_free :
      (s : S) → IsGood s → ((i : ℕ) → lock.place s i ≡ resting) → lock.is_locked s ≡ false
  pub waiter_calls :
      (s : S) → IsGood s → lock.has_waiter s ≡ true → (j : ℕ) × (lock.place s j ≡ entering)

abbrev pub enters : Where → Bool
enters entering = true
enters owning = true
enters _ = false

abbrev pub leaves : Where → Bool
leaves leaving = true
leaves resting = true
leaves _ = false

-- In a call.
abbrev pub is_busy : Where → Bool
is_busy entering = true
is_busy leaving = true
is_busy _ = false

-- A lock goes on: `lock` ends with the lock and `unlock` without it, both can begin, and while a
-- thread is in a call some call can take a step, or a thread has the lock and another waits for it.
pub record Lively {S : Type 0} (lock : WatchedLock S) (IsGood : S → Type 0) : Type 0 where
  pub one_owner :
      (s : S) → IsGood s → (i j : ℕ) → lock.place s i ≡ owning → lock.place s j ≡ owning → i ≡ j
  pub lock_enters :
      (i : ℕ) (s t : S) → lock.step i Ask.lock s ≡ some t → enters (lock.place t i) ≡ true
  pub unlock_leaves :
      (i : ℕ) (s t : S) → lock.step i Ask.unlock s ≡ some t → leaves (lock.place t i) ≡ true
  pub still_enters :
      (i : ℕ) (s t : S)
      → IsGood s
      → enters (lock.place s i) ≡ true
      → lock.step i Ask.run s ≡ some t
      → enters (lock.place t i) ≡ true
  pub still_leaves :
      (i : ℕ) (s t : S)
      → IsGood s
      → leaves (lock.place s i) ≡ true
      → lock.step i Ask.run s ≡ some t
      → leaves (lock.place t i) ≡ true
  pub can_lock :
      (i : ℕ) (s : S)
      → IsGood s
      → lock.place s i ≡ resting
      → (t : S) × (lock.step i Ask.lock s ≡ some t)
  pub can_unlock :
      (i : ℕ) (s : S)
      → IsGood s
      → lock.place s i ≡ owning
      → (t : S) × (lock.step i Ask.unlock s ≡ some t)
  pub someone :
      (s : S)
      → IsGood s
      → (i : ℕ) → is_busy (lock.place s i) ≡ true
      → ((j : ℕ) × (is_busy (lock.place s j) ≡ true) × (t : S) × (lock.step j Ask.run s ≡ some t))
        ⊎ (((j : ℕ) × (lock.place s j ≡ owning)) × (lock.has_waiter s ≡ true))
