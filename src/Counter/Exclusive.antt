-- ===== src/Counter/Exclusive.antt =====
-- What a client needs of a lock that many threads use at once.
use colock.Base.{ℕ, ◌≡◌, ◌≢◌, Bool, true, Option, some}

-- `step i a` is one step of thread `i`, a call or what its code does next; `none` where it waits.
pub data Ask : Type 0 where
  lock unlock run : Ask

pub record SharedLock (S : Type 0) : Type 0 where
  pub init : S
  pub step : ℕ → Ask → S → Option S
  pub owns : S → ℕ → Bool

pub record IsExclusive {S : Type 0} (lock : SharedLock S) (IsGood : S → Type 0) : Type 0 where
  pub good_init : IsGood lock.init
  pub good_step : (i : ℕ) (a : Ask) (s t : S) → IsGood s → lock.step i a s ≡ some t → IsGood t
  pub one_owner :
      (s : S) → IsGood s → (i j : ℕ) → lock.owns s i ≡ true → lock.owns s j ≡ true → i ≡ j
  pub others_keep :
      (i : ℕ) (a : Ask) (s t : S)
      → lock.step i a s ≡ some t
      → (j : ℕ) → j ≢ i
      → lock.owns t j ≡ lock.owns s j
  pub run_keeps :
      (i : ℕ) (s t : S) → lock.step i run s ≡ some t → lock.owns s i ≡ true → lock.owns t i ≡ true
