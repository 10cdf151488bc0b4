-- ===== src/RawMutex/System.antt =====
-- Any number of threads over one `RawMutex`, their atomic accesses interleaved in any order.
use colock.Base.{ℕ, ◌≡◌, Bool, true, false, some, update}
use colock.RawMutex.Thread.{Pc, idle, Shared, new, Action, advance}

pub record System : Type 0 where
  pub shared : Shared
  pub pc : ℕ → Pc

abbrev pub init : System
init = record { shared = new; pc = λ _. idle }

-- Which of the mutex's operations the clients use.
pub record Usage : Type 0 where
  pub timeouts : Bool
  pub fairness : Bool

-- `lock`, `try_lock` and `unlock` only.
abbrev pub plain : Usage
plain = record { timeouts = false; fairness = false }

abbrev pub allows : Usage → Action → Bool
allows u Action.expire = u.timeouts
allows u Action.unlock_fair = u.fairness
allows u _ = true

pub data Step (u : Usage) (s : System) : System → Type 0 where
  move :
      (i : ℕ) (a : Action) {m : Shared} {p : Pc}
      → allows u a ≡ true
      → advance i a (s.pc i) s.shared ≡ some (m, p)
      → Step u s (record { shared = m; pc = update s.pc i p })

-- The states that the threads can come to from a new mutex.
pub data Reach (u : Usage) : System → Type 0 where
  start : Reach u init
  later : {s t : System} → Reach u s → Step u s t → Reach u t
