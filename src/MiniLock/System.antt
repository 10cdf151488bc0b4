-- ===== src/MiniLock/System.antt =====
-- Any number of threads over one `RawMiniLock`, interleaved in any order.
use colock.Base.{ℕ, ◌≡◌, some, update}
use colock.MiniLock.Thread.{Pc, idle, Shared, new, Action, advance}

pub record System : Type 0 where
  pub shared : Shared
  pub pc : ℕ → Pc

abbrev pub init : System
init = record { shared = new; pc = λ _. idle }

pub data Step (s : System) : System → Type 0 where
  move :
      (i : ℕ) (a : Action) {m : Shared} {p : Pc}
      → advance i a (s.pc i) s.shared ≡ some (m, p)
      → Step s (record { shared = m; pc = update s.pc i p })

pub data Reach : System → Type 0 where
  start : Reach init
  later : {s t : System} → Reach s → Step s t → Reach t
