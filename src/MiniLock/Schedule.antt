-- ===== src/MiniLock/Schedule.antt =====
-- Runs of the small lock by evaluation.
use colock.Base.{ℕ, ◌≡◌, refl, Option, none, some, List, [], ◌∷◌, update, subst, of_some}
use colock.MiniLock.Thread.{Action, advance, Next}
use colock.MiniLock.System.{System, move, Reach, later}

abbrev pub after_next : System → ℕ → Next → Option System
after_next s i none = none
after_next s i (some (m, p)) = some (record { shared = m; pc = update s.pc i p })

unfoldable pub one_step : ℕ → Action → System → Option System
one_step i a s = after_next s i (advance i a (s.pc i) s.shared)

abbrev pub go_on : List (ℕ × Action) → Option System → Option System
go_on _ none = none
go_on [] (some s) = some s
go_on ((i, a) ∷ rest) (some s) = go_on rest (one_step i a s)

pub one_step-Reach :
    {s : System} (i : ℕ) (a : Action) (t : System) → Reach s → one_step i a s ≡ some t → Reach t
unfolding one_step
one_step-Reach {s} i a t r h = by_next (advance i a (s.pc i) s.shared) refl h
  where
    by_next : (n : Next) → advance i a (s.pc i) s.shared ≡ n → after_next s i n ≡ some t → Reach t
    by_next none e h' = cc
    by_next (some (m, p)) e h' = subst Reach (of_some h') (later r (move i a e))

-- What a run ends in can be reached.
pub go_on-Reach :
    (moves : List (ℕ × Action)) (o : Option System) (t : System)
    → ((s : System) → o ≡ some s → Reach s)
    → go_on moves o ≡ some t
    → Reach t
go_on-Reach moves none t r h = cc
go_on-Reach [] (some s) t r h = r t h
go_on-Reach ((i, a) ∷ rest) (some s) t r h =
    go_on-Reach rest (one_step i a s) t (λ s' e. one_step-Reach i a s' (r s refl) e) h
