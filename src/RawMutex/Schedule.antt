-- ===== src/RawMutex/Schedule.antt =====
-- Runs of the mutex by evaluation: which thread moves next, and what it does.
use colock.Base.{
  ℕ, ◌≡◌, refl, Bool, true, ◌&&◌, Option, none, some, List, [], ◌∷◌, arith, update, subst, of_some,
}
use colock.RawMutex.Thread.{Action, advance, Next}
use colock.RawMutex.System.{System, Usage, allows, move, Reach, later}

abbrev pub moves_to : System → ℕ → Next → Option System
moves_to s i none = none
moves_to s i (some (m, p)) = some (record { shared = m; pc = update s.pc i p })

unfoldable pub step_of : ℕ → Action → System → Option System
step_of i a s = moves_to s i (advance i a (s.pc i) s.shared)

abbrev pub then_run : Option System → (System → Option System) → Option System
then_run none k = none
then_run (some s) k = k s

unfoldable pub run_all : List (ℕ × Action) → System → Option System
run_all [] s = some s
run_all ((i, a) ∷ rest) s = then_run (step_of i a s) (run_all rest)

abbrev pub all_allowed : Usage → List (ℕ × Action) → Bool
all_allowed u [] = true
all_allowed u ((i, a) ∷ rest) = allows u a && all_allowed u rest

pub step_of-Reach :
    {u : Usage} {s : System} (i : ℕ) (a : Action) (t : System)
    → Reach u s
    → allows u a ≡ true
    → step_of i a s ≡ some t
    → Reach u t
unfolding step_of
step_of-Reach {u} {s} i a t r al h = split (advance i a (s.pc i) s.shared) refl h
  where
    split : (n : Next) → advance i a (s.pc i) s.shared ≡ n → moves_to s i n ≡ some t → Reach u t
    split none e h' = cc
    split (some (m, p)) e h' = subst (Reach u) (of_some h') (later r (move i a al e))

-- What a schedule comes to can be reached.
pub run_all-Reach :
    {u : Usage} (sched : List (ℕ × Action)) (s t : System)
    → Reach u s
    → all_allowed u sched ≡ true
    → run_all sched s ≡ some t
    → Reach u t
unfolding run_all
run_all-Reach {u} [] s t r al h = subst (Reach u) (of_some h) r
run_all-Reach {u} ((i, a) ∷ rest) s t r al h =
    split (step_of i a s) refl h (λ s' r' h'. run_all-Reach rest s' t r' (ground arith) h')
  where
    split :
        (o : Option System)
        → step_of i a s ≡ o
        → then_run o (run_all rest) ≡ some t
        → ((s' : System) → Reach u s' → run_all rest s' ≡ some t → Reach u t)
        → Reach u t
    split none e h' ih = cc
    split (some s') e h' ih = ih s' (step_of-Reach i a s' r (ground arith) e) h'
