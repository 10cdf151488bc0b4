-- ===== src/RawMutex/Tasks/Schedule.antt =====
-- Runs of tasks by evaluation.
use colock.Base.{
  ℕ, ◌≡◌, refl, Bool, Option, none, some, List, [], ◌∷◌, if◌then◌else◌, Bool-cases, inl, inr,
}
use colock.RawMutex.Tasks.{Tasks, Act, act_at, lets, TaskReach, act, later}

unfoldable pub task_step : Bool → ℕ → Act → Tasks → Option Tasks
task_step c i a t = if lets c a (t.shared.flags i) then act_at i a (t.task i) t else none

abbrev pub all_acts : Bool → List (ℕ × Act) → Option Tasks → Option Tasks
all_acts c _ none = none
all_acts c [] (some t) = some t
all_acts c ((i, a) ∷ acts) (some t) = all_acts c acts (task_step c i a t)

task_step-TaskReach :
    {c : Bool} {t : Tasks} (i : ℕ) (a : Act) (u : Tasks)
    → TaskReach c t
    → task_step c i a t ≡ some u
    → TaskReach c u
unfolding task_step
task_step-TaskReach {c} {t} i a u r h = elim (Bool-cases (lets c a (t.shared.flags i))) [
  | inl l ↦ later r (act i a l (rw l at h))
  | inr l ↦ cc (rw l at h)
]

pub all_acts-TaskReach :
    {c : Bool} (acts : List (ℕ × Act)) (o : Option Tasks) (u : Tasks)
    → ((t : Tasks) → o ≡ some t → TaskReach c t)
    → all_acts c acts o ≡ some u
    → TaskReach c u
all_acts-TaskReach acts none u r h = cc
all_acts-TaskReach [] (some t) u r h = r u h
all_acts-TaskReach {c} ((i, a) ∷ acts) (some t) u r h =
    all_acts-TaskReach acts (task_step c i a t) u (λ v e. task_step-TaskReach i a v (r t refl) e) h
