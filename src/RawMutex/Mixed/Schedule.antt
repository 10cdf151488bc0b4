-- ===== src/RawMutex/Mixed/Schedule.antt =====
-- Runs of threads and tasks by evaluation: which of them moves next, and how.
use colock.Base.{
  ℕ, ◌≡◌, refl, Bool, true, Option, none, some, List, [], ◌∷◌, update, subst, of_some,
  if◌then◌else◌, Bool-cases, inl, inr,
}
use colock.RawMutex.System.{Usage}
use colock.RawMutex.Mixed.{Move, After, go, Mixed, lets, act, MixedReach, later}

abbrev pub placed : Mixed → ℕ → After → Option Mixed
placed s i none = none
placed s i (some (m, p)) = some (record { shared = m; place = update s.place i p })

unfoldable pub mixed_step : Usage → Bool → ℕ → Move → Mixed → Option Mixed
mixed_step u drops i v s = if lets u drops v then placed s i (go i v (s.place i) s.shared) else none

abbrev pub all_moves : Usage → Bool → List (ℕ × Move) → Option Mixed → Option Mixed
all_moves u drops _ none = none
all_moves u drops [] (some s) = some s
all_moves u drops ((i, v) ∷ moves) (some s) = all_moves u drops moves (mixed_step u drops i v s)

module _ {u : Usage} {drops : Bool} where
  placed-MixedReach :
      {s : Mixed} (i : ℕ) (v : Move) (t : Mixed) (o : After)
      → MixedReach u drops s
      → lets u drops v ≡ true
      → go i v (s.place i) s.shared ≡ o
      → placed s i o ≡ some t
      → MixedReach u drops t
  placed-MixedReach i v t none r al e h = cc
  placed-MixedReach i v t (some (m, p)) r al e h =
      subst (MixedReach u drops) (of_some h) (later r (act i v al e))

  pub mixed_step-MixedReach :
      {s : Mixed} (i : ℕ) (v : Move) (t : Mixed)
      → MixedReach u drops s
      → mixed_step u drops i v s ≡ some t
      → MixedReach u drops t
  unfolding mixed_step
  mixed_step-MixedReach {s} i v t r h = elim (Bool-cases (lets u drops v)) [
    | inl al ↦ placed-MixedReach i v t (go i v (s.place i) s.shared) r al refl (rw al at h)
    | inr no_move ↦ cc (rw no_move at h)
  ]

  pub all_moves-MixedReach :
      (moves : List (ℕ × Move)) (o : Option Mixed) (t : Mixed)
      → ((s : Mixed) → o ≡ some s → MixedReach u drops s)
      → all_moves u drops moves o ≡ some t
      → MixedReach u drops t
  all_moves-MixedReach moves none t r h = cc
  all_moves-MixedReach [] (some s) t r h = r t h
  all_moves-MixedReach ((i, v) ∷ moves) (some s) t r h =
      all_moves-MixedReach moves (mixed_step u drops i v s) t
        (λ s' e. mixed_step-MixedReach i v s' (r s refl) e) h
