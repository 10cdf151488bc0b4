-- ===== src/Examples/Park.antt =====
-- Parkers and wakers at concrete inputs.
use colock.RawMutex.Deadline.{lock_inner, losing, instant, duration, deadline_restarts}
use colock.Base.{
  ◌+◌, arith, ◌≡◌, ◌⊎◌, refl, Bool, true, false, some, none, List, [], ◌∷◌, ◌++◌, map,
}
use colock.Parking.{
  World, Waker, Round, waker, async_waker, new_task_unattached, prepare_park, signal_of, unpark,
  wake_task, park_until, park_for, park, wake,
}
use colock.Parking.Laws.{
  Outcome, park_until-Outcome, AllDown, park-cases, wake_each, wakes, prepared_wakes,
}

abbrev two_rounds : List Round
two_rounds = record { now = 1; seen = false } ∷ record { now = 3; seen = true } ∷ []

park_until-Outcome_example : Outcome 5 two_rounds (park_until 5 two_rounds)
park_until-Outcome_example = park_until-Outcome 5 two_rounds

-- The flag counts while there is time left, and not after.
park_until_runs :
    (park_until 5 two_rounds ≡ some true)
    × (park_until 2 two_rounds ≡ some false)
    × (park_for 0 9 (record { now = 1; seen = false } ∷ []) ≡ none)
unfolding park_until park_for
park_until_runs = (refl, refl, refl)

abbrev three_loads : List Bool
three_loads = false ∷ true ∷ false ∷ []

second_load_up :
    (AllDown three_loads × (park three_loads ≡ none))
    ⊎ ((before : List Bool) × (after : List Bool) × (three_loads ≡ before ++ true ∷ after)
        × AllDown before
        × (park three_loads ≡ some after))
second_load_up = park-cases three_loads

abbrev some_wakers : List Waker
some_wakers = new_task_unattached 9 ∷ async_waker 4 8 ∷ waker 3 7 ∷ []

abbrev quiet_world : World
quiet_world = record { should_wakeup = λ _. false; signals = [] }

prepared_wakes_example :
    ((wake_each some_wakers (prepare_park 4 quiet_world)).should_wakeup 4
      ≡ wakes 4 false some_wakers)
    × ((wake_each some_wakers (prepare_park 4 quiet_world)).signals
        ≡ [] ++ map (λ k. signal_of k.inner) some_wakers)
prepared_wakes_example = prepared_wakes 4 some_wakers quiet_world

some_wakers_signal :
    (wake_each some_wakers (prepare_park 4 quiet_world)).signals
    ≡ wake_task 9 ∷ wake_task 8 ∷ unpark 7 ∷ []
unfolding wake
some_wakers_signal = refl

deadline_restarts_example :
    (lock_inner (some (duration 5)) (losing 1 5 3) ≡ none)
    × (lock_inner (some (instant (1 + 5))) (losing 1 5 5) ≡ some false)
deadline_restarts_example = deadline_restarts 5 1 3 (omega arith)
