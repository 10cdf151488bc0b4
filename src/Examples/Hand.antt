-- ===== src/Examples/Hand.antt =====
-- Runs of `it_works_threaded_async`, with one iteration.
use colock.Base.{◌≡◌, ◌≢◌, refl, false, Option, none, some, List, [], ◌∷◌}
use colock.Handover.{
  Hand, Go, holder_works, holder_goes, tester_works, tester_goes, both_meet, finished, failed,
  begin, hand_steps, hand_step, holder_next, tester_next, works,
}
use colock.Handover.{WatchedLock, watching}
use colock.Base.{◌⊎◌, true}
use colock.Handover.Progress.{CanMove, never_stuck}
use colock.Handover.Due.{due_watched, due_watched-Watched, due_watched-Lively}
use colock.Handover.RawMutex.{by_futures, mutex_watched-Watched}
use colock.Handover.Safety.{assertions_hold}
use colock.RawMutex.Flags.{is_locked}
use colock.RawMutex.Mixed
use colock.RawMutex.Mixed.{poll_it, go, start_poll, take_queue, drop_node}
use colock.RawMutex.Mixed.Schedule.{mixed_step}
use colock.RawMutex.Queue.{pop_last, remove}
use colock.RawMutex.Thread.{
  advance, first_try, next_try, should_sleep, start_unlock, pop_sleeper, wake_sleeper,
  clear_waiting,
}

-- The tester is queued before the holder unlocks, and polled again when it is woken.
abbrev handed_over : List Go
handed_over =
    holder_goes ∷ holder_works ∷ holder_works ∷ holder_goes ∷ tester_goes ∷ both_meet ∷ tester_goes
    ∷ tester_works ∷ tester_works ∷ tester_works ∷ tester_works ∷ tester_works ∷ tester_works
    ∷ tester_works ∷ tester_works ∷ holder_goes ∷ holder_works ∷ holder_works ∷ holder_works
    ∷ holder_goes ∷ tester_works ∷ tester_works ∷ tester_works ∷ tester_goes ∷ tester_goes
    ∷ both_meet ∷ holder_goes ∷ tester_goes ∷ []

abbrev ended : Option (Hand Mixed.Mixed) → Hand Mixed.Mixed
ended none = begin by_futures 0
ended (some h) = h

abbrev at_end : Hand Mixed.Mixed
at_end = ended (hand_steps by_futures handed_over (some (begin by_futures 1)))

at_end_reached : hand_steps by_futures handed_over (some (begin by_futures 1)) ≡ some at_end
unfolding hand_step holder_next tester_next works mixed_step go take_queue drop_node advance
    first_try next_try should_sleep start_unlock pop_sleeper wake_sleeper clear_waiting pop_last
    remove
at_end_reached = refl

both_finished : (at_end.holder ≡ finished) × (at_end.tester ≡ finished)
unfolding hand_step holder_next tester_next works mixed_step go take_queue drop_node advance
    first_try next_try should_sleep start_unlock pop_sleeper wake_sleeper clear_waiting pop_last
    remove
both_finished = (refl, refl)

assertions_hold_example :
    (at_end.tester ≢ failed)
    × (at_end.holder ≡ finished
        → at_end.tester ≡ finished
        → is_locked at_end.sys.shared.state ≡ false)
assertions_hold_example =
    assertions_hold (mutex_watched-Watched (λ i. poll_it)) 1 handed_over at_end at_end_reached

-- The tester's future is queued, and the holder has the lock.
abbrev to_the_queue : List Go
to_the_queue =
    holder_goes ∷ holder_works ∷ holder_works ∷ holder_goes ∷ tester_goes ∷ both_meet ∷ tester_goes
    ∷ tester_works ∷ tester_works ∷ tester_works ∷ tester_works ∷ tester_works ∷ tester_works
    ∷ tester_works ∷ tester_works ∷ []

abbrev by_due : WatchedLock Mixed.Mixed
by_due = due_watched (λ i. true)

abbrev halfway : Hand Mixed.Mixed
halfway = ended (hand_steps by_due to_the_queue (some (begin by_due 1)))

halfway_reached : hand_steps by_due to_the_queue (some (begin by_due 1)) ≡ some halfway
unfolding hand_step holder_next tester_next works mixed_step go take_queue drop_node advance
    first_try next_try should_sleep start_unlock pop_sleeper wake_sleeper clear_waiting pop_last
    remove
halfway_reached = refl

halfway_queued : (halfway.sys.shared.queue ≡ 1 ∷ []) × (halfway.holder ≡ watching)
unfolding hand_step holder_next tester_next works mixed_step go take_queue drop_node advance
    first_try next_try should_sleep start_unlock pop_sleeper wake_sleeper clear_waiting pop_last
    remove
halfway_queued = (refl, refl)

never_stuck_example :
    CanMove by_due halfway ⊎ ((halfway.holder ≡ finished) × (halfway.tester ≡ finished))
never_stuck_example =
    never_stuck (due_watched-Watched (λ i. true)) (due_watched-Lively (λ i. true)) 1 to_the_queue
      halfway halfway_reached
