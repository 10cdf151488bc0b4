-- ===== src/Examples/Count.antt =====
-- Two threads that count under each lock.
use colock.Base.{
  zero, suc, ℕ, ◌+◌, ◌*◌, ◌<◌, ◌≡◌, refl, Option, none, some, List, [], ◌∷◌, ◌++◌, arith, update,
}
use colock.RawMutex.Thread.{
  advance, first_try, next_try, enter_queue, should_sleep, wake_up, after_park, start_unlock,
  pop_sleeper, wake_sleeper, clear_waiting,
}
use colock.RawMutex.Queue.{pop_last}
use colock.RawMutex.System.{System, plain, Reach}
use colock.RawMutex.Schedule.{step_of}
use colock.MiniLock.Thread as Mini
use colock.MiniLock.System as MiniSystem
use colock.MiniLock.Schedule.{one_step}
use colock.Counter.Exclusive.{SharedLock}
use colock.Counter.Client.{
  Move, begin, work, read, write, finish, Client, start, loaded, stored, at_phase, move_one,
  move_all,
}
use colock.Counter.Sum.{lots_and_lots, write_fits}
use colock.Counter.Locks.{raw_lock, raw_lock-IsExclusive, mini_lock}

abbrev works : ℕ → ℕ → List (ℕ × Move)
works i zero = []
works i (suc n) = (i, work) ∷ works i n

-- Thread 0 reads, 1 goes to sleep, and 0 has still to write.
abbrev raw_half : List (ℕ × Move)
raw_half = (0, begin) ∷ (0, work) ∷ (0, read) ∷ (1, begin) ∷ works 1 7

abbrev raw_moves : List (ℕ × Move)
raw_moves =
    raw_half
    ++ ((0, write) ∷ (0, finish) ∷ (0, work) ∷ (0, work) ∷ (0, work) ∷ [])
    ++ works 1 3
    ++ ((1, read) ∷ (1, write) ∷ (1, finish) ∷ [])

abbrev pub ended : {S : Type 0} → SharedLock S → Option (Client S) → Client S
ended lock none = start lock 0
ended lock (some c) = c

abbrev raw_ended : List (ℕ × Move) → Client System
raw_ended moves = ended raw_lock (move_all raw_lock 2 moves (some (start raw_lock 1)))

raw_reached :
    (move_all raw_lock 2 raw_moves (some (start raw_lock 1)) ≡ some (raw_ended raw_moves))
    × (move_all raw_lock 2 raw_half (some (start raw_lock 1)) ≡ some (raw_ended raw_half))
    × ((raw_ended raw_half).phase 0 ≡ loaded 0)
unfolding move_one at_phase step_of advance first_try next_try enter_queue should_sleep wake_up
    after_park start_unlock pop_sleeper wake_sleeper clear_waiting pop_last
raw_reached = (refl, refl, refl)

raw_all_done : (i : ℕ) → i < 2 → (raw_ended raw_moves).todo i ≡ 0
unfolding move_one at_phase step_of advance first_try next_try enter_queue should_sleep wake_up
    after_park start_unlock pop_sleeper wake_sleeper clear_waiting pop_last
raw_all_done zero lt = refl
raw_all_done (suc zero) lt = refl
raw_all_done (suc (suc i)) lt = absurd (omega arith)

raw_counts : (raw_ended raw_moves).value ≡ 2 * 1
raw_counts =
    lots_and_lots raw_lock (Reach plain) raw_lock-IsExclusive 1 2 raw_moves (raw_ended raw_moves)
      raw_reached.0 raw_all_done

half_way_fits :
    move_one raw_lock 2 0 write (raw_ended raw_half)
    ≡ some (record (raw_ended raw_half) {
      value = (raw_ended raw_half).value + 1;
      phase = update (raw_ended raw_half).phase 0 stored;
    })
half_way_fits =
    write_fits raw_lock (Reach plain) raw_lock-IsExclusive 1 2 raw_half (raw_ended raw_half)
      raw_reached.1 0 0 (omega arith) raw_reached.2 (omega arith)

-- On the small lock, one thread after the other.
abbrev mini_moves : List (ℕ × Move)
mini_moves =
    ((0, begin) ∷ (0, work) ∷ (0, read) ∷ (0, write) ∷ (0, finish) ∷ (0, work) ∷ [])
    ++ ((1, begin) ∷ (1, work) ∷ (1, read) ∷ (1, write) ∷ (1, finish) ∷ [])

abbrev mini_ended : Client MiniSystem.System
mini_ended = ended mini_lock (move_all mini_lock 2 mini_moves (some (start mini_lock 1)))

mini_counts : mini_ended.value ≡ 2
unfolding move_one at_phase one_step Mini.advance Mini.lock_first Mini.unlock_first
mini_counts = refl
