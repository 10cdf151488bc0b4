-- ===== src/Examples/Rounds.antt =====
-- Runs of two threads at a barrier, and its theorems at the states that they come to.
use colock.Base.{
  ℕ, zero, suc, ◌≡◌, ◌≢◌, ◌≤◌, ◌<◌, ◌*◌, refl, Option, none, some, List, [], ◌∷◌, arith, length,
  subst, of_some,
}
use colock.Intrusive.Heap.{node_at, set_next, set_prev, set_list, set_data, set_on_list}
use colock.Intrusive.Defs.{
  push_head, link_head, pop_head, take_node, take_data, remove_node, unlink, unlink_head,
  unlink_tail, unlink_middle,
}
use colock.Intrusive.Concurrent.{drop_node}
use colock.Barrier.Threads.{
  outside, faulted, Threads, init, start, Reach, call, arrive, lead, leave, step,
}
use colock.Barrier.Threads.Schedule.{next_state, all_steps, all_steps-Reach}
use colock.Barrier.Threads.Safety.{CanStep, barrier_rounds, barrier_progress}
use colock.Barrier.Threads.Bound.{steps_inside, barrier_bound}

abbrev come_to : Option Threads → Threads
come_to none = init
come_to (some s) = s

-- Thread 0 waits on the list, and thread 1 has called.
abbrev both_in : Threads
both_in = come_to (all_steps 2 9 (0 ∷ 0 ∷ 1 ∷ []) (some init))

-- Thread 1 leads, and thread 0, woken, calls again before the leader returns.
abbrev next_round : Threads
next_round = come_to (all_steps 2 9 (0 ∷ 0 ∷ 1 ∷ 1 ∷ 1 ∷ 0 ∷ 0 ∷ []) (some init))

from_init : (s : Threads) → some init ≡ some s → Reach 2 9 s
from_init s e = subst (Reach 2 9) (of_some e) start

both_in-Reach : Reach 2 9 both_in
unfolding next_state step call arrive push_head link_head node_at set_list
both_in-Reach = all_steps-Reach 2 9 (0 ∷ 0 ∷ 1 ∷ []) (some init) both_in from_init refl

next_round-Reach : Reach 2 9 next_round
unfolding next_state step call arrive lead leave drop_node push_head link_head pop_head take_node
    take_data remove_node unlink unlink_head unlink_tail unlink_middle node_at set_next set_prev
    set_list set_data set_on_list
next_round-Reach =
    all_steps-Reach 2 9 (0 ∷ 0 ∷ 1 ∷ 1 ∷ 1 ∷ 0 ∷ 0 ∷ []) (some init) next_round from_init refl

barrier_rounds_example :
    (next_round.place 0 ≢ faulted)
    × (next_round.done 0 ≤ next_round.began 1)
    × (((k : ℕ) → next_round.place k ≡ outside) → next_round.done 0 ≡ next_round.leaders)
barrier_rounds_example =
    barrier_rounds (omega arith) (omega arith) next_round-Reach 0 1 (omega arith) (omega arith)

both_inside : (i : ℕ) → i < 2 → both_in.place i ≢ outside
unfolding next_state step call arrive push_head link_head node_at set_list
both_inside zero lt = λ e. cc
both_inside (suc zero) lt = λ e. cc
both_inside (suc (suc i)) lt = absurd (omega arith)

barrier_progress_example : (j : ℕ) × (j < 2) × CanStep 2 9 both_in j
barrier_progress_example = barrier_progress (omega arith) (omega arith) both_in-Reach both_inside

-- Both return.
abbrev way_out : List ℕ
way_out = 1 ∷ 1 ∷ 1 ∷ 0 ∷ []

abbrev both_out : Threads
both_out = come_to (steps_inside 2 9 way_out (some both_in))

both_out_reached : steps_inside 2 9 way_out (some both_in) ≡ some both_out
unfolding next_state step call arrive lead leave drop_node push_head link_head pop_head take_node
    take_data remove_node unlink unlink_head unlink_tail unlink_middle node_at set_next set_prev
    set_list set_data set_on_list
both_out_reached = refl

both_out_counts : (both_out.done 0 ≡ 1) × (both_out.done 1 ≡ 1) × (both_out.leaders ≡ 1)
unfolding next_state step call arrive lead leave drop_node push_head link_head pop_head take_node
    take_data remove_node unlink unlink_head unlink_tail unlink_middle node_at set_next set_prev
    set_list set_data set_on_list
both_out_counts = (refl, refl, refl)

barrier_bound_example : length way_out ≤ 3 * 2
barrier_bound_example =
    barrier_bound 2 9 (omega arith) (omega arith) both_in both_out way_out both_in-Reach
      both_out_reached
