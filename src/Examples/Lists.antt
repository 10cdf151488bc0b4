-- ===== src/Examples/Lists.antt =====
-- The intrusive list and the barrier at concrete memories.
use colock.Base.{
  ◌⊎◌, if◌then◌else◌, ◌==◌, ◌+◌, ℕ, ◌≡◌, refl, false, none, some, List, [], ◌∷◌, ◌++◌, arith,
  update,
}
use colock.Intrusive.Heap.{
  NodeAction, retain, remove, ScanAction, continue, Ptr, Mem, ok, fault, ◌>>◌, node_at, set_data,
  set_on_list, set_next, set_prev,
}
use colock.Intrusive.Defs
use colock.Intrusive.Concurrent
use colock.Intrusive.Chain.{Cells, linked, list_of, IsList}
use colock.Intrusive.Returns.{Returns}
use colock.Intrusive.Push.{Pushed, push_head-on, push_tail-on}
use colock.Intrusive.Unlink.{Removed, remove_node-Removed}
use colock.Intrusive.Pop.{Popped, pop_head-Popped, pop_tail-Popped}
use colock.Intrusive.Dirty.{
  IsClean, Refused, flagged, popped, push_refuses_dirty, refused-drop-faults,
}
use colock.Intrusive.Concurrent.PopAll.{drain, Drained, pop_all-Drained}
use colock.Intrusive.Sweep.{sweep}
use colock.Intrusive.Scan.{Swept, scan-Swept}
use colock.Intrusive.Fifo.{push_each, fifo}
use colock.Intrusive.Early.{free, early_drop-faults}
use colock.Barrier.Arrive.{arrive_all, Round, arrive_all-Round}
use colock.Barrier.{wait, poll}
use colock.Barrier.Repoll.{WaitsAgain, poll_misses_round}
use colock.Barrier.Slot.{waiting}
use colock.Barrier.Stress.{stress_test_barrier_inner, Stressed, stress_test_barrier_inner-Stressed}
use colock.Barrier.Poller.{Turn, poll-Turn}

-- Three nodes: 1 and 2 linked in this order, 3 fresh.
abbrev outer : Ptr
outer = 9

abbrev two_cells : Cells ℕ
two_cells = (1, some 10) ∷ (2, some 20) ∷ []

abbrev two_linked : Mem (List ℕ) ℕ
two_linked = record {
  nodes =
      update
        (update (update (λ _. none) 1 (some (linked outer 0 2 (some 10)))) 2
          (some (linked outer 1 0 (some 20))))
        3 (some (Defs.new_node 30));
  inner = list_of two_cells;
  env = [];
}

two_linked-IsList : IsList outer two_linked two_cells
two_linked-IsList = record {
  inner = refl;
  chain = (omega arith, refl, refl, (omega arith, refl, refl, tt));
}

push_head-on_example :
    Returns
      (Pushed outer 3 two_linked ((3, some 30) ∷ two_cells))
      (Defs.push_head outer 3 two_linked)
push_head-on_example =
    push_head-on outer 3 30 two_linked (omega arith) refl two_cells two_linked-IsList (omega arith)

one_at_the_tail :
    Returns
      (Pushed outer 3 two_linked (two_cells ++ (3, some 30) ∷ []))
      (Defs.push_tail outer 3 two_linked)
one_at_the_tail =
    push_tail-on outer 3 30 two_linked (omega arith) refl two_cells two_linked-IsList (omega arith)

remove_node-Removed_example :
    Returns
      (λ _. Removed outer 2 (some 20) ((1, some 10) ∷ []) [] two_linked)
      (Defs.remove_node 2 two_linked)
remove_node-Removed_example =
    remove_node-Removed outer 2 (some 20) two_linked ((1, some 10) ∷ []) [] two_linked-IsList

pop_head-Popped_example :
    Returns (Popped outer 1 10 two_cells ((2, some 20) ∷ []) two_linked) (Defs.pop_head two_linked)
pop_head-Popped_example =
    pop_head-Popped outer 1 10 two_linked ((2, some 20) ∷ []) two_linked-IsList

tail_goes :
    Returns (Popped outer 2 20 two_cells ((1, some 10) ∷ []) two_linked) (Defs.pop_tail two_linked)
tail_goes = pop_tail-Popped outer 2 20 two_linked ((1, some 10) ∷ []) two_linked-IsList

-- The closure notes the data and the number of nodes left.
abbrev note : ℕ → ℕ → List ℕ → List ℕ
note d left e = e ++ d ∷ left ∷ []

pop_all-Drained_example :
    Returns
      (λ n m'. (n ≡ 2) × Drained outer note (λ e. e) ((2, 20) ∷ (1, 10) ∷ []) two_linked m')
      (Concurrent.pop_all note (λ e. e) two_linked)
pop_all-Drained_example =
    pop_all-Drained outer note (λ e. e) ((2, 20) ∷ (1, 10) ∷ []) two_linked two_linked-IsList

-- The tail goes first.
pop_all_order :
    Returns (λ n m'. m'.env ≡ 20 ∷ 1 ∷ 10 ∷ 0 ∷ []) (Concurrent.pop_all note (λ e. e) two_linked)
unfolding Concurrent.pop_all Concurrent.pop_all_loop Defs.pop_tail Defs.take_node Defs.take_data
    Defs.remove_node node_at set_data set_on_list set_next set_prev
pop_all_order = refl

-- A node of the list is refused, and a new one is not.
push_refuses_dirty_example :
    (IsClean {D = ℕ} (linked outer 0 2 (some 10))
      × Returns
          (Pushed outer 1 two_linked ((1, some 10) ∷ two_cells))
          (Defs.push_head outer 1 two_linked)
      × Returns
          (Pushed outer 1 two_linked (two_cells ++ (1, some 10) ∷ []))
          (Defs.push_tail outer 1 two_linked))
    ⊎ (¬ IsClean {D = ℕ} (linked outer 0 2 (some 10))
        × Refused outer 1
            (linked outer 0 2 (some 10))
            two_linked
            two_cells
            (Defs.push_head outer 1 two_linked)
        × Refused outer 1
            (linked outer 0 2 (some 10))
            two_linked
            two_cells
            (Defs.push_tail outer 1 two_linked))
push_refuses_dirty_example =
    push_refuses_dirty outer 1 (linked outer 0 2 (some 10)) two_linked two_cells (omega arith) refl
      two_linked-IsList 10 refl (omega arith)

refused-drop-faults_example :
    Returns
      (λ _ m'.
        Refused outer 1
          (popped outer ((2, some 20) ∷ []))
          m'
          ((2, some 20) ∷ [])
          (Defs.push_head outer 1 m')
        × (Concurrent.drop_node outer 1 (flagged 1 (popped outer ((2, some 20) ∷ [])) m') ≡ fault))
      (Defs.pop_head two_linked)
refused-drop-faults_example =
    refused-drop-faults outer 1 10 ((2, some 20) ∷ []) two_linked (omega arith) two_linked-IsList

abbrev arriving : Mem (List ℕ) ℕ
arriving = record {
  nodes =
      update (update (update (λ _. none) 1 (some (Defs.new_node 10))) 2 (some (Defs.new_node 20))) 3
        (some (Defs.new_node 30));
  inner = Defs.new_list;
  env = [];
}

abbrev three : List (Ptr × ℕ)
three = (1, 10) ∷ (2, 20) ∷ (3, 30) ∷ []

three_of_a_round : Returns (Round outer 3 three [] arriving) (arrive_all 3 outer three arriving)
three_of_a_round =
    arrive_all-Round outer 3 three [] arriving (record { inner = refl; chain = tt })
      (omega arith, refl, refl, (omega arith, refl, refl, (omega arith, refl, refl, tt))) refl
      (omega arith) (omega arith)

-- The closure notes what it sees, adds one to the data, and removes the node that held 10.
abbrev drop_ten : ℕ → ℕ → List ℕ → (NodeAction × ScanAction) × ℕ × List ℕ
drop_ten d n e = ((if d == 10 then remove else retain, continue), d + 1, note d n e)

scan-Swept_example :
    Returns
      (λ _.
        Swept drop_ten outer []
          ((1, 10) ∷ (2, 20) ∷ [])
          (sweep drop_ten ((1, 10) ∷ (2, 20) ∷ []) 2 [])
          two_linked)
      (Defs.scan drop_ten two_linked)
scan-Swept_example = scan-Swept drop_ten outer ((1, 10) ∷ (2, 20) ∷ []) two_linked two_linked-IsList

ten_is_gone : sweep drop_ten ((1, 10) ∷ (2, 20) ∷ []) 2 [] ≡ ((2, 21) ∷ [], 10 ∷ 2 ∷ 20 ∷ 1 ∷ [])
ten_is_gone = refl

abbrev three_items : List (Ptr × ℕ)
three_items = (1, 10) ∷ (2, 20) ∷ (3, 30) ∷ []

fifo_example :
    Returns
      (λ n m'. (n ≡ 3) × IsList outer m' [] × (m'.env ≡ drain note three_items []))
      ((push_each outer three_items >> Concurrent.pop_all note (λ e. e)) arriving)
fifo_example =
    fifo outer note (λ e. e) three_items arriving (record { inner = refl; chain = tt })
      (omega arith, refl, refl, (omega arith, refl, refl, (omega arith, refl, refl, tt)))
      (omega arith)

poll_misses_round_example :
    Returns
      (WaitsAgain outer 3 2 40 ((1, 10) ∷ (2, 20) ∷ []) two_linked)
      ((wait 3 outer 3 >> poll 3 outer 2 (some false) 40) two_linked)
poll_misses_round_example =
    poll_misses_round outer 3 2 40 ((1, 10) ∷ (2, 20) ∷ []) two_linked (omega arith) refl
      (omega arith) 3 (some false) refl refl two_linked-IsList

-- The task at node 2 is polled a second time, with a new waker, while one other waits.
poll-Turn_example :
    Returns
      (Turn outer 3 2 40 ((1, 10) ∷ []) [] two_linked)
      (poll 3 outer 2 (some false) 40 two_linked)
poll-Turn_example =
    poll-Turn outer 3 2 40 ((1, 10) ∷ []) [] two_linked (omega arith) (omega arith) (omega arith)
      (some false) refl (waiting 20 two_linked-IsList)

-- Two threads, two rounds; the second to come in the first round is the first in the second.
abbrev two_rounds : List (List (Ptr × ℕ))
two_rounds = ((1, 10) ∷ (2, 20) ∷ []) ∷ ((2, 21) ∷ (1, 11) ∷ []) ∷ []

stress_test_barrier_inner-Stressed_example :
    Returns
      (Stressed 9 2 (omega arith) (omega arith) two_rounds 0 arriving)
      (stress_test_barrier_inner 2 9 two_rounds 0 arriving)
stress_test_barrier_inner-Stressed_example =
    stress_test_barrier_inner-Stressed 9 2 (omega arith) (omega arith) two_rounds 0 arriving
      (record { inner = refl; chain = tt })
      ((
        refl,
        (omega arith, refl, (omega arith, refl, tt)),
        (refl, (omega arith, refl, (omega arith, refl, tt)), tt),
      ))
      (omega arith)

early_drop-faults_example :
    Returns
      (λ _ m'.
        (Concurrent.drop_node outer 2 m' ≡ ok tt m')
        × Returns (λ r _. r ≡ some 20) (Defs.take_data 2 m')
        × ((free 2 >> Defs.take_data 2) m' ≡ fault))
      (Defs.remove_node 2 two_linked)
early_drop-faults_example =
    early_drop-faults outer 2 20 ((1, some 10) ∷ []) [] two_linked two_linked-IsList
