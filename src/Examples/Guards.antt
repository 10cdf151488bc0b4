-- ===== src/Examples/Guards.antt =====
-- Guards over the raw mutex of one thread.
use colock.Base.{ℕ, ◌+◌, ◌≡◌, refl, true, false, none, some, List, [], ◌∷◌}
use colock.RawMutex.Thread.{Shared, advance, first_try, start_unlock, start_unlock_fair}
use colock.RawMutex.Queue.{pop_last}
use colock.Mutex.Solo.{solo_lock, IsAlone, run_alone, solo_lock-RawLaws}
use colock.Mutex.Guard.{by_ref, by_arc, Mutex, new, lock, drop_guard, unlock_fair}
use colock.Mutex.Balance.{
  GuardOp, lock_by, try_by, drops, drops_fair, runs_unlocked, bumps, writes, Client, act_all,
  Agrees, guards_balanced,
}
use colock.Mutex.Strong.{fair_unlock_keeps_ref}

abbrev fresh_client : Client Shared ℕ
fresh_client = record { mutex = new solo_lock 5; guard = none }

fresh_client-Agrees : Agrees solo_lock IsAlone fresh_client
fresh_client-Agrees = record {
  alone = solo_lock-RawLaws.new_free.0;
  agrees = solo_lock-RawLaws.new_free.1;
}

abbrev session : List (GuardOp ℕ)
session =
    lock_by by_arc ∷ writes 6 ∷ bumps ∷ runs_unlocked true ∷ drops ∷ try_by by_ref ∷ drops_fair ∷ []

guards_balanced_example :
    (c' : Client Shared ℕ) × (act_all solo_lock session (some fresh_client) ≡ some c')
    × Agrees solo_lock IsAlone c'
guards_balanced_example =
    guards_balanced solo_lock IsAlone solo_lock-RawLaws session fresh_client fresh_client-Agrees

abbrev locked_mutex : Mutex Shared ℕ
locked_mutex = record {
  raw_mutex = record { state = 1; queue = []; queue_lock = none; flags = λ _. false };
  data_cell = 5;
  strong = 2;
}

abbrev free_mutex : ℕ → Mutex Shared ℕ
free_mutex n = record {
  raw_mutex = record { state = 0; queue = []; queue_lock = none; flags = λ _. false };
  data_cell = 5;
  strong = n;
}

arc_lock : lock solo_lock by_arc (free_mutex 1) ≡ some (by_arc, locked_mutex)
unfolding lock run_alone advance first_try
arc_lock = refl

arc_drop : drop_guard solo_lock by_arc locked_mutex ≡ some (free_mutex 1)
unfolding drop_guard run_alone advance start_unlock
arc_drop = refl

arc_fair : unlock_fair solo_lock by_arc locked_mutex ≡ some (free_mutex 2)
unfolding unlock_fair run_alone advance start_unlock_fair pop_last
arc_fair = refl

fair_unlock_keeps_ref_example : (◌≡◌ {A = ℕ} 1 1) × (◌≡◌ {A = ℕ} 2 (1 + 1))
fair_unlock_keeps_ref_example =
    fair_unlock_keeps_ref solo_lock by_arc by_arc (free_mutex 1) locked_mutex (free_mutex 1)
      (free_mutex 2) arc_lock arc_drop arc_fair
