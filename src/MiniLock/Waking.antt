-- ===== src/MiniLock/Waking.antt =====
-- mini_lock/src/lib.rs: the waiting threads are on the stack until they are woken, and none is
-- forgotten.
use colock.Base.{ℕ, ◌≡◌, ◌≢◌, refl, Bool, true, false, List, [], arith, update, inl, inr}
use colock.MiniLock.Word.{get_ptr, get_flag, address, owner_of, locked_bit}
use colock.MiniLock.Thread.{
  Pc, idle, locking, spinning, pushing, parked, trying, unlocking, popping, waking, Shared, new,
  Action, lock, try_lock, run, advance, lock_first, spin_round, push_or_lock, try_round,
  unlock_first, pop_round,
}
use colock.MiniLock.System.{System, Step, move, Reach, start, later}
use colock.MiniLock.Exclusion.{Inv, Moved, Step-Inv, Reach-Inv}
use colock.MiniLock.Stack.{Chain-null, is_asleep, Waits}
use colock.MiniLock.Change.{Waits-kept}

-- On its way to try for the lock, or to wake a sleeper.
abbrev active_at : Pc → Bool → Bool
active_at locking flag = true
active_at (spinning _ _) flag = true
active_at (pushing _) flag = true
active_at parked flag = flag
active_at (waking _) flag = true
active_at _ flag = false

abbrev pub is_active : Shared → (ℕ → Pc) → ℕ → Bool
is_active m pc i = active_at (pc i) (m.flags i)

-- While the lock is free and a thread sleeps, some thread is on its way.
abbrev pub Awake : Shared → (ℕ → Pc) → Type 0
Awake m pc =
    get_flag m.head ≡ false
    → (i : ℕ) → is_asleep m pc i ≡ true
    → (j : ℕ) × (is_active m pc j ≡ true)

module _ (m m' : Shared) {pc : ℕ → Pc} {is : List ℕ} (inv : Inv m pc) (w : Waits m pc is)
    (awake : Awake m pc) (i : ℕ) where
  -- With nobody on the stack, who sleeps is about to be woken.
  unlocked_alone :
      (p' : Pc)
      → pc i ≡ unlocking
      → m.head ≡ locked_bit
      → m'.flags ≡ m.flags
      → (j : ℕ) → is_asleep m pc j ≡ true
      → (k : ℕ) × (is_active m' (update pc i p') k ≡ true)
  unlocked_alone p' e h f j s = elim (w.sleeping j s) [
    | inl q ↦ ground (arith, Chain-null m.next (get_ptr m.head) is (omega arith) w.chain)
    | inr (k, y) ↦ (k, ground (arith, inv.one i k, w.popped k j))
  ]

  another :
      (p p' : Pc)
      → pc i ≡ p
      → active_at p (m.flags i) ≡ false
      → m'.flags ≡ m.flags
      → get_flag m.head ≡ false
      → (j : ℕ) → is_asleep m pc j ≡ true
      → (k : ℕ) × (is_active m' (update pc i p') k ≡ true)
  another p p' e off f free j s = let (k, on) = awake free j s in (k, ground arith)

  Awake-kept : (a : Action) (p p' : Pc) → Moved m m' pc i a p p' → Awake m' (update pc i p')
  unfolding advance lock_first spin_round push_or_lock try_round unlock_first pop_round
  Awake-kept lock idle p' v free j s = (i, ground arith)
  Awake-kept try_lock idle p' v free j s =
      another idle p' v.here refl (ground arith) (ground arith) j (ground (arith, v.here))
  Awake-kept run (trying h) p' v free j s =
      another (trying h) p' v.here refl (ground arith) (ground arith) j (ground (arith, v.here))
  Awake-kept run unlocking p' v free j s =
      unlocked_alone p' v.here (ground (arith, inv.held i, v.here)) (ground arith) j
        (ground (arith, v.here))
  Awake-kept run (waking z) p' v free j s = (z, ground (arith, v.here, w.popped i z))
  Awake-kept a p p' v free j s = (i, ground (arith, inv.held i, v.here))

abbrev Good : System → Type 0
Good s = Inv s.shared s.pc × ((is : List ℕ) × Waits s.shared s.pc is) × Awake s.shared s.pc

Step-Good : {s t : System} → Step s t → Good s → Good t
Step-Good {s} (move i a {m} {p} h) (inv, (is, w), awake) =
    let v : Moved _ _ s.pc i a (s.pc i) p = record { here = refl; step = h } in
    (
      Step-Inv (move i a h) inv,
      Waits-kept inv w i a (s.pc i) p v,
      Awake-kept s.shared m inv w awake i a (s.pc i) p v,
    )

empty_stack : Waits new (λ _. idle) []
empty_stack = record {
  chain = omega arith;
  once = refl;
  queued = λ i h. cc;
  fresh = λ i h. cc;
  popped = λ i z h. cc;
  one_waker = λ i j z h. cc;
  sleeping = λ i h. cc;
  reads = λ i word h. cc;
}

Reach-Good : {s : System} → Reach s → Good s
Reach-Good start = (Reach-Inv start, ([], empty_stack), λ free i h. cc)
Reach-Good (later r st) = Step-Good st (Reach-Good r)

-- In every state that threads come to on a RawMiniLock by lock, try_lock and unlock, the word
-- points to a null-terminated stack of distinct nodes, each of a parked unwoken thread with its
-- waker still in place; a parked unwoken thread is on the stack or about to be woken by exactly
-- one thread; and every word that pop works on is null or points to a node of the stack.
pub mini_stack : {s : System} → Reach s → (is : List ℕ) × Waits s.shared s.pc is
mini_stack r = (Reach-Good r).1

-- In every state that threads come to on a RawMiniLock by lock, try_lock and unlock, if the lock
-- is free and a thread is parked unwoken, some thread is on its way to try for the lock or to
-- wake a sleeper.
pub mini_no_lost_wakeup :
    {s : System}
    → Reach s
    → get_flag s.shared.head ≡ false
    → (i : ℕ) → is_asleep s.shared s.pc i ≡ true
    → (j : ℕ) × (is_active s.shared s.pc j ≡ true)
mini_no_lost_wakeup r = (Reach-Good r).2

-- In every state that threads come to on a RawMiniLock by lock, try_lock and unlock, when pop is
-- about to dereference a word other than LOCKED_BIT, the word holds the address of the node of a
-- thread that is parked and unwoken, so the node is alive.
pub mini_node_alive :
    {s : System}
    → Reach s
    → (i word : ℕ) → s.pc i ≡ popping word
    → word ≢ locked_bit
    → (s.pc (owner_of word) ≡ parked)
      × (s.shared.flags (owner_of word) ≡ false)
      × (get_ptr word ≡ address (owner_of word))
mini_node_alive {s} r i word e ne =
    let (inv, (is, w), awake) = Reach-Good r in
    elim (w.reads i word e) [
      | inl null ↦ absurd (ground (arith, inv.sane i))
      | inr (z, here, q) ↦
          let owns : owner_of word ≡ z = omega arith in ground (arith, owns, w.queued z)
    ]
