-- ===== src/MiniLock/Still.antt =====
-- mini_lock/src/lib.rs: the steps that leave the stack of waiting nodes as it is.
use colock.Base.{
  mem, ℕ, ◌≡◌, Bool, true, false, not, ◌&&◌, List, ◌⊎◌, ◌==◌, arith, update, Bool-cases, inl, inr,
  subst,
}
use colock.MiniLock.Word.{get_ptr, get_flag, locked_bit}
use colock.MiniLock.Thread.{
  Pc, idle, locking, pushing, popping, waking, Shared, Action, lock, run, advance, lock_first,
  spin_round, push_or_lock, try_round, unlock_first, pop_round,
}
use colock.MiniLock.Exclusion.{Inv, Moved}
use colock.MiniLock.Stack.{
  Chain, Chain-same, Points, Chain-Points, is_asleep, wakes, is_pushing, Waits,
}

-- The exchanges that push a node or take one off, where they succeed.
abbrev pub changes : Pc → Shared → Bool
changes (pushing head) m = get_flag head && m.head == head
changes (popping head) m = not (head == locked_bit) && m.head == head
changes _ m = false

module _ {m m' : Shared} {pc : ℕ → Pc} {is : List ℕ} (inv : Inv m pc) (w : Waits m pc is)
    (i : ℕ) where
  ptr-kept :
      (a : Action) (p p' : Pc)
      → Moved m m' pc i a p p'
      → changes p m ≡ false
      → get_ptr m'.head ≡ get_ptr m.head
  unfolding advance lock_first spin_round push_or_lock try_round unlock_first pop_round
  ptr-kept lock idle p' v c = ground arith
  ptr-kept run locking p' v c = ground arith
  ptr-kept a p p' v c = ground arith

  next-kept :
      (a : Action) (p p' : Pc)
      → Moved m m' pc i a p p'
      → changes p m ≡ false
      → (j : ℕ) → mem j is ≡ true
      → m.next j ≡ m'.next j
  unfolding advance lock_first spin_round push_or_lock try_round unlock_first pop_round
  next-kept lock idle p' v c j q = ground arith
  next-kept run locking p' v c j q = ground arith
  next-kept a p p' v c j q = ground (arith, w.queued j, v.here)

  Chain-kept :
      (a : Action) (p p' : Pc)
      → Moved m m' pc i a p p'
      → changes p m ≡ false
      → Chain m'.next (get_ptr m'.head) is
  Chain-kept a p p' v c =
      rw (ptr-kept a p p' v c)
        (Chain-same m.next m'.next (get_ptr m.head) is (next-kept a p p' v c) w.chain)

  queued-kept :
      (a : Action) (p p' : Pc)
      → Moved m m' pc i a p p'
      → changes p m ≡ false
      → (j : ℕ) → mem j is ≡ true
      → (is_asleep m' (update pc i p') j ≡ true) × (m'.waker j ≡ true)
  unfolding advance lock_first spin_round push_or_lock try_round unlock_first pop_round
  queued-kept lock idle p' v c j q = ground (arith, w.queued j, v.here)
  queued-kept run locking p' v c j q = ground (arith, w.queued j, v.here)
  queued-kept run (waking z) p' v c j q = ground (arith, w.queued j, v.here, w.popped i z)
  queued-kept a p p' v c j q = ground (arith, w.queued j, v.here)

  fresh-kept :
      (a : Action) (p p' : Pc)
      → Moved m m' pc i a p p'
      → changes p m ≡ false
      → (j : ℕ) → is_pushing (update pc i p' j) ≡ true
      → (m'.flags j ≡ false) × (m'.waker j ≡ true)
  unfolding advance lock_first spin_round push_or_lock try_round unlock_first pop_round
  fresh-kept lock idle p' v c j q = ground (arith, w.fresh j, v.here)
  fresh-kept run locking p' v c j q = ground (arith, w.fresh j, v.here)
  fresh-kept run (waking z) p' v c j q = ground (arith, w.fresh j, v.here, w.popped i z)
  fresh-kept a p p' v c j q = ground (arith, w.fresh j, v.here)

  popped-kept :
      (a : Action) (p p' : Pc)
      → Moved m m' pc i a p p'
      → changes p m ≡ false
      → (j z : ℕ) → wakes z (update pc i p' j) ≡ true
      → (is_asleep m' (update pc i p') z ≡ true) × (mem z is ≡ false)
  unfolding advance lock_first spin_round push_or_lock try_round unlock_first pop_round
  popped-kept lock idle p' v c j z q = ground (arith, w.popped j z, v.here)
  popped-kept run locking p' v c j z q = ground (arith, w.popped j z, v.here)
  popped-kept run (waking y) p' v c j z q = ground (arith, w.popped j z, v.here, w.one_waker i j z)
  popped-kept a p p' v c j z q = ground (arith, w.popped j z, v.here)

  one_waker-kept :
      (a : Action) (p p' : Pc)
      → Moved m m' pc i a p p'
      → changes p m ≡ false
      → (j k z : ℕ) → wakes z (update pc i p' j) ≡ true
      → wakes z (update pc i p' k) ≡ true
      → j ≡ k
  unfolding advance lock_first spin_round push_or_lock try_round unlock_first pop_round
  one_waker-kept lock idle p' v c j k z q r = ground (arith, w.one_waker j k z, v.here)
  one_waker-kept run locking p' v c j k z q r = ground (arith, w.one_waker j k z, v.here)
  one_waker-kept a p p' v c j k z q r = ground (arith, w.one_waker j k z, v.here)

  sleeping-kept :
      (a : Action) (p p' : Pc)
      → Moved m m' pc i a p p'
      → changes p m ≡ false
      → (j : ℕ) → is_asleep m' (update pc i p') j ≡ true
      → (mem j is ≡ true) ⊎ ((k : ℕ) × (wakes j (update pc i p' k) ≡ true))
  unfolding advance lock_first spin_round push_or_lock try_round unlock_first pop_round
  sleeping-kept lock idle p' v c j s = elim (w.sleeping j (ground (arith, v.here))) [
    | inl q ↦ inl q
    | inr (k, y) ↦ inr (k, ground (arith, v.here))
  ]
  sleeping-kept run locking p' v c j s = elim (w.sleeping j (ground (arith, v.here))) [
    | inl q ↦ inl q
    | inr (k, y) ↦ inr (k, ground (arith, v.here))
  ]
  sleeping-kept a p p' v c j s = elim (w.sleeping j (ground (arith, v.here))) [
    | inl q ↦ inl q
    | inr (k, y) ↦ inr (k, ground (arith, v.here))
  ]

  -- `pop` goes on with the word that it has just read.
  loaded : (a : Action) (p : Pc) (word : ℕ) → Moved m m' pc i a p (popping word) → m.head ≡ word
  unfolding advance lock_first spin_round push_or_lock try_round unlock_first pop_round
  loaded lock idle word v = ground (arith, v.step)
  loaded run locking word v = ground (arith, v.step)
  loaded a p word v = ground (arith, v.step)

  reads-kept :
      (a : Action) (p p' : Pc)
      → Moved m m' pc i a p p'
      → changes p m ≡ false
      → (j word : ℕ) → update pc i p' j ≡ popping word
      → Points word is
  reads-kept a p p' v c j word e = elim (Bool-cases (j == i)) [
    | inl same ↦
        subst (λ h. Points h is) (loaded a p word (subst (Moved m m' pc i a p) (rw same at e) v))
          (Chain-Points m.next m.head is w.chain)
    | inr other ↦ w.reads j word (rw other at e)
  ]

  pub Waits-still :
      (a : Action) (p p' : Pc)
      → Moved m m' pc i a p p'
      → changes p m ≡ false
      → Waits m' (update pc i p') is
  Waits-still a p p' v c = record {
    chain = Chain-kept a p p' v c;
    once = w.once;
    queued = queued-kept a p p' v c;
    fresh = fresh-kept a p p' v c;
    popped = popped-kept a p p' v c;
    one_waker = one_waker-kept a p p' v c;
    sleeping = sleeping-kept a p p' v c;
    reads = reads-kept a p p' v c;
  }
