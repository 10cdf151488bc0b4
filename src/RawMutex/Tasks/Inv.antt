-- ===== src/RawMutex/Tasks/Inv.antt =====
-- The invariant of tasks, also where woken futures are dropped.
use colock.Base.{
  mem, distinct, ℕ, ◌<◌, ◌≡◌, ◌⊎◌, inl, inr, Bool, true, false, none, List, ◌∷◌, arith, update,
}
use colock.RawMutex.Flags.{is_locked, is_waiting, contended, set_locked}
use colock.RawMutex.Queue.{remove, mem-remove, distinct-remove, mem-pop_last, distinct-pop_last}
use colock.RawMutex.Thread.{Shared}
use colock.RawMutex.Tasks.{Task, away, waiting, holder, broken, Act, drop_it}
use colock.RawMutex.Tasks.Outcome.{Unlocked, Freed, Woke}

abbrev pub holds : Task → Bool
holds holder = true
holds _ = false

abbrev pub waits : Task → Bool
waits waiting = true
waits _ = false

abbrev pub IsWhole : Task → Type 0
IsWhole broken = ⊥
IsWhole _ = Unit

pub record TasksInv (s : Shared) (task : ℕ → Task) : Type 0 where
  pub byte : s.state < 4
  pub unheld : s.queue_lock ≡ none
  pub whole : (i : ℕ) → IsWhole (task i)
  pub one_holder : (i j : ℕ) → holds (task i) ≡ true → holds (task j) ≡ true → i ≡ j
  pub held : (i : ℕ) → holds (task i) ≡ true → is_locked s.state ≡ true
  pub taken : is_locked s.state ≡ true → (i : ℕ) × (holds (task i) ≡ true)
  pub once : distinct s.queue ≡ true
  pub queued : (i : ℕ) → mem i s.queue ≡ true → (waits (task i) ≡ true) × (s.flags i ≡ false)
  pub marked : (i : ℕ) → mem i s.queue ≡ true → is_waiting s.state ≡ true
  pub sleeping : (i : ℕ) → waits (task i) ≡ true → s.flags i ≡ false → mem i s.queue ≡ true

-- What each act does to a state of the invariant, and to whom.
pub record Took (s s' : Shared) (i : ℕ) (u : Task) : Type 0 where
  pub free : is_locked s.state ≡ false
  pub after : s' ≡ record s {
    state = set_locked s.state;
    queue = remove i s.queue;
    flags = update s.flags i false;
  }
  pub is : u ≡ holder

pub record Queued (s s' : Shared) (i : ℕ) (u : Task) : Type 0 where
  pub locked : is_locked s.state ≡ true
  pub after :
      s'
      ≡ record s { state = contended; queue = i ∷ remove i s.queue; flags = update s.flags i false }
  pub is : u ≡ waiting

pub record Dropped (s s' : Shared) (i : ℕ) (u : Task) : Type 0 where
  pub after : s' ≡ record s { queue = remove i s.queue }
  pub is : u ≡ away

pub record Released (s s' : Shared) (i : ℕ) (t u : Task) : Type 0 where
  pub was : t ≡ holder
  pub after : Unlocked s s'
  pub is : u ≡ away

abbrev pub Did : Act → Shared → Shared → ℕ → Task → Task → Type 0
Did a s s' i t u =
    ((holds t ≡ false) × Took s s' i u)
    ⊎ ((holds t ≡ false) × Queued s s' i u)
    ⊎ ((a ≡ drop_it) × (waits t ≡ true) × Dropped s s' i u)
    ⊎ Released s s' i t u

module _ {s s' : Shared} {task : ℕ → Task} (inv : TasksInv s task) (i : ℕ) {u : Task} where
  Took-Inv : holds (task i) ≡ false → Took s s' i u → TasksInv s' (update task i u)
  Took-Inv h t = record {
    byte = ground (arith, t.after, inv.byte, t.free);
    unheld = ground (arith, t.after, inv.unheld);
    whole = λ j. ground (arith, t.is, inv.whole j);
    one_holder = λ j k. ground (arith, t.is, inv.held j, inv.held k, t.free);
    held = λ j x. ground (arith, t.after);
    taken = λ x. (i, ground (arith, t.is));
    once = ground (arith, t.after, distinct-remove i s.queue inv.once);
    queued = λ j q. ground (arith, t.after, t.is, mem-remove i j s.queue inv.once, inv.queued j);
    marked =
        λ j q. ground (arith, t.after, mem-remove i j s.queue inv.once, inv.marked j, inv.byte);
    sleeping =
        λ j x y. ground (arith, t.after, t.is, mem-remove i j s.queue inv.once, inv.sleeping j);
  }

  Queued-Inv : holds (task i) ≡ false → Queued s s' i u → TasksInv s' (update task i u)
  Queued-Inv h t = record {
    byte = ground (arith, t.after);
    unheld = ground (arith, t.after, inv.unheld);
    whole = λ j. ground (arith, t.is, inv.whole j);
    one_holder = λ j k. ground (arith, t.is, inv.one_holder j k);
    held = λ j x. ground (arith, t.after);
    taken = λ x. let (j, y) = inv.taken t.locked in (j, ground (arith, t.is));
    once =
        ground
          (arith, t.after, distinct-remove i s.queue inv.once, mem-remove i i s.queue inv.once);
    queued = λ j q. ground (arith, t.after, t.is, mem-remove i j s.queue inv.once, inv.queued j);
    marked = λ j q. ground (arith, t.after);
    sleeping =
        λ j x y. ground (arith, t.after, t.is, mem-remove i j s.queue inv.once, inv.sleeping j);
  }

  Dropped-Inv : waits (task i) ≡ true → Dropped s s' i u → TasksInv s' (update task i u)
  Dropped-Inv h t = record {
    byte = ground (arith, t.after, inv.byte);
    unheld = ground (arith, t.after, inv.unheld);
    whole = λ j. ground (arith, t.is, inv.whole j);
    one_holder = λ j k. ground (arith, t.is, inv.one_holder j k);
    held = λ j x. ground (arith, t.after, t.is, inv.held j);
    taken = λ x. let (j, y) = inv.taken (ground (arith, t.after)) in (j, ground (arith, t.is));
    once = ground (arith, t.after, distinct-remove i s.queue inv.once);
    queued = λ j q. ground (arith, t.after, t.is, mem-remove i j s.queue inv.once, inv.queued j);
    marked = λ j q. ground (arith, t.after, mem-remove i j s.queue inv.once, inv.marked j);
    sleeping =
        λ j x y. ground (arith, t.after, t.is, mem-remove i j s.queue inv.once, inv.sleeping j);
  }

  Freed-Inv : task i ≡ holder → u ≡ away → Freed s s' → TasksInv s' (update task i u)
  Freed-Inv h is t = record {
    byte = ground (arith, t.after, inv.byte);
    unheld = ground (arith, t.after, inv.unheld);
    whole = λ j. ground (arith, is, inv.whole j);
    one_holder = λ j k. ground (arith, is, inv.one_holder j k);
    held = λ j x. ground (arith, is, inv.one_holder j i);
    taken = λ x. absurd (ground (arith, t.after));
    once = ground (arith, t.after, inv.once);
    queued = λ j q. ground (arith, t.after, is, inv.queued j);
    marked = λ j q. ground (arith, t.after, inv.marked j);
    sleeping = λ j x y. ground (arith, t.after, is, inv.sleeping j);
  }

  Woke-Inv :
      (q : List ℕ) (w : ℕ)
      → task i ≡ holder
      → u ≡ away
      → Woke s s' q w
      → TasksInv s' (update task i u)
  Woke-Inv q w h is t =
      let out = mem-pop_last s.queue q w t.tail in
      let once = distinct-pop_last s.queue q w t.tail inv.once in
      record {
        byte = ground (arith, t.after, inv.byte);
        unheld = ground (arith, t.after, inv.unheld);
        whole = λ j. ground (arith, is, inv.whole j);
        one_holder = λ j k. ground (arith, is, inv.one_holder j k);
        held = λ j x. ground (arith, is, inv.one_holder j i);
        taken = λ x. absurd (ground (arith, t.after));
        once = ground (arith, t.after, once);
        queued = λ j x. ground (arith, t.after, is, out j, once, inv.queued j);
        marked = λ j x. ground (arith, t.after, out j, inv.marked j);
        sleeping = λ j x y. ground (arith, t.after, is, out j, inv.sleeping j);
      }

  pub Did-Inv : {a : Act} → Did a s s' i (task i) u → TasksInv s' (update task i u)
  Did-Inv (inl (h, t)) = Took-Inv h t
  Did-Inv (inr (inl (h, t))) = Queued-Inv h t
  Did-Inv (inr (inr (inl (e, h, t)))) = Dropped-Inv h t
  Did-Inv (inr (inr (inr t))) = elim t.after [
    | inl f ↦ Freed-Inv t.was t.is f
    | inr (q, w, k) ↦ Woke-Inv q w t.was t.is k
  ]
