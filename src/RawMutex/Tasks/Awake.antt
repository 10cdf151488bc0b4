-- ===== src/RawMutex/Tasks/Awake.antt =====
-- What holds of the tasks in every state.
use colock.Base.{
  ℕ, ◌≡◌, ◌≢◌, refl, inl, inr, Bool, true, false, some, List, arith, update, subst, sym, ◌==◌,
  Bool-cases,
}
use colock.RawMutex.Flags.{is_locked}
use colock.RawMutex.Queue.{mem-pop_last}
use colock.RawMutex.Thread.{Shared}
use colock.RawMutex.Tasks.{
  Task, away, waiting, holder, broken, Tasks, first, Act, drop_it, drop_node, act_at, lets,
  TaskStep, act, TaskReach, start, later,
}
use colock.RawMutex.Tasks.Outcome.{Freed, Woke}
use colock.RawMutex.Tasks.Inv.{waits, TasksInv, Did, Did-Inv}
use colock.RawMutex.Tasks.Steps.{Acted, act-Acted}

-- While the lock is free and a task waits, some task that waits has been woken.
abbrev pub SomeWoken : Shared → (ℕ → Task) → Type 0
SomeWoken s task =
    is_locked s.state ≡ false
    → (i : ℕ) → waits (task i) ≡ true
    → (j : ℕ) × (waits (task j) ≡ true) × (s.flags j ≡ true)

module _ {s s' : Shared} {task : ℕ → Task} (inv : TasksInv s task) (some_woken : SomeWoken s task)
    (i : ℕ) {u : Task} where
  Freed-SomeWoken : task i ≡ holder → u ≡ away → Freed s s' → SomeWoken s' (update task i u)
  Freed-SomeWoken h is t free j w =
      (j, w, ground (arith, t.after, t.nobody, is, inv.sleeping j, inv.marked j))

  Woke-SomeWoken :
      (q : List ℕ) (w : ℕ)
      → task i ≡ holder
      → u ≡ away
      → Woke s s' q w
      → SomeWoken s' (update task i u)
  Woke-SomeWoken q w h is t free j x = (
    w,
    ground (arith, is, mem-pop_last s.queue q w t.tail w, inv.queued w),
    ground (arith, t.after),
  )

  Did-SomeWoken :
      {a : Act}
      → Did a s s' i (task i) u
      → lets true a (s.flags i) ≡ true
      → SomeWoken s' (update task i u)
  Did-SomeWoken (inl (h, t)) l free j w = absurd (ground (arith, t.after))
  Did-SomeWoken (inr (inl (h, t))) l free j w = absurd (ground (arith, t.after))
  Did-SomeWoken (inr (inr (inl (e, h, t)))) l free j w =
      let (k, x, y) = some_woken (ground (arith, t.after)) j (ground (arith, t.is)) in
      let calm : s.flags i ≡ false = ground (arith, e) in (k, ground arith, ground (arith, t.after))
  Did-SomeWoken (inr (inr (inr t))) l free j w = elim t.after [
    | inl f ↦ Freed-SomeWoken t.was t.is f free j w
    | inr (q, z, k) ↦ Woke-SomeWoken q z t.was t.is k free j w
  ]

first-Inv : TasksInv first.shared first.task
first-Inv = record {
  byte = omega arith;
  unheld = refl;
  whole = λ i. tt;
  one_holder = λ i j h. cc;
  held = λ i h. cc;
  taken = λ h. cc;
  once = refl;
  queued = λ i h. cc;
  marked = λ i h. cc;
  sleeping = λ i h. cc;
}

TaskStep-Inv :
    {c : Bool} {t t' : Tasks}
    → TaskStep c t t'
    → TasksInv t.shared t.task
    → TasksInv t'.shared t'.task
TaskStep-Inv {t} {t'} (act i a l e) inv =
    let d : Acted a i t t' = act-Acted t inv i a t' (t.task i) refl e in
    subst (TasksInv t'.shared) (sym d.others) (Did-Inv inv i d.did)

pub TaskReach-Inv : {c : Bool} {t : Tasks} → TaskReach c t → TasksInv t.shared t.task
TaskReach-Inv start = first-Inv
TaskReach-Inv (later r st) = TaskStep-Inv st (TaskReach-Inv r)

TaskReach-SomeWoken : {t : Tasks} → TaskReach true t → SomeWoken t.shared t.task
TaskReach-SomeWoken start = λ free i w. cc
TaskReach-SomeWoken {t = t'} (later {t} r (act i a l e)) =
    let inv = TaskReach-Inv r in
    let d : Acted a i t t' = act-Acted t inv i a t' (t.task i) refl e in
    subst (SomeWoken t'.shared) (sym d.others) (Did-SomeWoken inv (TaskReach-SomeWoken r) i d.did l)

-- In every state that tasks on one thread come to by polls of lock_async, at any time and as
-- often as wished, by drops of its futures and by unlock, at most one task has the lock, and
-- while one has it LOCKED_BIT is set.
pub tasks_exclusion :
    {c : Bool} {t : Tasks}
    → TaskReach c t
    → (i j : ℕ) → t.task i ≡ holder
    → t.task j ≡ holder
    → (i ≡ j) × (is_locked t.shared.state ≡ true)
tasks_exclusion r i j a b =
    let inv = TaskReach-Inv r in (inv.one_holder i j (rw a) (rw b), inv.held i (rw a))

--
pub tasks_no_panic : {c : Bool} {t : Tasks} → TaskReach c t → (i : ℕ) → t.task i ≢ broken
tasks_no_panic r i e = ground (arith, (TaskReach-Inv r).whole i)

is_waiting_task : (k : Task) → waits k ≡ true → k ≡ waiting
is_waiting_task waiting h = refl
is_waiting_task k h = ground arith

-- In every state that the tasks of one mutex come to on an executor of one thread, without
-- dropping a future whose waker was called, if the lock is free and a task waits for it, some
-- waiting task has been woken since its last poll.
pub tasks_some_woken :
    {t : Tasks}
    → TaskReach true t
    → is_locked t.shared.state ≡ false
    → (i : ℕ) → t.task i ≡ waiting
    → (j : ℕ) × (t.task j ≡ waiting) × (t.shared.flags j ≡ true)
tasks_some_woken {t} r free i w =
    let (j, x, y) = TaskReach-SomeWoken r free i (rw w) in (j, is_waiting_task (t.task j) x, y)

-- In any state with the lock free, two tasks waiting, and none of those that wait woken but the
-- first, dropping the future of the first leaves the lock free, the second waiting, and no
-- waiting task woken.
pub woken_drop_stalls :
    (t : Tasks) (i j : ℕ)
    → i ≢ j
    → t.task i ≡ waiting
    → t.task j ≡ waiting
    → is_locked t.shared.state ≡ false
    → ((k : ℕ) → k ≢ i → t.task k ≡ waiting → t.shared.flags k ≡ false)
    → (u : Tasks) × (act_at i drop_it (t.task i) t ≡ some u)
      × (is_locked u.shared.state ≡ false)
      × (u.task j ≡ waiting)
      × ¬ ((k : ℕ) × (u.task k ≡ waiting) × (u.shared.flags k ≡ true))
unfolding act_at
woken_drop_stalls t i j ne wi wj free calm = (
  record { shared = drop_node i t.shared; task = update t.task i away },
  rw wi,
  free,
  ground (arith, wj),
  λ s.
      let (k, w, woken) = s in
      elim (Bool-cases (k == i)) [
        | inl same ↦ ground (arith, w)
        | inr other ↦ cc (calm k (λ e. ground arith) (rw other at w), woken)
      ],
)
