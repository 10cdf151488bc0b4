-- ===== src/RawMutex/Plain/Safety.antt =====
-- What holds in every state that plain use of the mutex comes to.
use colock.Base.{ℕ, ◌≡◌, refl, Bool, true, false, inl, inr, some, arith, update}
use colock.RawMutex.Flags.{is_locked}
use colock.RawMutex.Thread.{Pc, idle, owner, waking, Shared, new, Action, advance}
use colock.RawMutex.System.{System, plain, allows, Step, move, Reach, start, later}
use colock.RawMutex.Plain.Defs.{is_asleep, is_parked, Inv, Awake, is_active}
use colock.RawMutex.Plain.Excluded.{Moved, byte-kept, one_owner-kept, held-kept, guarded-kept}
use colock.RawMutex.Plain.Sleepers.{quiet-kept, once-kept, queued-kept}
use colock.RawMutex.Plain.Wakers.{
  popped-kept, cleared-kept, last_out-kept, marked-kept, resigned-kept,
}
use colock.RawMutex.Plain.Sleeping.{sleeping-kept}
use colock.RawMutex.Plain.Waking.{Awake-kept}

Inv-init : Inv new (λ _. idle)
Inv-init = record {
  byte = omega arith;
  places = λ i. tt;
  one_owner = λ i j h. cc;
  held = λ i h. cc;
  guarded = λ i h. cc;
  once = refl;
  quiet = λ i h. cc;
  queued = λ i h. cc;
  popped = λ i w h. cc;
  last_out = λ i w h. cc;
  cleared = λ i h. cc;
  marked = λ i h. cc;
  resigned = λ i h. cc;
  sleeping = λ i h. cc;
}

Awake-init : Awake new (λ _. idle)
Awake-init free i (inl s) = cc
Awake-init free i (inr s) = cc

module _ {m m' : Shared} {pc : ℕ → Pc} (inv : Inv m pc) (i : ℕ) where
  Moved-Inv : (a : Action) (p' : Pc) → Moved m m' pc i a (pc i) p' → Inv m' (update pc i p')
  Moved-Inv a p' v = record {
    byte = (byte-kept inv i a (pc i) p' v).0;
    places = λ j. ground (arith, (byte-kept inv i a (pc i) p' v).1, inv.places j);
    one_owner = one_owner-kept inv i a (pc i) p' v;
    held = held-kept inv i a (pc i) p' v;
    guarded = guarded-kept inv i a (pc i) p' v;
    once = once-kept inv i a (pc i) p' v;
    quiet = quiet-kept inv i a (pc i) p' v;
    queued = queued-kept inv i a (pc i) p' v;
    popped = popped-kept inv i a (pc i) p' v;
    last_out = last_out-kept inv i a (pc i) p' v;
    cleared = cleared-kept inv i a (pc i) p' v;
    marked = marked-kept inv i a (pc i) p' v;
    resigned = resigned-kept inv i a (pc i) p' v;
    sleeping = sleeping-kept inv i a (pc i) p' v;
  }

moved :
    {s : System} {i : ℕ} {a : Action} {m : Shared} {p : Pc}
    → Inv s.shared s.pc
    → allows plain a ≡ true
    → advance i a (s.pc i) s.shared ≡ some (m, p)
    → Moved s.shared m s.pc i a (s.pc i) p
moved {i} inv al h = record { here = refl; usual = inv.places i; plainly = al; step = h }

-- Every step of plain use keeps the invariant, and keeps a thread on its way while the lock is
-- free and one sleeps.
pub Step-Inv :
    {s t : System}
    → Step plain s t
    → Inv s.shared s.pc × Awake s.shared s.pc
    → Inv t.shared t.pc × Awake t.shared t.pc
Step-Inv {s} (move i a {p} al h) (inv, awake) = (
  Moved-Inv inv i a p (moved inv al h),
  Awake-kept _ _ _ inv awake i a (s.pc i) p (moved inv al h),
)

pub Reach-Inv : {s : System} → Reach plain s → Inv s.shared s.pc × Awake s.shared s.pc
Reach-Inv start = (Inv-init, Awake-init)
Reach-Inv (later r st) = Step-Inv st (Reach-Inv r)

-- In every state that any number of threads come to by lock, try_lock and unlock, one atomic
-- access at a time in any order, at most one thread has the lock.
pub mutual_exclusion :
    {s : System} → Reach plain s → (i j : ℕ) → s.pc i ≡ owner → s.pc j ≡ owner → i ≡ j
mutual_exclusion r i j a b = (Reach-Inv r).0.one_owner i j (rw a) (rw b)

-- In every state that any number of threads come to by lock, try_lock and unlock, one atomic
-- access at a time in any order, if the lock is free and a thread sleeps in park unwoken, some
-- thread is on its way to try for the lock or to wake a sleeper.
pub no_lost_wakeup :
    {s : System}
    → Reach plain s
    → is_locked s.shared.state ≡ false
    → (i : ℕ) → is_asleep s.shared s.pc i ≡ true
    → (j : ℕ) × (is_active s.shared s.pc j ≡ true)
no_lost_wakeup r free i asleep = (Reach-Inv r).1 free i (inl asleep)

-- In every state that any number of threads come to by lock, try_lock and unlock, a thread that
-- is about to call a waker finds its owner still in park and not yet woken, so the parker that
-- the waker points to is alive.
pub waker_alive :
    {s : System}
    → Reach plain s
    → (i w : ℕ) (last : Bool) → s.pc i ≡ waking w last
    → (is_parked (s.pc w) ≡ true) × (s.shared.flags w ≡ false)
waker_alive {s} r i w last e = ground (arith, (Reach-Inv r).0.popped i w)
