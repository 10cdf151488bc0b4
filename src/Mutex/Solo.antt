-- ===== src/Mutex/Solo.antt =====
-- colock/src/mutex/raw_mutex.rs used by one thread: each operation, from its call until the thread
-- has the lock or is done, by the steps of RawMutex. These fill the interface of `Mutex<T>`.
use colock.Base.{
  ℕ, zero, suc, ◌≡◌, refl, sym, subst, Bool, true, false, not, Option, none, some, [], ◌==◌,
  if◌then◌else◌, update,
}
use colock.RawMutex.Flags.{contended}
use colock.RawMutex.Thread.{
  Pc, lock, timed_lock, try_lock, idle, owner, Shared, new, Next, Action, call, unlock, unlock_fair,
  expire, run, advance, first_try, next_try, enter_queue, should_sleep, wake_up, give_up,
  start_unlock, pop_sleeper, start_unlock_fair,
}
use colock.RawMutex.Flags
use colock.RawMutex.Queue.{pop_last, remove}
use colock.RawMutex.Poller.{Polled, ready, poll, poll_loop}
use colock.RawMutex.Tasks.{drop_node}
use colock.Mutex.Raw.{RawLock, RawLaws, Leaves, Tries}

-- The thread's own step, and where it has none its time runs out.
abbrev next_alone : Pc → Shared → Next
next_alone p s = elim (advance 0 run p s) [ none ↦ advance 0 expire p s | some n ↦ some n ]

-- Does it have the lock in the end?
unfoldable pub run_alone : ℕ → Pc → Shared → Option (Bool × Shared)
run_alone zero p s = none
run_alone (suc n) idle s = some (false, s)
run_alone (suc n) owner s = some (true, s)
run_alone (suc n) p s = elim (next_alone p s) [ none ↦ none | some (s', p') ↦ run_alone n p' s' ]

-- Enough for a failed attempt that is pushed, times out and leaves.
abbrev fuel : ℕ
fuel = 16

abbrev start_with : Action → Pc → Shared → Option (Bool × Shared)
start_with a p s = elim (advance 0 a p s) [ none ↦ none | some (s', p') ↦ run_alone fuel p' s' ]

abbrev only : Bool → Option (Bool × Shared) → Option Shared
only b none = none
only true (some (true, s)) = some s
only false (some (false, s)) = some s
only _ _ = none

abbrev lock_alone : Shared → Option Shared
lock_alone s = only true (start_with (call lock) idle s)

abbrev unlock_alone : Shared → Option Shared
unlock_alone s = only false (start_with unlock owner s)

-- `lock_async().await`, where the first poll is ready: the future is then dropped.
abbrev awaited : Option (Polled × Shared) → Option Shared
awaited (some (ready, s)) = some (drop_node 0 s)
awaited _ = none

abbrev lock_async_alone : Shared → Option Shared
lock_async_alone s = awaited (poll 0 s)

-- `RawMutex::bump`
abbrev bump_alone : Shared → Option Shared
bump_alone s =
    if s.state == contended
    then elim (unlock_alone s) [ none ↦ none | some s' ↦ lock_alone s' ]
    else some s

abbrev pub solo_lock : RawLock Shared
solo_lock = record {
  new = new;
  lock = lock_alone;
  lock_async = lock_async_alone;
  try_lock = start_with (call try_lock) idle;
  try_lock_for = λ duration. start_with (call timed_lock) idle;
  try_lock_until = λ timeout. start_with (call timed_lock) idle;
  unlock = unlock_alone;
  unlock_fair = λ s. only false (start_with unlock_fair owner s);
  bump = bump_alone;
  is_locked = λ s. Flags.is_locked s.state;
}

-- Nobody is at the mutex; a thread that timed out may have left WAIT_BIT.
data Byte : Type 0 where
  b0 b1 b2 b3 : Byte

abbrev value : Byte → ℕ
value b0 = 0
value b1 = 1
value b2 = 2
value b3 = 3

abbrev alone : Byte → (ℕ → Bool) → Shared
alone b f = record { state = value b; queue = []; queue_lock = none; flags = f }

pub IsAlone : Shared → Type 0
IsAlone s = (b : Byte) × (f : ℕ → Bool) × (s ≡ alone b f)

by_byte :
    (P : Shared → Type 0)
    → ((b : Byte) (f : ℕ → Bool) → P (alone b f))
    → (s : Shared) → IsAlone s
    → P s
unfolding IsAlone
by_byte P each s (b, f, e) = subst P (sym e) (each b f)

lock_byte :
    (b : Byte) (f : ℕ → Bool)
    → solo_lock.is_locked (alone b f) ≡ false
    → Leaves solo_lock IsAlone (solo_lock.lock (alone b f)) true
unfolding IsAlone run_alone advance first_try next_try
lock_byte b0 f h = (alone b1 f, refl, (b1, f, refl), refl)
lock_byte b2 f h = (alone b3 f, refl, (b3, f, refl), refl)
lock_byte b1 f h = cc
lock_byte b3 f h = cc

async_byte :
    (b : Byte) (f : ℕ → Bool)
    → solo_lock.is_locked (alone b f) ≡ false
    → Leaves solo_lock IsAlone (solo_lock.lock_async (alone b f)) true
unfolding IsAlone poll_loop advance first_try next_try remove
async_byte b0 f h = (alone b1 f, refl, (b1, f, refl), refl)
async_byte b2 f h = (alone b3 f, refl, (b3, f, refl), refl)
async_byte b1 f h = cc
async_byte b3 f h = cc

try_byte :
    (b : Byte) (f : ℕ → Bool)
    → Tries solo_lock IsAlone
        (solo_lock.try_lock (alone b f))
        (not (solo_lock.is_locked (alone b f)))
unfolding IsAlone run_alone advance first_try next_try
try_byte b0 f = (alone b1 f, refl, (b1, f, refl), refl)
try_byte b2 f = (alone b3 f, refl, (b3, f, refl), refl)
try_byte b1 f = (alone b1 f, refl, (b1, f, refl), refl)
try_byte b3 f = (alone b3 f, refl, (b3, f, refl), refl)

until_byte :
    (t : ℕ) (b : Byte) (f : ℕ → Bool)
    → Tries solo_lock IsAlone
        (solo_lock.try_lock_until t (alone b f))
        (not (solo_lock.is_locked (alone b f)))
unfolding IsAlone run_alone advance first_try next_try enter_queue should_sleep wake_up give_up
    remove
until_byte t b0 f = (alone b1 f, refl, (b1, f, refl), refl)
until_byte t b2 f = (alone b3 f, refl, (b3, f, refl), refl)
until_byte t b1 f = (alone b3 (update f 0 false), refl, (b3, update f 0 false, refl), refl)
until_byte t b3 f = (alone b3 (update f 0 false), refl, (b3, update f 0 false, refl), refl)

unlock_byte :
    (b : Byte) (f : ℕ → Bool)
    → solo_lock.is_locked (alone b f) ≡ true
    → Leaves solo_lock IsAlone (solo_lock.unlock (alone b f)) false
unfolding IsAlone run_alone advance start_unlock pop_sleeper pop_last
unlock_byte b1 f h = (alone b0 f, refl, (b0, f, refl), refl)
unlock_byte b3 f h = (alone b2 f, refl, (b2, f, refl), refl)
unlock_byte b0 f h = cc
unlock_byte b2 f h = cc

fair_byte :
    (b : Byte) (f : ℕ → Bool)
    → solo_lock.is_locked (alone b f) ≡ true
    → Leaves solo_lock IsAlone (solo_lock.unlock_fair (alone b f)) false
unfolding IsAlone run_alone advance start_unlock_fair pop_last
fair_byte b1 f h = (alone b0 f, refl, (b0, f, refl), refl)
fair_byte b3 f h = (alone b2 f, refl, (b2, f, refl), refl)
fair_byte b0 f h = cc
fair_byte b2 f h = cc

bump_byte :
    (b : Byte) (f : ℕ → Bool)
    → solo_lock.is_locked (alone b f) ≡ true
    → Leaves solo_lock IsAlone (solo_lock.bump (alone b f)) true
unfolding IsAlone run_alone advance first_try next_try start_unlock pop_sleeper pop_last
bump_byte b1 f h = (alone b1 f, refl, (b1, f, refl), refl)
bump_byte b3 f h = (alone b3 f, refl, (b3, f, refl), refl)
bump_byte b0 f h = cc
bump_byte b2 f h = cc

-- The raw mutex used by one thread, each operation run by its atomic steps, keeps the laws of
-- RawLaws when nobody else is at it: lock and lock_async take a free lock, the three attempts say
-- whether it was free and leave it locked, unlock and unlock_fair free a held lock, and bump
-- keeps it held; all return.
pub solo_lock-RawLaws : RawLaws solo_lock IsAlone
unfolding IsAlone
solo_lock-RawLaws = record {
  new_free = ((b0, (λ _. false), refl), refl);
  lock_free = by_byte _ lock_byte;
  async_free = by_byte _ async_byte;
  try_any = by_byte _ try_byte;
  for_any = λ d. by_byte _ (until_byte d);
  until_any = λ t. by_byte _ (until_byte t);
  unlock_held = by_byte _ unlock_byte;
  fair_held = by_byte _ fair_byte;
  bump_held = by_byte _ bump_byte;
}
