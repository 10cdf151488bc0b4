-- ===== src/RawMutex/Plain/Popping.antt =====
-- The two outcomes of the pop in `unlock`.
use colock.Base.{ℕ, ◌≡◌, refl, ◌⊎◌, inl, inr, List, [], Option, none, some, arith}
use colock.RawMutex.Queue.{pop_last, pop_last-none}
use colock.RawMutex.Thread.{Pc, idle, waking, Shared, is_empty, popped, pop_sleeper}

-- The thread has taken the tail of the queue, and the queue's lock.
pub record Took (m m' : Shared) (i : ℕ) (p' : Pc) (q : List ℕ) (w : ℕ) : Type 0 where
  pub tail : pop_last m.queue ≡ some (q, w)
  pub free : m.queue_lock ≡ none
  pub after : m' ≡ record m { queue = q; queue_lock = some i }
  pub at : p' ≡ waking w (is_empty q)

-- There was nobody to wake.
pub record Missed (m m' : Shared) (p' : Pc) : Type 0 where
  pub empty : m.queue ≡ []
  pub free : m.queue_lock ≡ none
  pub after : m' ≡ m
  pub at : p' ≡ idle

abbrev pub Pops : Shared → Shared → ℕ → Pc → Type 0
Pops m m' i p' = Missed m m' p' ⊎ ((q : List ℕ) × (w : ℕ) × Took m m' i p' q w)

popped-Pops :
    (m m' : Shared) (i : ℕ) (p' : Pc) (o : Option (List ℕ × ℕ))
    → pop_last m.queue ≡ o
    → m.queue_lock ≡ none
    → popped i m o ≡ some (m', p')
    → Pops m m' i p'
popped-Pops m m' i p' none e f h =
    inl (record {
      empty = pop_last-none m.queue e;
      free = f;
      after = ground arith;
      at = ground arith;
    })
popped-Pops m m' i p' (some (q, w)) e f h =
    inr (q, w, record { tail = e; free = f; after = ground arith; at = ground arith })

pub pop_sleeper-Pops :
    (m m' : Shared) (i : ℕ) (p' : Pc) → pop_sleeper i m ≡ some (m', p') → Pops m m' i p'
unfolding pop_sleeper
pop_sleeper-Pops m m' i p' h =
    popped-Pops m m' i p' (pop_last m.queue) refl (ground arith) (ground arith)
