-- ===== src/Counter/Client.antt =====
-- The threads of `do_lots_and_lots`. `*m.lock() += 1` is a call of `lock`, the read and the write
-- through the guard, and the guard's drop.
use colock.Base.{
  ℕ, ◌+◌, ◌-◌, ◌^◌, Option, none, some, List, [], ◌∷◌, if◌then◌else◌, ltb, ◌==◌, update,
}
use colock.Counter.Exclusive.{Ask, SharedLock}

pub data Phase : Type 0 where
  outside : Phase
  inside : Phase  -- from the call of `lock` to the read
  loaded : (seen : ℕ) → Phase
  stored : Phase  -- from the write to the guard's drop

pub data Move : Type 0 where
  begin work read write finish : Move

-- `todo i` iterations are left to thread `i`, with the one that it is in.
pub record Client (S : Type 0) : Type 0 where
  pub sys : S
  pub value : ℕ
  pub todo : ℕ → ℕ
  pub phase : ℕ → Phase

-- The values of a `u64`.
abbrev pub u64_mod : ℕ
u64_mod = 2 ^ 64

module _ {S : Type 0} (lock : SharedLock S) where
  -- `k` threads with `j` iterations each.
  abbrev pub start : (j : ℕ) → Client S
  start j = record { sys = lock.init; value = 0; todo = λ _. j; phase = λ _. outside }

  abbrev pub goes_on : Option S → ℕ → Phase → ℕ → Client S → Option (Client S)
  goes_on none i p n c = none
  goes_on (some s) i p n c =
      some (record c { sys = s; phase = update c.phase i p; todo = update c.todo i n })

  unfoldable pub at_phase : ℕ → Move → Phase → Client S → Option (Client S)
  at_phase i begin outside c =
      if c.todo i == 0 then none else goes_on (lock.step i Ask.lock c.sys) i inside (c.todo i) c
  at_phase i read inside c =
      if lock.owns c.sys i
      then some (record c { phase = update c.phase i (loaded c.value) })
      else none
  at_phase i write (loaded seen) c =
      if ltb (seen + 1) u64_mod
      then some (record c { value = seen + 1; phase = update c.phase i stored })
      else none
  at_phase i finish stored c = goes_on (lock.step i Ask.unlock c.sys) i outside (c.todo i - 1) c
  at_phase i work p c = goes_on (lock.step i Ask.run c.sys) i p (c.todo i) c
  at_phase i _ p c = none

  -- One of the threads below `k` moves.
  unfoldable pub move_one : ℕ → ℕ → Move → Client S → Option (Client S)
  move_one k i m c = if ltb i k then at_phase i m (c.phase i) c else none

  abbrev pub move_all : ℕ → List (ℕ × Move) → Option (Client S) → Option (Client S)
  move_all k _ none = none
  move_all k [] (some c) = some c
  move_all k ((i, m) ∷ moves) (some c) = move_all k moves (move_one k i m c)
