-- ===== src/SpinWait.antt =====
-- shared_util/src/spinwait.rs: the counter of an exponential back-off. `none` stands for the panic
-- of an overflowing addition or shift of a `u32`.
pub mod Laws
use colock.Base.{
  ℕ, zero, suc, ◌+◌, ◌^◌, Bool, true, false, Option, none, some, List, [], ◌∷◌, ltb, leb,
  if◌then◌else◌,
}

abbrev pub u32_mod : ℕ
u32_mod = 2 ^ 32

-- What the processor is told: a pause of the core, or a yield to the scheduler.
pub data Hint : Type 0 where
  spin_loop yield_now : Hint

pub record SpinWait : Type 0 where
  pub counter : ℕ

abbrev pub new : SpinWait
new = record { counter = 0 }

abbrev pub reset : SpinWait → SpinWait
reset s = record s { counter = 0 }

unfoldable pub cpu_relax : ℕ → List Hint
cpu_relax zero = []
cpu_relax (suc n) = spin_loop ∷ cpu_relax n

-- `(1 << counter).min(1 << 3)`
abbrev pub iterations : ℕ → ℕ
iterations c = if ltb (2 ^ c) 8 then 2 ^ c else 8

abbrev pub add_round : Option ℕ → Option ℕ
add_round none = none
add_round (some n) = some (suc n)

module _ (num_spins num_yields : ℕ) where
  unfoldable pub spin : SpinWait → Option (Bool × SpinWait × List Hint)
  spin s =
      if ltb (num_spins + num_yields) u32_mod
      then (if leb (num_spins + num_yields) s.counter
          then some (false, s, [])
          else if leb (s.counter + 1) num_spins
          then (if ltb (s.counter + 1) 32
              then some
                  (true, record { counter = s.counter + 1 }, cpu_relax (iterations (s.counter + 1)))
              else none)
          else some (true, record { counter = s.counter + 1 }, yield_now ∷ []))
      else none

  unfoldable pub spin_no_yield : SpinWait → Option (SpinWait × List Hint)
  spin_no_yield s =
      if ltb (s.counter + 1) u32_mod
      then (let c = if ltb num_spins (s.counter + 1) then num_spins else s.counter + 1 in
          if ltb c 32 then some (record { counter = c }, cpu_relax (2 ^ c)) else none)
      else none

  -- `while spinner.spin() { … }`: how often the body runs, with fuel.
  unfoldable pub spin_rounds : ℕ → SpinWait → Option ℕ
  spin_rounds zero s = none
  spin_rounds (suc k) s = elim (spin s) [
    | none ↦ none
    | some (b, s', hints) ↦ elim b [ true ↦ add_round (spin_rounds k s') | false ↦ some 0 ]
  ]
