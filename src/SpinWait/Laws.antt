-- ===== src/SpinWait/Laws.antt =====
-- How long a `SpinWait` spins, and how it is bounded.
use colock.Base.{
  ℕ, zero, suc, ◌+◌, ◌-◌, ◌^◌, ◌≤◌, ◌<◌, ◌≡◌, refl, true, false, some, List, [], ◌∷◌, length, leb,
  ◌⊎◌, inl, inr, arith, if◌then◌else◌,
}
use colock.SpinWait.{
  u32_mod, Hint, yield_now, SpinWait, cpu_relax, iterations, spin, spin_no_yield, spin_rounds,
}
use native.Mathlib.Decide.{dec_lt}

length-cpu_relax : (n : ℕ) → length (cpu_relax n) ≡ n
unfolding cpu_relax
length-cpu_relax zero = refl
length-cpu_relax (suc n) = omega (arith, length-cpu_relax n)

iterations-le : (c : ℕ) → iterations c ≤ 8
iterations-le c = ground arith

module _ (num_spins num_yields : ℕ) (small : num_spins < 32)
    (fits : num_spins + num_yields < u32_mod) where
  -- The hints of the call that finds the counter at `c`.
  abbrev hints_at : ℕ → List Hint
  hints_at c = if leb (c + 1) num_spins then cpu_relax (iterations (c + 1)) else yield_now ∷ []

  spin-on :
      (s : SpinWait)
      → s.counter < num_spins + num_yields
      → spin num_spins num_yields s
        ≡ some (true, record { counter = s.counter + 1 }, hints_at s.counter)
  unfolding spin
  spin-on s h = ground arith

  spin-off :
      (s : SpinWait)
      → num_spins + num_yields ≤ s.counter
      → spin num_spins num_yields s ≡ some (false, s, [])
  unfolding spin
  spin-off s h = ground arith

  hints-le : (c : ℕ) → length (hints_at c) ≤ 8
  hints-le c = ground (arith, iterations-le (c + 1), length-cpu_relax (iterations (c + 1)))

  -- With NUM_SPINS below 32 and NUM_SPINS + NUM_YIELDS a u32, a loop on spin, from a counter no
  -- larger than that sum and with fuel to pass it, ends after exactly as many rounds as the
  -- counter is short of the sum.
  pub spin_rounds_exact :
      (k : ℕ) (s : SpinWait)
      → s.counter ≤ num_spins + num_yields
      → num_spins + num_yields < s.counter + k
      → spin_rounds num_spins num_yields k s ≡ some (num_spins + num_yields - s.counter)
  unfolding spin_rounds
  spin_rounds_exact zero s le fuel = absurd (omega arith)
  spin_rounds_exact (suc k) s le fuel = elim (dec_lt s.counter (num_spins + num_yields)) [
    | yes more ↦ ground (
      arith,
      spin-on s more,
      spin_rounds_exact k (record { counter = s.counter + 1 }) (omega arith) (omega arith),
    )
    | no done ↦ ground (arith, spin-off s)
  ]

  -- With NUM_SPINS below 32 and NUM_SPINS + NUM_YIELDS a u32, spin never overflows: while the
  -- counter is short of the sum, the sleep threshold, it counts one up and returns true with
  -- eight hints at most; once the threshold has been reached it returns false and changes
  -- nothing.
  pub spin_bounded :
      (s : SpinWait)
      → ((hints : List Hint) × (spin num_spins num_yields s
            ≡ some (true, record { counter = s.counter + 1 }, hints))
          × (s.counter < num_spins + num_yields)
          × (length hints ≤ 8))
        ⊎ ((spin num_spins num_yields s ≡ some (false, s, []))
            × (num_spins + num_yields ≤ s.counter))
  spin_bounded s = elim (dec_lt s.counter (num_spins + num_yields)) [
    | yes more ↦ inl (hints_at s.counter, spin-on s more, more, hints-le s.counter)
    | no done ↦ inr (spin-off s (omega arith), omega arith)
  ]

  -- With NUM_SPINS below 32 and a counter below the largest u32, spin_no_yield does not overflow,
  -- leaves the counter at NUM_SPINS at most, and pauses 2 ^ counter times.
  pub spin_no_yield_capped :
      (s : SpinWait)
      → s.counter + 1 < u32_mod
      → (s' : SpinWait) × (hints : List Hint) × (spin_no_yield num_spins num_yields s
          ≡ some (s', hints))
        × (s'.counter ≤ num_spins)
        × (length hints ≡ 2 ^ s'.counter)
  unfolding spin_no_yield
  spin_no_yield_capped s h = elim (dec_lt num_spins (s.counter + 1)) [
    | yes over ↦ (
      record { counter = num_spins },
      cpu_relax (2 ^ num_spins),
      ground arith,
      omega arith,
      length-cpu_relax (2 ^ num_spins),
    )
    | no under ↦ (
      record { counter = s.counter + 1 },
      cpu_relax (2 ^ (s.counter + 1)),
      ground arith,
      omega arith,
      length-cpu_relax (2 ^ (s.counter + 1)),
    )
  ]
