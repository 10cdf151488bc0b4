-- ===== src/Examples/Small.antt =====
-- The spinner and the state byte at concrete inputs.
use colock.Base.{◌+◌, ◌^◌, ◌≤◌, ◌<◌, ◌≡◌, ◌⊎◌, true, false, some, List, [], arith, length}
use colock.SpinWait.{SpinWait, Hint, new, spin, spin_no_yield, spin_rounds}
use colock.SpinWait.Laws.{spin_rounds_exact, spin_bounded, spin_no_yield_capped}
use colock.RawMutex.Flags.{BitOps, byte-BitOps}

-- `SpinWait<3, 3>`, as `MiniLock` uses it.
six_rounds : spin_rounds 3 3 7 new ≡ some 6
six_rounds = spin_rounds_exact 3 3 (omega arith) (omega arith) 7 new (omega arith) (omega arith)

spin_bounded_example :
    ((hints : List Hint) × (spin 3 3 (record { counter = 2 })
        ≡ some (true, record { counter = 2 + 1 }, hints))
      × (◌<◌ 2 (3 + 3))
      × (length hints ≤ 8))
    ⊎ ((spin 3 3 (record { counter = 2 }) ≡ some (false, record { counter = 2 }, [])) × (3 + 3 ≤ 2))
spin_bounded_example = spin_bounded 3 3 (omega arith) (omega arith) (record { counter = 2 })

spin_no_yield_from_five :
    (s' : SpinWait) × (hints : List Hint) × (spin_no_yield 3 3 (record { counter = 5 })
      ≡ some (s', hints))
    × (s'.counter ≤ 3)
    × (length hints ≡ 2 ^ s'.counter)
spin_no_yield_from_five =
    spin_no_yield_capped 3 3 (omega arith) (omega arith) (record { counter = 5 }) (omega arith)

three_as_bits : BitOps 3
three_as_bits = byte-BitOps 3 (omega arith)
