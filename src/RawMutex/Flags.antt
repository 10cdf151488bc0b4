-- ===== src/RawMutex/Flags.antt =====
-- colock/src/mutex/raw_mutex.rs: the state byte, an `AtomicU8`, and the bit operations on it.
-- They are written by `/` and `%`, which the arithmetic of the proofs reads, and are proved to be
-- the bit operations of the source on every byte.
use Prim.Native.Nat.{bit_and, bit_or, bit_xor}
use colock.Base.{
  ℕ, zero, suc, ◌+◌, ◌-◌, ◌*◌, ◌/◌, ◌%◌, ◌<◌, ◌≡◌, refl, Bool, true, false, ◌&&◌, arith, ◌==◌,
  eq_of_test,
}

abbrev pub unlocked : ℕ
unlocked = 0

abbrev pub locked_bit : ℕ
locked_bit = 1

abbrev pub wait_bit : ℕ
wait_bit = 2

abbrev pub fair_bit : ℕ
fair_bit = 4

-- `LOCKED_BIT | WAIT_BIT`
abbrev pub contended : ℕ
contended = 3

-- `state & LOCKED_BIT != 0`, and so for the other flags.
abbrev pub is_locked : ℕ → Bool
is_locked s = s % 2 == 1

abbrev pub is_waiting : ℕ → Bool
is_waiting s = s / 2 % 2 == 1

abbrev pub is_fair : ℕ → Bool
is_fair s = s / 4 % 2 == 1

-- `state | LOCKED_BIT`, `state & !LOCKED_BIT`
abbrev pub set_locked : ℕ → ℕ
set_locked s = s / 2 * 2 + 1

abbrev pub clear_locked : ℕ → ℕ
clear_locked s = s / 2 * 2

-- `state & !WAIT_BIT`
abbrev pub clear_wait : ℕ → ℕ
clear_wait s = s / 4 * 4 + s % 2

-- `state | FAIR_BIT`, `state & !FAIR_BIT`
abbrev pub set_fair : ℕ → ℕ
set_fair s = s / 8 * 8 + 4 + s % 4

abbrev pub clear_fair : ℕ → ℕ
clear_fair s = s / 8 * 8 + s % 4

-- `state ^ (WAIT_BIT | FAIR_BIT)`
abbrev pub flip_wait_fair : ℕ → ℕ
flip_wait_fair s = s / 8 * 8 + (1 - s / 4 % 2) * 4 + (1 - s / 2 % 2) * 2 + s % 2

-- A test passes on the numbers up to a bound.
passes : (ℕ → Bool) → ℕ → Bool
passes test zero = true
passes test (suc bound) = passes test bound && test bound

passes_at : (test : ℕ → Bool) (bound s : ℕ) → s < bound → passes test bound ≡ true → test s ≡ true
unfolding passes
passes_at test zero s in_range all = absurd (omega arith)
passes_at test (suc bound) s in_range all = ground (arith, passes_at test bound s)

same_test : Bool → Bool → Bool
same_test true b = b
same_test false true = false
same_test false false = true

-- On every byte the tests and updates of the model are the bit operations of the source.
-- `!bit` is `0xff - bit`.
pub record BitOps (s : ℕ) : Type 0 where
  pub locked : is_locked s ≡ (bit_and s locked_bit == locked_bit)
  pub waiting : is_waiting s ≡ (bit_and s wait_bit == wait_bit)
  pub fair : is_fair s ≡ (bit_and s fair_bit == fair_bit)
  pub lock : set_locked s ≡ bit_or s locked_bit
  pub unlock : clear_locked s ≡ bit_and s (0xff - locked_bit)
  pub unwait : clear_wait s ≡ bit_and s (0xff - wait_bit)
  pub hand : set_fair s ≡ bit_or s fair_bit
  pub unhand : clear_fair s ≡ bit_and s (0xff - fair_bit)
  pub flip : flip_wait_fair s ≡ bit_xor s (bit_or wait_bit fair_bit)

same_of_test : (a b : Bool) → same_test a b ≡ true → a ≡ b
unfolding same_test
same_of_test true b h = ground arith
same_of_test false true h = ground arith
same_of_test false false h = refl

-- On every byte the tests and updates of the state by division and remainder are the bit
-- operations of the source.
pub byte-BitOps : (s : ℕ) → s < 256 → BitOps s
unfolding passes same_test
byte-BitOps s h = record {
  locked =
      same_of_test _ _ (
        passes_at (λ x. same_test (is_locked x) (bit_and x locked_bit == locked_bit)) 256 s h refl);
  waiting =
      same_of_test _ _
        (passes_at (λ x. same_test (is_waiting x) (bit_and x wait_bit == wait_bit)) 256 s h refl);
  fair =
      same_of_test _ _
        (passes_at (λ x. same_test (is_fair x) (bit_and x fair_bit == fair_bit)) 256 s h refl);
  lock = eq_of_test _ _ (passes_at (λ x. set_locked x == bit_or x locked_bit) 256 s h refl);
  unlock =
      eq_of_test _ _
        (passes_at (λ x. clear_locked x == bit_and x (0xff - locked_bit)) 256 s h refl);
  unwait =
      eq_of_test _ _ (passes_at (λ x. clear_wait x == bit_and x (0xff - wait_bit)) 256 s h refl);
  hand = eq_of_test _ _ (passes_at (λ x. set_fair x == bit_or x fair_bit) 256 s h refl);
  unhand =
      eq_of_test _ _ (passes_at (λ x. clear_fair x == bit_and x (0xff - fair_bit)) 256 s h refl);
  flip =
      eq_of_test _ _
        (passes_at (λ x. flip_wait_fair x == bit_xor x (bit_or wait_bit fair_bit)) 256 s h refl);
}
