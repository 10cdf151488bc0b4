-- ===== src/LockSpec.antt =====
-- What RawMutex and RawMiniLock promise, as one lock: it is free, or one party holds it.
use colock.Base.{
  ℕ, ◌≡◌, ◌≢◌, ◌⊎◌, Bool, true, false, Option, none, some, ◌==◌, arith, Bool-cases, eq_of_test, inl,
  inr, subst, sym, ◌∙◌,
}

-- What one party `i` can do to a lock.
pub data LockStep (i : ℕ) : Option ℕ → Option ℕ → Type 0 where
  keeps : {o : Option ℕ} → LockStep i o o
  acquires : LockStep i none (some i)
  releases : LockStep i (some i) none

-- A lock with this bit and these holders is free, or held by one.
abbrev pub Shows : Bool → (ℕ → Bool) → Option ℕ → Type 0
Shows locked holds none = (locked ≡ false) × ((j : ℕ) → holds j ≡ false)
Shows locked holds (some i) =
    (locked ≡ true) × (holds i ≡ true) × ((j : ℕ) → holds j ≡ true → j ≡ i)

-- Only the bit and the part of party `i` change. There is one holder at most, with the bit up, and
-- the bit goes down with it.
pub record Turns (i : ℕ) (locked locked' : Bool) (holds holds' : ℕ → Bool) : Type 0 where
  pub others : (j : ℕ) → j ≢ i → holds' j ≡ holds j
  pub one : (j k : ℕ) → holds' j ≡ true → holds' k ≡ true → j ≡ k
  pub bit_up : (j : ℕ) → holds' j ≡ true → locked' ≡ true
  pub bit_down : holds' i ≡ false → (locked ≡ false) ⊎ (holds i ≡ true) → locked' ≡ false

module _ {i : ℕ} {locked locked' : Bool} {holds holds' : ℕ → Bool}
    (turn : Turns i locked locked' holds holds') where
  held_by : (k : ℕ) → holds' k ≡ true → Shows locked' holds' (some k)
  held_by k has = (turn.bit_up k has, has, λ j other. turn.one j k other has)

  free_now : locked' ≡ false → Shows locked' holds' none
  free_now free = (
    free,
    λ j. elim (Bool-cases (holds' j)) [ inl has ↦ cc (turn.bit_up j has, free) | inr out ↦ out ],
  )

  -- A turn is a step of the lock.
  pub turn-LockStep :
      (o : Option ℕ)
      → Shows locked holds o
      → (o' : Option ℕ) × Shows locked' holds' o' × LockStep i o o'
  turn-LockStep none (free, nobody) = elim (Bool-cases (holds' i)) [
    | inl has ↦ (some i, held_by i has, acquires)
    | inr out ↦ (none, free_now (turn.bit_down out (inl free)), keeps)
  ]
  turn-LockStep (some k) (up, has, only) = elim (Bool-cases (k == i)) [
    | inl mine ↦
        let self : k ≡ i = eq_of_test k i mine in
        elim (Bool-cases (holds' i)) [
          | inl still ↦ (some k, held_by k (subst (λ j. holds' j ≡ true) (sym self) still), keeps)
          | inr out ↦ (
            none,
            free_now (turn.bit_down out (inr (subst (λ j. holds j ≡ true) self has))),
            subst (λ j. LockStep i (some j) none) (sym self) releases,
          )
        ]
    | inr other ↦ (some k, held_by k (turn.others k (ground arith) ∙ has), keeps)
  ]
