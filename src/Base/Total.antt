-- ===== src/Base/Total.antt =====
-- Sums over the threads below a number.
use colock.Base.{
  ◌⊎◌, Bool, true, false, ℕ, zero, suc, ◌+◌, ◌*◌, ◌<◌, ◌≤◌, ◌≡◌, ◌≢◌, inl, inr, refl, ap, arith,
  ◌==◌, Bool-cases, eq_of_test, update, update_same, update_ne,
}

unfoldable pub total : ℕ → (ℕ → ℕ) → ℕ
total zero f = 0
total (suc k) f = f k + total k f

pub total-same : (k : ℕ) (f g : ℕ → ℕ) → ((i : ℕ) → i < k → f i ≡ g i) → total k f ≡ total k g
unfolding total
total-same zero f g h = refl
total-same (suc k) f g h =
    omega (arith, h k (omega arith), total-same k f g (λ i lt. h i (omega arith)))

-- Two families that differ at one thread.
pub total-change :
    (k : ℕ) (f g : ℕ → ℕ) (i : ℕ)
    → i < k
    → ((l : ℕ) → l ≢ i → f l ≡ g l)
    → total k f + g i ≡ total k g + f i
unfolding total
total-change zero f g i lt h = absurd (omega arith)
total-change (suc k) f g i lt h = elim (Bool-cases (k == i)) [
  | inl last ↦ omega (
    arith,
    ap f (eq_of_test k i last),
    ap g (eq_of_test k i last),
    total-same k f g (λ l lt'. h l (λ e. ground arith)),
  )
  | inr before ↦ omega (arith, h k (λ e. ground arith), total-change k f g i (ground arith) h)
]

pub total-zero : (k : ℕ) (f : ℕ → ℕ) → ((i : ℕ) → i < k → f i ≡ 0) → total k f ≡ 0
unfolding total
total-zero zero f h = refl
total-zero (suc k) f h =
    omega (arith, h k (omega arith), total-zero k f (λ i lt. h i (omega arith)))

pub total-constant : (k j : ℕ) → total k (λ _. j) ≡ k * j
unfolding total
total-constant zero j = grind arith
total-constant (suc k) j = grind (arith, total-constant k j)

pub le-total : (k : ℕ) (f : ℕ → ℕ) (i : ℕ) → i < k → f i ≤ total k f
unfolding total
le-total zero f i lt = absurd (omega arith)
le-total (suc k) f i lt = elim (Bool-cases (k == i)) [
  | inl last ↦ omega (arith, ap f (eq_of_test k i last))
  | inr before ↦ omega (arith, le-total k f i (ground arith))
]

pub total-le : (k : ℕ) (f : ℕ → ℕ) → ((i : ℕ) → i < k → f i ≤ 1) → total k f ≤ k
unfolding total
total-le zero f h = omega arith
total-le (suc k) f h = omega (arith, h k (omega arith), total-le k f (λ i lt. h i (omega arith)))

-- With all but one of the ones that fit, the other is the zero.
pub total-all_but_one :
    (k : ℕ) (f : ℕ → ℕ)
    → ((i : ℕ) → f i ≤ 1)
    → (i : ℕ) → i < k
    → f i ≡ 0
    → total k f + 1 ≡ k
    → (j : ℕ) → j < k
    → j ≢ i
    → f j ≡ 1
total-all_but_one k f small i lt zero_here full j lt' ne = elim (Bool-cases (f j == 1)) [
  | inl one ↦ eq_of_test (f j) 1 one
  | inr not_one ↦
      let g : ℕ → ℕ = update f i 1 in
      let h : ℕ → ℕ = update g j 1 in
      let here : total k f + g i ≡ total k g + f i =
        total-change k f g i lt (λ l ne'. ground arith) in
      let there : total k g + h j ≡ total k h + g j =
        total-change k g h j lt' (λ l ne'. ground arith) in
      let fits : total k h ≤ k = total-le k h (λ l lt''. ground (arith, small l)) in
      let g_here : g i ≡ 1 = update_same f i 1 in
      let h_there : h j ≡ 1 = update_same g j 1 in
      let g_there : g j ≡ f j = update_ne f j i 1 ne in absurd (ground (arith, small j))
]

-- A test fails somewhere below `k`, or nowhere.
pub fails_below :
    (k : ℕ) (f : ℕ → Bool) → ((j : ℕ) × (j < k) × (f j ≡ false)) ⊎ ((j : ℕ) → j < k → f j ≡ true)
fails_below zero f = inr (λ j lt. absurd (omega arith))
fails_below (suc k) f = elim (Bool-cases (f k)) [
  | inl here ↦ elim (fails_below k f) [
    | inl (j, lt, bad) ↦ inl (j, omega arith, bad)
    | inr all ↦ inr (λ j lt. ground (arith, all j, here))
  ]
  | inr bad ↦ inl (k, omega arith, bad)
]
