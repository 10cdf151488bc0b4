-- ===== src/Base.antt =====
-- The names, tests and list helpers that the components share, over the native numbers.
pub mod Total
pub use Prim.Native.Nat.{ℕ, zero, suc, ◌+◌, ◌-◌, ◌*◌, ◌/◌, ◌%◌, ◌^◌, ◌≤◌, ◌<◌}
pub use mathlib.Core.Path.{◌≡◌, refl, sym, ap, ◌∙◌, subst}
pub use mathlib.Core.Logic.{◌≢◌, ◌⊎◌, inl, inr}
pub use mathlib.Core.Bool.{Bool, true, false, not, ◌&&◌, ◌||◌}
pub use mathlib.Core.Option.{Option, none, some}
pub use mathlib.Core.List.{List, [], ◌∷◌, ◌++◌, map, append-nil, append_assoc}
pub use native.Mathlib.Omega.{arith}
use Prim.Native.Nat.{compare, Ordering}

abbrev pub ltb : ℕ → ℕ → Bool
ltb a b = elim (compare a b) [ Ordering.lt ↦ true | _ ↦ false ]

abbrev pub leb : ℕ → ℕ → Bool
leb a b = elim (compare a b) [ Ordering.gt ↦ false | _ ↦ true ]

infix 50 ◌==◌
abbrev pub ◌==◌ : ℕ → ℕ → Bool
a == b = elim (compare a b) [ Ordering.eq ↦ true | _ ↦ false ]

infix 1 if◌then◌else◌
abbrev pub if◌then◌else◌ {ℓ} : {A : Type ℓ} → Bool → A → A → A
if true then x else y = x
if false then x else y = y

pub lt→ltb : (a b : ℕ) → a < b → ltb a b ≡ true
lt→ltb a b h = ground arith

pub eq_self : (a : ℕ) → (a == a) ≡ true
eq_self a = ground arith

pub eq_of_test : (a b : ℕ) → (a == b) ≡ true → a ≡ b
eq_of_test a b h = ground arith

pub ne→eq_false : (a b : ℕ) → a ≢ b → (a == b) ≡ false
ne→eq_false a b h = ground arith

pub Bool-cases : (b : Bool) → (b ≡ true) ⊎ (b ≡ false)
Bool-cases true = inl refl
Bool-cases false = inr refl

pub of_some {ℓ} : {A : Type ℓ} {a b : A} → some a ≡ some b → a ≡ b
of_some {a} h = ap (λ o. elim o [ none ↦ a | some x ↦ x ]) h

-- 2 ^ 64, the number of values of a `usize`.
abbrev pub usize_mod : ℕ
usize_mod = 2 ^ 64

-- A family indexed by numbers, changed at one index.
abbrev pub update {ℓ} : {A : Type ℓ} → (ℕ → A) → ℕ → A → ℕ → A
update f i a j = if j == i then a else f j

pub update_ne {ℓ} : {A : Type ℓ} (f : ℕ → A) (i j : ℕ) (a : A) → i ≢ j → update f j a i ≡ f i
update_ne f i j a ne = ground arith

pub update_ne2 {ℓ} :
    {A : Type ℓ} (f : ℕ → A) (i j k : ℕ) (a b : A)
    → i ≢ j
    → i ≢ k
    → update (update f j a) k b i ≡ f i
update_ne2 f i j k a b ne ne' = ground arith

pub update_ne3 {ℓ} :
    {A : Type ℓ} (f : ℕ → A) (i j k l : ℕ) (a b c : A)
    → i ≢ j
    → i ≢ k
    → i ≢ l
    → update (update (update f j a) k b) l c i ≡ f i
update_ne3 f i j k l a b c ne ne' ne'' = ground arith

pub update_same {ℓ} : {A : Type ℓ} (f : ℕ → A) (i : ℕ) (a : A) → update f i a i ≡ a
update_same f i a = ground arith

module _ {ℓ} {A : Type ℓ} where
  abbrev pub length : List A → ℕ
  length [] = 0
  length (x ∷ xs) = suc (length xs)

  pub length-append : (xs ys : List A) → length (xs ++ ys) ≡ length xs + length ys
  length-append [] ys = omega arith
  length-append (x ∷ xs) ys = omega (arith, length-append xs ys)

-- Membership, and lists with no repetition, by tests.
abbrev pub mem : ℕ → List ℕ → Bool
mem i [] = false
mem i (j ∷ q) = (i == j) || mem i q

abbrev pub distinct : List ℕ → Bool
distinct [] = true
distinct (i ∷ q) = not (mem i q) && distinct q
