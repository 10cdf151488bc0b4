-- ===== src/Intrusive/Returns.antt =====
-- Total correctness of a command: it does not fault, its fuel is enough, and what then holds.
use colock.Intrusive.Heap.{Mem, Run, ok, fault, out_of_fuel, Cmd, and_then}

module _ {E D : Type 0} where
  abbrev pub Returns : {A : Type 0} → (A → Mem E D → Type 0) → Run E D A → Type 0
  Returns P (ok a m) = P a m
  Returns P fault = ⊥
  Returns P out_of_fuel = ⊥

  pub bind :
      {A B : Type 0} (P : A → Mem E D → Type 0) (Q : B → Mem E D → Type 0) (r : Run E D A)
      (k : A → Cmd E D B)
      → Returns P r
      → ((a : A) (m : Mem E D) → P a m → Returns Q (k a m))
      → Returns Q (and_then r k)
  bind P Q (ok a m) k p next = next a m p
  bind P Q fault k p next = absurd p
  bind P Q out_of_fuel k p next = absurd p

  pub mono :
      {A : Type 0} (P Q : A → Mem E D → Type 0) (r : Run E D A)
      → Returns P r
      → ((a : A) (m : Mem E D) → P a m → Q a m)
      → Returns Q r
  mono P Q (ok a m) p weaken = weaken a m p
  mono P Q fault p weaken = p
  mono P Q out_of_fuel p weaken = p
