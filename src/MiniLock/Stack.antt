-- ===== src/MiniLock/Stack.antt =====
-- mini_lock/src/lib.rs: the stack of waiting nodes that the word of the lock points to.
use colock.Base.{
  mem, distinct, ℕ, ◌≡◌, refl, Bool, true, false, not, List, [], ◌∷◌, ◌⊎◌, inl, inr, ◌==◌, arith,
}
use colock.MiniLock.Word.{get_ptr, set_flag, address}
use colock.MiniLock.Thread.{Pc, parked, pushing, popping, releasing, waking, Shared}

-- From `ptr` on, the `next` fields lead through the nodes of these threads.
abbrev pub Chain : (ℕ → ℕ) → ℕ → List ℕ → Type 0
Chain next ptr [] = ptr ≡ 0
Chain next ptr (i ∷ is) = (ptr ≡ address i) × Chain next (next i) is

pub Chain-same :
    (f g : ℕ → ℕ) (ptr : ℕ) (is : List ℕ)
    → ((j : ℕ) → mem j is ≡ true → f j ≡ g j)
    → Chain f ptr is
    → Chain g ptr is
Chain-same f g ptr [] same c = c
Chain-same f g ptr (i ∷ is) same (here, c) =
    (here, rw (same i (ground arith)) at (Chain-same f g (f i) is (λ j h. same j (ground arith)) c))

-- The pointer of a word is even, and marking the word does not change it.
pub get_ptr-set_flag :
    (next : ℕ → ℕ) (ptr : ℕ) (is : List ℕ) → Chain next ptr is → get_ptr (set_flag ptr) ≡ ptr
get_ptr-set_flag next ptr [] c = omega arith
get_ptr-set_flag next ptr (i ∷ is) (here, c) = omega arith

-- In `park`, and not woken.
abbrev asleep_at : Pc → Bool → Bool
asleep_at parked flag = not flag
asleep_at _ flag = false

abbrev pub is_asleep : Shared → (ℕ → Pc) → ℕ → Bool
is_asleep m pc i = asleep_at (pc i) (m.flags i)

-- Has taken this sleeper's node off the stack, and not yet woken it.
abbrev pub wakes : ℕ → Pc → Bool
wakes w (releasing w') = w == w'
wakes w (waking w') = w == w'
wakes w _ = false

abbrev pub is_pushing : Pc → Bool
is_pushing (pushing _) = true
is_pushing _ = false

-- A word whose pointer is null, or the node of a thread of the stack.
abbrev pub Points : ℕ → List ℕ → Type 0
Points word is = (get_ptr word ≡ 0) ⊎ ((z : ℕ) × (get_ptr word ≡ address z) × (mem z is ≡ true))

pub Chain-Points :
    (next : ℕ → ℕ) (word : ℕ) (is : List ℕ) → Chain next (get_ptr word) is → Points word is
Chain-Points next word [] c = inl c
Chain-Points next word (i ∷ is) c = inr (i, c.0, ground arith)

pub Chain-null : (next : ℕ → ℕ) (ptr : ℕ) (is : List ℕ) → ptr ≡ 0 → Chain next ptr is → is ≡ []
Chain-null next ptr [] e c = refl
Chain-null next ptr (i ∷ is) e c = absurd (omega arith)

pub Points-push : (word i : ℕ) (is : List ℕ) → Points word is → Points word (i ∷ is)
Points-push word i is (inl e) = inl e
Points-push word i is (inr (z, e, q)) = inr (z, e, ground arith)

-- The stack of a state, and who sleeps on it.
pub record Waits (m : Shared) (pc : ℕ → Pc) (is : List ℕ) : Type 0 where
  pub chain : Chain m.next (get_ptr m.head) is
  pub once : distinct is ≡ true
  pub queued : (i : ℕ) → mem i is ≡ true → (is_asleep m pc i ≡ true) × (m.waker i ≡ true)
  pub fresh : (i : ℕ) → is_pushing (pc i) ≡ true → (m.flags i ≡ false) × (m.waker i ≡ true)
  pub popped : (i w : ℕ) → wakes w (pc i) ≡ true → (is_asleep m pc w ≡ true) × (mem w is ≡ false)
  pub one_waker : (i j w : ℕ) → wakes w (pc i) ≡ true → wakes w (pc j) ≡ true → i ≡ j
  pub sleeping :
      (i : ℕ) → is_asleep m pc i ≡ true → (mem i is ≡ true) ⊎ ((j : ℕ) × (wakes i (pc j) ≡ true))
  pub reads : (i word : ℕ) → pc i ≡ popping word → Points word is
