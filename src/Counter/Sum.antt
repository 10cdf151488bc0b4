-- ===== src/Counter/Sum.antt =====
-- No increment under an exclusive lock is lost.
use colock.Base.{
  ℕ, ◌+◌, ◌-◌, ◌*◌, ◌<◌, ◌≡◌, refl, Bool, true, false, Option, none, some, List, [], ◌∷◌, arith,
  eq_self, eq_of_test, ltb, lt→ltb, ◌==◌, update, Bool-cases, inl, inr, subst, of_some, ◌∙◌,
}
use colock.Counter.Exclusive.{Ask, SharedLock, IsExclusive}
use colock.Counter.Client.{
  Phase, outside, inside, loaded, stored, Move, begin, work, read, write, finish, Client, u64_mod,
  start, goes_on, at_phase, move_one, move_all,
}
use colock.Base.Total.{total, total-change, total-zero, le-total, total-constant}

-- What a thread has still to add.
abbrev pub left : Phase → ℕ → ℕ
left stored n = n - 1
left _ n = n

left-zero : (p : Phase) → left p 0 ≡ 0
left-zero stored = refl
left-zero p = refl

-- Between the read and the drop the thread has the lock.
abbrev pub needs : Phase → Bool
needs (loaded _) = true
needs stored = true
needs _ = false

abbrev pub IsAt : Phase → ℕ → ℕ → Type 0
IsAt outside value n = Unit
IsAt inside value n = 0 < n
IsAt (loaded seen) value n = (seen ≡ value) × (0 < n)
IsAt stored value n = 0 < n

module _ {S : Type 0} (lock : SharedLock S) (IsGood : S → Type 0) where
  pub record Adds (j k : ℕ) (c : Client S) : Type 0 where
    pub good : IsGood c.sys
    pub owning : (i : ℕ) → needs (c.phase i) ≡ true → lock.owns c.sys i ≡ true
    pub at : (i : ℕ) → IsAt (c.phase i) c.value (c.todo i)
    pub sum : c.value + total k (λ i. left (c.phase i) (c.todo i)) ≡ k * j

  module _ (laws : IsExclusive lock IsGood) {j k : ℕ} where
    start-Adds : Adds j k (start lock j)
    start-Adds = record {
      good = laws.good_init;
      owning = λ i h. cc;
      at = λ i. tt;
      sum = omega (arith, total-constant k j);
    }

    -- A step of the lock, after which thread `i` is at `p` with `n` rounds to go.
    goes_on-Adds :
        (i : ℕ) (a : Ask) (p : Phase) (n : ℕ) (s : S) (c : Client S)
        → Adds j k c
        → lock.step i a c.sys ≡ some s
        → i < k
        → left p n ≡ left (c.phase i) (c.todo i)
        → IsAt p c.value n
        → (needs p ≡ true → lock.owns s i ≡ true)
        → Adds j k (record c { sys = s; phase = update c.phase i p; todo = update c.todo i n })
    goes_on-Adds i a p n s c inv e lt same at own = record {
      good = laws.good_step i a c.sys s inv.good e;
      owning = λ l h. elim (Bool-cases (l == i)) [
        | inl here ↦ rw (eq_of_test l i here) (own (rw here at h))
        | inr other ↦
            laws.others_keep i a c.sys s e l (λ x. ground arith) ∙ inv.owning l (rw other at h)
      ];
      at = λ l. ground (arith, inv.at l);
      sum = omega (
        arith,
        inv.sum,
        total-change k (λ l. left (c.phase l) (c.todo l))
            (λ l. left (update c.phase i p l) (update c.todo i n l)) i lt (λ l ne. ground arith),
        eq_self_left,
      );
    }
      where
        eq_self_left :
            left (update c.phase i p i) (update c.todo i n i) ≡ left (c.phase i) (c.todo i)
        eq_self_left = rw (eq_self i) same

    goes_on-kept :
        (i : ℕ) (a : Ask) (p : Phase) (n : ℕ) (o : Option S) (c c' : Client S)
        → Adds j k c
        → lock.step i a c.sys ≡ o
        → i < k
        → left p n ≡ left (c.phase i) (c.todo i)
        → IsAt p c.value n
        → ((s : S) → o ≡ some s → needs p ≡ true → lock.owns s i ≡ true)
        → goes_on lock o i p n c ≡ some c'
        → Adds j k c'
    goes_on-kept i a p n none c c' inv e lt same at own h = cc
    goes_on-kept i a p n (some s) c c' inv e lt same at own h =
        subst (Adds j k) (of_some h) (goes_on-Adds i a p n s c inv e lt same at (own s refl))

    read-Adds :
        (i : ℕ) (c : Client S)
        → Adds j k c
        → c.phase i ≡ inside
        → i < k
        → lock.owns c.sys i ≡ true
        → Adds j k (record c { phase = update c.phase i (loaded c.value) })
    read-Adds i c inv e lt own = record {
      good = inv.good;
      owning = λ l h. ground (arith, inv.owning l);
      at = λ l. ground (arith, inv.at l, inv.at i);
      sum = omega (
        arith,
        inv.sum,
        total-change k (λ l. left (c.phase l) (c.todo l))
            (λ l. left (update c.phase i (loaded c.value) l) (c.todo l)) i lt
            (λ l ne. ground arith),
        unread,
      );
    }
      where
        unread : left (update c.phase i (loaded c.value) i) (c.todo i) ≡ left (c.phase i) (c.todo i)
        unread = ground arith

    write-Adds :
        (i seen : ℕ) (c : Client S)
        → Adds j k c
        → c.phase i ≡ loaded seen
        → i < k
        → Adds j k (record c { value = seen + 1; phase = update c.phase i stored })
    write-Adds i seen c inv e lt = record {
      good = inv.good;
      owning = λ l h. ground (arith, inv.owning l, inv.owning i);
      at = λ l. ground (
        arith,
        inv.at l,
        inv.at i,
        inv.owning l,
        inv.owning i,
        laws.one_owner c.sys inv.good l i,
      );
      sum = omega (
        arith,
        inv.sum,
        total-change k (λ l. left (c.phase l) (c.todo l))
            (λ l. left (update c.phase i stored l) (c.todo l)) i lt (λ l ne. ground arith),
        written.0,
        written.1,
      );
    }
      where
        written :
            (left (update c.phase i stored i) (c.todo i) + 1 ≡ left (c.phase i) (c.todo i))
            × (seen ≡ c.value)
        written = ground (arith, inv.at i)

    at_phase-Adds :
        (i : ℕ) (m : Move) (p : Phase) (c c' : Client S)
        → Adds j k c
        → c.phase i ≡ p
        → i < k
        → at_phase lock i m p c ≡ some c'
        → Adds j k c'
    unfolding at_phase
    at_phase-Adds i begin outside c c' inv e lt h = elim (Bool-cases (c.todo i == 0)) [
      | inl over ↦ ground arith
      | inr more ↦
          goes_on-kept i Ask.lock inside (c.todo i) _ c c' inv refl lt (rw e) (ground arith)
            (λ s x. cc) (rw more at h)
    ]
    at_phase-Adds i read inside c c' inv e lt h = elim (Bool-cases (lock.owns c.sys i)) [
      | inl own ↦ subst (Adds j k) (of_some (rw own at h)) (read-Adds i c inv e lt own)
      | inr other ↦ ground arith
    ]
    at_phase-Adds i write (loaded seen) c c' inv e lt h =
        elim (Bool-cases (ltb (seen + 1) u64_mod)) [
          | inl fits ↦ subst (Adds j k) (of_some (rw fits at h)) (write-Adds i seen c inv e lt)
          | inr over ↦ cc (rw over at h)
        ]
    at_phase-Adds i finish stored c c' inv e lt h =
        goes_on-kept i Ask.unlock outside (c.todo i - 1) _ c c' inv refl lt (rw e) tt (λ s x. cc) h
    at_phase-Adds i work p c c' inv e lt h =
        goes_on-kept i Ask.run p (c.todo i) _ c c' inv refl lt (rw e) (rw e at (inv.at i))
          (λ s x need. laws.run_keeps i c.sys s x (inv.owning i (rw e need))) h
    at_phase-Adds i begin inside c c' inv e lt h = cc
    at_phase-Adds i m p c c' inv e lt h = cc

    move_all-Adds :
        (moves : List (ℕ × Move)) (o : Option (Client S)) (c' : Client S)
        → ((c : Client S) → o ≡ some c → Adds j k c)
        → move_all lock k moves o ≡ some c'
        → Adds j k c'
    unfolding move_one
    move_all-Adds moves none c' inv h = cc
    move_all-Adds [] (some c) c' inv h = inv c' h
    move_all-Adds ((i, m) ∷ moves) (some c) c' inv h =
        move_all-Adds moves (move_one lock k i m c) c' (λ d e. moved d e) h
      where
        moved : (d : Client S) → move_one lock k i m c ≡ some d → Adds j k d
        moved d e = elim (Bool-cases (ltb i k)) [
          | inl lt ↦ at_phase-Adds i m (c.phase i) c d (inv c refl) refl (ground arith) (rw lt at e)
          | inr ge ↦ cc (rw ge at e)
        ]

    reached-Adds :
        (moves : List (ℕ × Move)) (c : Client S)
        → move_all lock k moves (some (start lock j)) ≡ some c
        → Adds j k c
    reached-Adds moves c h =
        move_all-Adds moves (some (start lock j)) c (λ d e. subst (Adds j k) (of_some e) start-Adds)
          h

  module _ (laws : IsExclusive lock IsGood) (j k : ℕ) (moves : List (ℕ × Move)) (c : Client S)
      (reached : move_all lock k moves (some (start lock j)) ≡ some c) where
    -- Over any lock with the laws of IsExclusive, if k threads that each increment the number j
    -- times under the lock have, by any interleaving, no iteration left, the number is k * j.
    pub lots_and_lots : ((i : ℕ) → i < k → c.todo i ≡ 0) → c.value ≡ k * j
    lots_and_lots over =
        let inv = reached-Adds laws moves c reached in
        omega (
          arith,
          inv.sum,
          total-zero k (λ i. left (c.phase i) (c.todo i))
              (λ i lt. rw (over i lt) (left-zero (c.phase i))),
        )

    -- Over any such lock, in every state that the interleavings come to, if k * j is below 2 ^ 64
    -- a thread that has read the number can write it plus one: the addition does not overflow and
    -- no update in between is lost.
    pub write_fits :
        (i seen : ℕ)
        → i < k
        → c.phase i ≡ loaded seen
        → k * j < u64_mod
        → move_one lock k i write c
          ≡ some (record c { value = c.value + 1; phase = update c.phase i stored })
    unfolding move_one at_phase
    write_fits i seen lt e small =
        let inv = reached-Adds laws moves c reached in
        let room = le-total k (λ i. left (c.phase i) (c.todo i)) i lt in
        let here : (seen ≡ c.value) × (0 < c.todo i) = rw e at (inv.at i) in
        let open_left : left (c.phase i) (c.todo i) ≡ c.todo i = rw e refl in
        let fits : seen + 1 < u64_mod = omega (arith, inv.sum, room, here, open_left, small) in
        rw (lt→ltb i k lt, e, lt→ltb (seen + 1) u64_mod fits, here.0)
