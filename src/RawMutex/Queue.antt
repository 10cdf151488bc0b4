-- ===== src/RawMutex/Queue.antt =====
-- The queue of sleepers as the mutex uses it: entries join at the head and leave from the tail.
-- `Intrusive` proves that its list does so.
use colock.Base.{
  mem, distinct, ℕ, ◌≡◌, refl, true, false, not, ◌&&◌, ◌||◌, Option, none, some, List, [], ◌∷◌,
  ◌++◌, arith, ◌==◌, if◌then◌else◌,
}

abbrev add_front : ℕ → Option (List ℕ × ℕ) → Option (List ℕ × ℕ)
add_front i none = some ([], i)
add_front i (some (r, w)) = some (i ∷ r, w)

-- `pop_tail`, on the entries from head to tail.
unfoldable pub pop_last : List ℕ → Option (List ℕ × ℕ)
pop_last [] = none
pop_last (i ∷ q) = add_front i (pop_last q)

-- `remove_node`
unfoldable pub remove : ℕ → List ℕ → List ℕ
remove i [] = []
remove i (j ∷ q) = if i == j then q else j ∷ remove i q

pub pop_last-none : (q : List ℕ) → pop_last q ≡ none → q ≡ []
unfolding pop_last
pop_last-none [] h = refl
pop_last-none (i ∷ q) h = ground arith

pub pop_last-append : (q r : List ℕ) (w : ℕ) → pop_last q ≡ some (r, w) → q ≡ r ++ w ∷ []
unfolding pop_last
pop_last-append [] r w h = cc
pop_last-append (i ∷ q) r w h = split (pop_last q) refl h (pop_last-append q)
  where
    split :
        (o : Option (List ℕ × ℕ))
        → pop_last q ≡ o
        → add_front i o ≡ some (r, w)
        → ((r' : List ℕ) (w' : ℕ) → pop_last q ≡ some (r', w') → q ≡ r' ++ w' ∷ [])
        → i ∷ q ≡ r ++ w ∷ []
    split none e h' ih = ground (arith, pop_last-none q e)
    split (some (r', w')) e h' ih = ground (arith, ih r' w' e)

mem-append_one : (i w : ℕ) (r : List ℕ) → mem i (r ++ w ∷ []) ≡ (mem i r || (i == w))
mem-append_one i w [] = ground arith
mem-append_one i w (j ∷ r) = ground (arith, mem-append_one i w r)

distinct-append_one :
    (w : ℕ) (r : List ℕ) → distinct (r ++ w ∷ []) ≡ true → (distinct r ≡ true) × (mem w r ≡ false)
distinct-append_one w [] d = (refl, refl)
distinct-append_one w (j ∷ r) d = ground (arith, mem-append_one j w r, distinct-append_one w r)

-- What a pop from the tail takes and leaves.
module _ (q r : List ℕ) (w : ℕ) (h : pop_last q ≡ some (r, w)) where
  pub mem-pop_last : (i : ℕ) → mem i q ≡ (mem i r || (i == w))
  mem-pop_last i = rw (pop_last-append q r w h) (mem-append_one i w r)

  pub distinct-pop_last : distinct q ≡ true → (distinct r ≡ true) × (mem w r ≡ false)
  distinct-pop_last d = distinct-append_one w r (rw (pop_last-append q r w h) at d)

pub mem-remove :
    (i j : ℕ) (q : List ℕ) → distinct q ≡ true → mem j (remove i q) ≡ (mem j q && not (j == i))
unfolding remove
mem-remove i j [] d = refl
mem-remove i j (k ∷ q) d = ground (arith, mem-remove i j q)

pub distinct-remove : (i : ℕ) (q : List ℕ) → distinct q ≡ true → distinct (remove i q) ≡ true
unfolding remove
distinct-remove i [] d = refl
distinct-remove i (k ∷ q) d = ground (arith, distinct-remove i q, mem-remove i k q)
