-- ===== src/RawMutex/Deadline.antt =====
-- colock/src/mutex/raw_mutex.rs and lock_utils.rs: one call of `lock_inner` by the readings of the
-- clock. What the other threads do shows in what the call reads; a new node is never refused.
use colock.Base.{
  ℕ, zero, suc, ◌+◌, ◌<◌, ◌≤◌, ◌≡◌, refl, ◌∙◌, ◌⊎◌, inl, inr, Bool, true, false, Option, none, some,
  List, [], ◌∷◌, map, arith, if◌then◌else◌, Bool-cases,
}
use colock.Parking.{Round, park_until, park}
use colock.Parking.Laws.{Quiet, Decided, Outcome, park_until-Outcome}

-- `Instant` and `Duration`
pub data Timeout : Type 0 where
  instant : ℕ → Timeout
  duration : ℕ → Timeout

unfoldable pub to_instant : Timeout → (now : ℕ) → ℕ
to_instant (instant t) now = t
to_instant (duration d) now = now + d

-- A round of the loop: what `try_lock` returns, whether `should_sleep` got the lock, the time that
-- `to_instant` reads, the rounds of the parker, and whether the load after them sees FAIR_BIT.
pub record Attempt : Type 0 where
  pub acquired : Bool
  pub aborted : Bool
  pub now : ℕ
  pub rounds : List Round
  pub fair : Bool

abbrev returned : Option (List Bool) → Option Bool
returned none = none
returned (some loads) = some true

unfoldable pub wait_for : Option Timeout → Attempt → Option Bool
wait_for none a = returned (park (map (λ r. r.seen) a.rounds))
wait_for (some timeout) a = park_until (to_instant timeout a.now) a.rounds

unfoldable pub after_wait : Option Bool → Bool → Option Bool → Option Bool
after_wait none fair later = none
after_wait (some false) fair later = some false
after_wait (some true) fair later = if fair then some true else later

-- `none`: still waiting after these.
unfoldable pub lock_inner : Option Timeout → List Attempt → Option Bool
lock_inner timeout [] = none
lock_inner timeout (a ∷ attempts) =
    let later = lock_inner timeout attempts in
    if a.acquired
    then some true
    else if a.aborted
    then some true
    else after_wait (wait_for timeout a) a.fair later

-- Woken in time, but another thread has the lock again.
abbrev lost : ℕ → Attempt
lost now = record {
  acquired = false;
  aborted = false;
  now = now;
  rounds = record { now = now; seen = true } ∷ [];
  fair = false;
}

-- `n` lost attempts, `gap` apart.
unfoldable pub losing : (now gap n : ℕ) → List Attempt
losing now gap zero = []
losing now gap (suc n) = lost now ∷ losing (now + gap) gap n

-- In a call that still waits, each wait but the last ended in time and without the lock, and the
-- last goes on; all the readings are before the deadline that the attempt has computed.
abbrev pub InTime : Timeout → List Attempt → Type 0
InTime timeout [] = Unit
InTime timeout (a ∷ attempts) =
    (a.acquired ≡ false)
    × (a.aborted ≡ false)
    × (Quiet (to_instant timeout a.now) a.rounds
        ⊎ (Decided (to_instant timeout a.now) a.rounds (some true)
            × (a.fair ≡ false)
            × InTime timeout attempts))

still_waits :
    (timeout : Timeout) (a : Attempt) (attempts : List Attempt)
    → lock_inner (some timeout) (a ∷ attempts) ≡ none
    → (a.acquired ≡ false)
      × (a.aborted ≡ false)
      × (after_wait
            (park_until (to_instant timeout a.now) a.rounds)
            a.fair
            (lock_inner (some timeout) attempts)
          ≡ none)
unfolding lock_inner wait_for
still_waits timeout a attempts e = elim (Bool-cases a.acquired) [
  | inl up ↦ cc (rw up at e)
  | inr down ↦ elim (Bool-cases a.aborted) [
    | inl up ↦ cc (rw (down, up) at e)
    | inr down' ↦ (down, down', rw (down, down') at e)
  ]
]

after_wait-none :
    (timeout : Timeout) (a : Attempt) (attempts : List Attempt) (o later : Option Bool)
    → Outcome (to_instant timeout a.now) a.rounds o
    → (later ≡ none → InTime timeout attempts)
    → after_wait o a.fair later ≡ none
    → Quiet (to_instant timeout a.now) a.rounds
      ⊎ (Decided (to_instant timeout a.now) a.rounds (some true)
          × (a.fair ≡ false)
          × InTime timeout attempts)
unfolding after_wait Outcome
after_wait-none timeout a attempts none later (inl (q, e)) next w = inl q
after_wait-none timeout a attempts none later (inr d) next w = elim d.verdict [
  | inl (_, e) ↦ cc e
  | inr (_, _, e) ↦ cc e
]
after_wait-none timeout a attempts (some false) later o next w = cc
after_wait-none timeout a attempts (some true) later (inl (q, e)) next w = cc e
after_wait-none timeout a attempts (some true) later (inr d) next w = elim (Bool-cases a.fair) [
  | inl up ↦ cc (rw up at w)
  | inr down ↦ inr (d, down, next (rw down at w))
]

pub waits-InTime :
    (timeout : Timeout) (attempts : List Attempt)
    → lock_inner (some timeout) attempts ≡ none
    → InTime timeout attempts
waits-InTime timeout [] e = tt
waits-InTime timeout (a ∷ attempts) e =
    let (h, h', w) = still_waits timeout a attempts e in
    (
      h,
      h',
      after_wait-none timeout a attempts _ _ (park_until-Outcome _ a.rounds)
          (waits-InTime timeout attempts) w,
    )

lost-waits :
    (timeout : Timeout) (now : ℕ) (attempts : List Attempt)
    → now < to_instant timeout now
    → lock_inner (some timeout) (lost now ∷ attempts) ≡ lock_inner (some timeout) attempts
unfolding lock_inner wait_for after_wait park_until
lost-waits timeout now attempts lt = ground (arith, lt)

never_late : (gap d now n : ℕ) → 0 < d → lock_inner (some (duration d)) (losing now gap n) ≡ none
unfolding losing to_instant lock_inner
never_late gap d now zero lt = refl
never_late gap d now (suc n) lt =
    lost-waits (duration d) now (losing (now + gap) gap n) (omega (arith, lt))
    ∙ never_late gap d (now + gap) n lt

gives_up :
    (time now : ℕ) (attempts : List Attempt)
    → time ≤ now
    → lock_inner (some (instant time)) (lost now ∷ attempts) ≡ some false
unfolding lock_inner wait_for after_wait park_until to_instant
gives_up time now attempts le = ground (arith, le)

-- With a positive duration d, a call of lock_inner that begins at the time now is still waiting
-- after any number of attempts, d apart, in each of which the thread is woken at once but finds
-- the lock taken again without FAIR_BIT; with the instant now + d, the second such attempt
-- returns false, however many more could follow.
pub deadline_restarts :
    (d now n : ℕ)
    → 0 < d
    → (lock_inner (some (duration d)) (losing now d n) ≡ none)
      × (lock_inner (some (instant (now + d))) (losing now d (suc (suc n))) ≡ some false)
unfolding losing to_instant
deadline_restarts d now n lt = (
  never_late d d now n lt,
  lost-waits (instant (now + d)) now (losing (now + d) d (suc n)) (omega (arith, lt))
      ∙ gives_up (now + d) (now + d) (losing (now + d + d) d n) (omega arith),
)
