-- ===== src/Parking/Laws.antt =====
-- What the loops of parking/src/lib.rs return for what they read, and what a wake-up changes.
use colock.Base.{
  subst, eq_self, ap, ◌∙◌, if◌then◌else◌, append-nil, append_assoc, sym, ℕ, ◌-◌, ◌≤◌, ◌<◌, ◌≡◌,
  refl, ◌⊎◌, inl, inr, Bool, true, false, Option, none, some, List, [], ◌∷◌, ◌++◌, map, arith,
  Bool-cases, ◌==◌,
}
use colock.Parking.{
  World, Waker, Round, prepare_park, mark_parker, signal_of, wake, park_until, park,
}

-- Rounds before the deadline in which the flag is down.
abbrev pub Quiet : ℕ → List Round → Type 0
Quiet timeout [] = Unit
Quiet timeout (r ∷ rounds) = (r.now < timeout) × (r.seen ≡ false) × Quiet timeout rounds

-- The first round that decides, and what it decides.
pub record Decided (timeout : ℕ) (rounds : List Round) (result : Option Bool) : Type 0 where
  pub before : List Round
  pub round : Round
  pub after : List Round
  pub split : rounds ≡ before ++ round ∷ after
  pub quiet : Quiet timeout before
  pub verdict :
      ((timeout ≤ round.now) × (result ≡ some false))
      ⊎ ((round.now < timeout) × (round.seen ≡ true) × (result ≡ some true))

unfoldable pub Outcome : ℕ → List Round → Option Bool → Type 0
Outcome timeout rounds result =
    (Quiet timeout rounds × (result ≡ none)) ⊎ Decided timeout rounds result

Decided-after :
    {timeout : ℕ} {rounds : List Round} {result : Option Bool} (r : Round)
    → r.now < timeout
    → r.seen ≡ false
    → Decided timeout rounds result
    → Decided timeout (r ∷ rounds) result
Decided-after r lt down d = record {
  before = r ∷ d.before;
  round = d.round;
  after = d.after;
  split = cc d.split;
  quiet = (lt, down, d.quiet);
  verdict = d.verdict;
}

waits_on :
    (timeout : ℕ) (r : Round) (rounds : List Round)
    → (timeout - r.now == 0) ≡ false
    → r.seen ≡ false
    → park_until timeout rounds ≡ park_until timeout (r ∷ rounds)
unfolding park_until
waits_on timeout r rounds early down = rw (early, down) refl

-- Over any rounds of clock readings and flag loads, park_until goes on while the flag is down
-- before the deadline, and the first other round decides: false if its reading has reached the
-- deadline, whatever the flag, and true if the flag is up before it.
pub park_until-Outcome :
    (timeout : ℕ) (rounds : List Round) → Outcome timeout rounds (park_until timeout rounds)
unfolding park_until Outcome
park_until-Outcome timeout [] = inl (tt, refl)
park_until-Outcome timeout (r ∷ rounds) = elim (Bool-cases (timeout - r.now == 0)) [
  | inl over ↦ inr (record {
    before = [];
    round = r;
    after = rounds;
    split = refl;
    quiet = tt;
    verdict = inl (ground arith, rw over);
  })
  | inr early ↦ elim (Bool-cases r.seen) [
    | inl up ↦ inr (record {
      before = [];
      round = r;
      after = rounds;
      split = refl;
      quiet = tt;
      verdict = inr (ground arith, up, rw (early, up));
    })
    | inr down ↦ elim (park_until-Outcome timeout rounds) [
      | inl (quiet, waits) ↦
          inl ((ground arith, down, quiet), sym (waits_on timeout r rounds early down) ∙ waits)
      | inr d ↦ inr (
          subst (Decided timeout (r ∷ rounds)) (waits_on timeout r rounds early down)
            (Decided-after r (ground arith) down d))
    ]
  ]
]

abbrev pub AllDown : List Bool → Type 0
AllDown [] = Unit
AllDown (seen ∷ loads) = (seen ≡ false) × AllDown loads

-- Over any loads of the flag, park returns at the first load that sees it up, without a further
-- load, and waits as long as none does.
pub park-cases :
    (loads : List Bool)
    → (AllDown loads × (park loads ≡ none))
      ⊎ ((before : List Bool) × (after : List Bool) × (loads ≡ before ++ true ∷ after)
          × AllDown before
          × (park loads ≡ some after))
unfolding park
park-cases [] = inl (tt, refl)
park-cases (true ∷ loads) = inr ([], loads, refl, tt, refl)
park-cases (false ∷ loads) = elim (park-cases loads) [
  | inl (down, waits) ↦ inl ((refl, down), waits)
  | inr (before, after, split, down, over) ↦
      inr (false ∷ before, after, cc split, (refl, down), over)
]

abbrev pub wake_each : List Waker → World → World
wake_each [] w = w
wake_each (k ∷ wakers) w = wake_each wakers (wake k w)

abbrev pub points_to : ℕ → Option ℕ → Bool
points_to p none = false
points_to p (some q) = p == q

-- Is one of the wakers for the parker at `p`, or else `up`?
abbrev pub wakes : ℕ → Bool → List Waker → Bool
wakes p up [] = up
wakes p up (k ∷ wakers) = wakes p (if points_to p k.parker then true else up) wakers

mark_parker_lem :
    (p : ℕ) (parker : Option ℕ) (w : World)
    → ((mark_parker parker w).should_wakeup p
        ≡ (if points_to p parker then true else w.should_wakeup p))
      × ((mark_parker parker w).signals ≡ w.signals)
mark_parker_lem p none w = (refl, refl)
mark_parker_lem p (some q) w = (refl, refl)

wake_each_lem :
    (p : ℕ) (wakers : List Waker) (w : World)
    → ((wake_each wakers w).should_wakeup p ≡ wakes p (w.should_wakeup p) wakers)
      × ((wake_each wakers w).signals ≡ w.signals ++ map (λ k. signal_of k.inner) wakers)
unfolding wake
wake_each_lem p [] w = (refl, sym (append-nil w.signals))
wake_each_lem p (k ∷ wakers) w =
    let (flag, signals) = wake_each_lem p wakers (wake k w) in
    let (flag', signals') = mark_parker_lem p k.parker w in
    (
      flag ∙ ap (λ up. wakes p up wakers) flag',
      signals
          ∙ ap (λ s. (s ++ signal_of k.inner ∷ []) ++ map (λ k. signal_of k.inner) wakers) signals'
          ∙ append_assoc w.signals (signal_of k.inner ∷ []) (map (λ k. signal_of k.inner) wakers),
    )

-- After prepare_park on a parker and any sequence of wake calls, its flag is up exactly when one
-- of the wakers points to it, and the thread or task of each waker has been signalled once, in
-- order.
pub prepared_wakes :
    (p : ℕ) (wakers : List Waker) (w : World)
    → ((wake_each wakers (prepare_park p w)).should_wakeup p ≡ wakes p false wakers)
      × ((wake_each wakers (prepare_park p w)).signals
          ≡ w.signals ++ map (λ k. signal_of k.inner) wakers)
prepared_wakes p wakers w =
    let (flag, signals) = wake_each_lem p wakers (prepare_park p w) in
    (rw (eq_self p) at flag, signals)
