-- ===== src/Handover/Someone.antt =====
-- While a party is in a call of the raw mutex, some call can go on, or a party has the lock and
-- another is queued.
use colock.Base.{
  ℕ, ◌≡◌, refl, true, false, none, some, arith, ap, Option, Bool-cases, inl, inr, ◌⊎◌, not, ◌&&◌,
  mem, List, [], ◌∷◌,
}
use colock.Handover.{owning}
use colock.Handover.Laws.{is_busy}
use colock.Handover.RawMutex.{place_of, some_queued}
use colock.RawMutex.Flags.{is_locked}
use colock.RawMutex.Thread.{
  owner, Shared, is_free, advance, first_try, next_try, enter_queue, should_sleep, wake_up,
  after_park, pop_sleeper, wake_sleeper, clear_waiting,
}
use colock.RawMutex.System.{plain}
use colock.RawMutex.Mixed
use colock.RawMutex.Mixed.{
  Place, calling, pending, finished, Move, by_thread, poll_it, run_it, After, go, drop_node,
  take_queue, lets, MixedReach,
}
use colock.RawMutex.Mixed.Defs.{IsMixed, MixedInv, rests, is_asleep, wakes_at}
use colock.RawMutex.Mixed.Exclusion.{has_lock}
use colock.RawMutex.Mixed.Progress.{own_move, is_due, succeeds, inside_goes, mixed_progress, CanGo}
use colock.RawMutex.Mixed.Safety.{MixedReach-Inv}
use colock.RawMutex.Mixed.Spec.{MutexShows, mixed_shows}

module _ (j : ℕ) (m : Shared) where
  awake_goes :
      (p : Place)
      → IsMixed p
      → is_busy (place_of p) ≡ true
      → (rests p && not (m.flags j)) ≡ false
      → is_free m.queue_lock ≡ true
      → (is_due p (m.flags j) ≡ true) × (succeeds (go j (own_move p) p m) ≡ true)
  unfolding go advance first_try next_try enter_queue should_sleep wake_up after_park pop_sleeper
      wake_sleeper clear_waiting drop_node take_queue
  awake_goes (calling p) usual busy awake free = ground arith
  awake_goes p usual busy awake free = ground arith

  goes_busy :
      (p : Place)
      → IsMixed p
      → succeeds (go j (own_move p) p m) ≡ true
      → is_busy (place_of p) ≡ true
  unfolding go advance
  goes_busy p usual e = ground arith

-- Whoever has the lock is its owner, or drops its future next.
holder_place :
    (p : Place)
    → IsMixed p
    → has_lock p ≡ true
    → (place_of p ≡ owning) ⊎ ((is_busy (place_of p) ≡ true) × (rests p ≡ false))
holder_place (calling owner) usual has = inl refl
holder_place finished usual has = inr (refl, refl)
holder_place p usual has = ground arith

waker_place :
    (i : ℕ) (p : Place) → wakes_at i p ≡ true → (is_busy (place_of p) ≡ true) × (rests p ≡ false)
waker_place i p wakes = ground arith

mem-some_queued : (i : ℕ) (is : List ℕ) → mem i is ≡ true → some_queued is ≡ true
mem-some_queued i [] e = cc
mem-some_queued i (j ∷ is) e = refl

-- Who can go on in a call.
abbrev pub BusyGoes : Mixed.Mixed → Type 0
BusyGoes s = (j : ℕ) × (is_busy (place_of (s.place j)) ≡ true) × CanGo s.shared s.place j

abbrev pub Waits : Mixed.Mixed → Type 0
Waits s = ((j : ℕ) × (place_of (s.place j) ≡ owning)) × (some_queued s.shared.queue ≡ true)

module _ (s : Mixed.Mixed) (r : MixedReach plain false s) where
  inv : MixedInv s.shared s.place
  inv = (MixedReach-Inv r).0

  busy_goes : (j : ℕ) → CanGo s.shared s.place j → BusyGoes s
  busy_goes j (due, e) = (j, goes_busy j s.shared (s.place j) (inv.places j) e, (due, e))

  awake_BusyGoes :
      (j : ℕ)
      → is_busy (place_of (s.place j)) ≡ true
      → is_asleep s.shared s.place j ≡ false
      → is_free s.shared.queue_lock ≡ true
      → BusyGoes s
  awake_BusyGoes j busy awake free =
      busy_goes j (awake_goes j s.shared (s.place j) (inv.places j) busy awake free)

  holder_goes :
      (k : ℕ)
      → has_lock (s.place k) ≡ true
      → is_free s.shared.queue_lock ≡ true
      → (place_of (s.place k) ≡ owning) ⊎ BusyGoes s
  holder_goes k has free = elim (holder_place (s.place k) (inv.places k) has) [
    | inl owns ↦ inl owns
    | inr (busy, awake) ↦
        inr (awake_BusyGoes k busy (ap (λ b. b && not (s.shared.flags k)) awake) free)
  ]

  queued_goes :
      (i : ℕ)
      → is_asleep s.shared s.place i ≡ true
      → mem i s.shared.queue ≡ true
      → is_free s.shared.queue_lock ≡ true
      → BusyGoes s ⊎ Waits s
  queued_goes i asleep there free = elim (Bool-cases (is_locked s.shared.state)) [
    | inl up ↦ by_owner (mixed_shows refl r) up
    | inr down ↦ let (active, (k, goes)) = mixed_progress r down i asleep in inl (busy_goes k goes)
  ]
    where
      by_owner :
          (o : Option ℕ) × MutexShows s.shared s.place o
          → is_locked s.shared.state ≡ true
          → BusyGoes s ⊎ Waits s
      by_owner (none, (down, nobody)) up = cc
      by_owner (some k, (locked, has, only)) up = elim (holder_goes k has free) [
        | inl owns ↦ inr ((k, owns), mem-some_queued i s.shared.queue there)
        | inr goes ↦ inl goes
      ]

  asleep_goes :
      (i : ℕ)
      → is_asleep s.shared s.place i ≡ true
      → is_free s.shared.queue_lock ≡ true
      → BusyGoes s ⊎ Waits s
  asleep_goes i asleep free = elim (inv.sleeping i asleep) [
    | inl there ↦ queued_goes i asleep there free
    | inr (j, wakes) ↦
        let (busy, awake) = waker_place i (s.place j) wakes in
        inl (awake_BusyGoes j busy (ap (λ b. b && not (s.shared.flags j)) awake) free)
  ]

  pub someone_goes : (i : ℕ) → is_busy (place_of (s.place i)) ≡ true → BusyGoes s ⊎ Waits s
  someone_goes i busy = by_lock s.shared.queue_lock refl
    where
      by_lock : (o : Option ℕ) → s.shared.queue_lock ≡ o → BusyGoes s ⊎ Waits s
      by_lock (some k) e =
          inl (busy_goes k (inside_goes s.shared k (s.place k) (inv.places k) (inv.holder k e)))
      by_lock none e = elim (Bool-cases (is_asleep s.shared s.place i)) [
        | inl asleep ↦ asleep_goes i asleep (rw e refl)
        | inr awake ↦ inl (awake_BusyGoes i busy awake (rw e refl))
      ]
