-- ===== src/RawMutex/Mixed/Safety.antt =====
-- What holds in every state that threads and tasks come to at one mutex.
use colock.Base.{ℕ, ◌≡◌, refl, true, false, some, arith, update, inl, inr}
use colock.RawMutex.Thread.{Shared, new, idle}
use colock.RawMutex.System.{plain}
use colock.RawMutex.Timed.{Held, Held-init}
use colock.RawMutex.Mixed.{Place, calling, Move, go, Mixed, lets, act, MixedReach, start, later}
use colock.RawMutex.Mixed.Exclusion.{as_thread, MixedReach-Held}
use colock.RawMutex.Mixed.Defs.{MixedInv, MixedAwake, Acted}
use colock.RawMutex.Mixed.Queued.{places-kept, holder-kept, quiet-kept, once-kept, queued-kept}
use colock.RawMutex.Mixed.Wakers.{popped-kept, last_out-kept, cleared-kept}
use colock.RawMutex.Mixed.Sleeping.{marked-kept, resigned-kept, sleeping-kept}
use colock.RawMutex.Mixed.Awake.{MixedAwake-kept}

MixedInv-init : MixedInv new (λ _. calling idle)
MixedInv-init = record {
  base = Held-init;
  places = λ i. tt;
  holder = λ i h. cc;
  once = refl;
  quiet = λ i h. cc;
  queued = λ i h. cc;
  popped = λ i w h. cc;
  last_out = λ i w h. cc;
  cleared = λ i h. cc;
  marked = λ i h. cc;
  resigned = λ i h. cc;
  sleeping = λ i h. cc;
}

MixedAwake-init : MixedAwake new (λ _. calling idle)
MixedAwake-init free i (inl s) = cc
MixedAwake-init free i (inr s) = cc

module _ {m m' : Shared} {place : ℕ → Place} (inv : MixedInv m place) (i : ℕ) where
  Acted-MixedInv :
      (v : Move) (q : Place)
      → Acted m m' place i v (place i) q
      → Held m' (λ j. as_thread (update place i q j))
      → MixedInv m' (update place i q)
  Acted-MixedInv v q s base = record {
    base = base;
    places = λ j. ground (arith, places-kept inv i v (place i) q s, inv.places j);
    holder = holder-kept inv i v (place i) q s;
    once = once-kept inv i v (place i) q s;
    quiet = quiet-kept inv i v (place i) q s;
    queued = queued-kept inv i v (place i) q s;
    popped = popped-kept inv i v (place i) q s;
    last_out = last_out-kept inv i v (place i) q s;
    cleared = cleared-kept inv i v (place i) q s;
    marked = marked-kept inv i v (place i) q s;
    resigned = resigned-kept inv i v (place i) q s;
    sleeping = sleeping-kept inv i v (place i) q s;
  }

acted :
    {s : Mixed} {i : ℕ} {v : Move} {m : Shared} {p : Place}
    → MixedInv s.shared s.place
    → lets plain false v ≡ true
    → go i v (s.place i) s.shared ≡ some (m, p)
    → Acted s.shared m s.place i v (s.place i) p
acted {i} inv al h = record { here = refl; usual = inv.places i; allowed = al; step = h }

pub MixedReach-Inv :
    {s : Mixed} → MixedReach plain false s → MixedInv s.shared s.place × MixedAwake s.shared s.place
MixedReach-Inv start = (MixedInv-init, MixedAwake-init)
MixedReach-Inv (later {s} {t} r (act i v {m} {p} al h)) =
    let (inv, awake) = MixedReach-Inv r in
    let did = acted inv al h in
    (
      Acted-MixedInv inv i v p did (MixedReach-Held refl (later r (act i v al h))),
      MixedAwake-kept s.shared m s.place inv awake i v (s.place i) p did,
    )
