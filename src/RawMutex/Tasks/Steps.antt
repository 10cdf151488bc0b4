-- ===== src/RawMutex/Tasks/Steps.antt =====
-- Each act of a task does what it should.
use colock.Base.{
  ℕ, ◌≡◌, refl, inl, inr, true, false, some, ◌∷◌, arith, update, of_some, ap, sym, subst, ◌∙◌,
}
use colock.RawMutex.Flags.{is_locked, contended, set_locked}
use colock.RawMutex.Queue.{remove}
use colock.RawMutex.Thread.{Shared}
use colock.RawMutex.Poller.{ready, pending, PollOutcome, poll-PollOutcome}
use colock.RawMutex.Tasks.{
  Task, away, waiting, holder, Tasks, Act, poll_it, drop_it, unlock_it, unlock_now, polled, poll_of,
  unlocked_by, act_at,
}
use colock.RawMutex.Tasks.Outcome.{Unlocked, unlock_now-Unlocked}
use colock.RawMutex.Tasks.Inv.{holds, TasksInv, Did}

-- The task `i` of `t` has done its part in `t'`, and no other has moved.
pub record Acted (a : Act) (i : ℕ) (t t' : Tasks) : Type 0 where
  pub now : Task
  pub others : t'.task ≡ update t.task i now
  pub did : Did a t.shared t'.shared i (t.task i) now

module _ (t : Tasks) (inv : TasksInv t.shared t.task) (i : ℕ) where
  abbrev unwoken : Shared
  unwoken = record (t.shared) { flags = update t.shared.flags i false }

  outcome : PollOutcome i unwoken
  outcome =
      subst (λ l. PollOutcome i (record unwoken { queue_lock = l })) (sym inv.unheld)
        (poll-PollOutcome i t.shared.state t.shared.queue unwoken.flags (omega (arith, inv.byte)))

  -- What becomes of the task after its poll.
  after_ready :
      {a : Act} (s : Shared) (t' : Tasks)
      → holds (t.task i) ≡ false
      → is_locked t.shared.state ≡ false
      → s ≡ record unwoken { state = set_locked t.shared.state }
      → polled i t (some (ready, s)) ≡ some t'
      → Acted a i t t'
  after_ready s t' h free e p = record {
    now = holder;
    others = sym (ap (λ r. r.task) (of_some p));
    did =
        inl (
          h,
          record { free = free; after = sym (ap (λ r. r.shared) (of_some p)) ∙ rw e; is = refl },
        );
  }

  after_pending :
      {a : Act} (s : Shared) (t' : Tasks)
      → holds (t.task i) ≡ false
      → is_locked t.shared.state ≡ true
      → s ≡ record unwoken { state = contended; queue = i ∷ remove i t.shared.queue }
      → polled i t (some (pending, s)) ≡ some t'
      → Acted a i t t'
  after_pending s t' h locked e p = record {
    now = waiting;
    others = sym (ap (λ r. r.task) (of_some p));
    did = inr (
        inl (
          h,
          record {
            locked = locked;
            after = sym (ap (λ r. r.shared) (of_some p)) ∙ rw e;
            is = refl;
          },
        ));
  }

  poll-Acted :
      (t' : Tasks) → holds (t.task i) ≡ false → poll_of i t ≡ some t' → Acted poll_it i t t'
  unfolding PollOutcome
  poll-Acted t' h e = elim outcome [
    | inl (free, p) ↦ after_ready _ t' h free refl (sym (ap (polled i t) p) ∙ e)
    | inr (inl (locked, fair, p)) ↦ after_pending _ t' h locked refl (sym (ap (polled i t) p) ∙ e)
    | inr (inr (locked, fair, p)) ↦ absurd (ground (arith, inv.byte))
  ]

  unlock-Acted :
      (t' : Tasks)
      → t.task i ≡ holder
      → unlocked_by i t (unlock_now i t.shared) ≡ some t'
      → Acted unlock_it i t t'
  unlock-Acted t' h e =
      let (s, p, u) = unlock_now-Unlocked i t.shared inv.unheld in
      let done : some (record { shared = s; task = update t.task i away }) ≡ some t' =
        sym (ap (unlocked_by i t) p) ∙ e in
      record {
        now = away;
        others = sym (ap (λ r. r.task) (of_some done));
        did = inr (
            inr (
              inr (record {
                was = h;
                after = subst (Unlocked t.shared) (ap (λ r. r.shared) (of_some done)) u;
                is = refl;
              })));
      }

  pub act-Acted :
      (a : Act) (t' : Tasks) (k : Task) → t.task i ≡ k → act_at i a k t ≡ some t' → Acted a i t t'
  unfolding act_at
  act-Acted poll_it t' away h e = poll-Acted t' (rw h) e
  act-Acted poll_it t' waiting h e = poll-Acted t' (rw h) e
  act-Acted drop_it t' waiting h e = record {
    now = away;
    others = sym (ap (λ r. r.task) (of_some e));
    did = inr (
        inr (inl (refl, rw h, record { after = sym (ap (λ r. r.shared) (of_some e)); is = refl })));
  }
  act-Acted unlock_it t' holder h e = unlock-Acted t' h e
  act-Acted drop_it t' away h e = cc
  act-Acted a t' k h e = cc
