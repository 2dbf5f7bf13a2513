-- ===== src/Replay/Guard.antt =====
-- The safety of replay under every schedule: the divergence guard and the suspension gate of
-- crates/eryx/src/replay.rs.
use eryx.Prelude.{ℕ, ◌≡◌, refl, true, List, [], ◌∷◌, arith, Result, is_some, ◌∙◌, ap, subst, sym}
use eryx.Replay.Journal.{
  CallbackError, ok_outcome, err_outcome, suspend_outcome, CallbackOutcome, from_invoke,
}
use eryx.Replay.State.{
  ReplayState, Decision, hit, miss, already_suspended, replay_or_miss, ensure_slot,
}
use eryx.Replay.Callback.{Call, dispatch, complete, record_outcome}
use eryx.Replay.Schedule.{Event, dispatches, completes, step, run, decisions}

module _ {ℓ} {V : Type ℓ} where
  abbrev pub NotHit : Decision V → Type 0
  NotHit (hit r) = ⊥
  NotHit (miss n) = Unit {0}
  NotHit already_suspended = Unit {0}

  abbrev pub NeverHit : List (Decision V) → Type 0
  NeverHit [] = Unit {0}
  NeverHit (d ∷ ds) = NotHit d × NeverHit ds

  abbrev pub AllRejected : List (Decision V) → Type 0
  AllRejected [] = Unit {0}
  AllRejected (hit r ∷ ds) = ⊥
  AllRejected (miss n ∷ ds) = ⊥
  AllRejected (already_suspended ∷ ds) = AllRejected ds

  -- No hit stands behind a miss, and behind a rejection there are rejections only.
  abbrev pub Guarded : List (Decision V) → Type 0
  Guarded [] = Unit {0}
  Guarded (hit r ∷ ds) = Guarded ds
  Guarded (miss n ∷ ds) = NeverHit ds
  Guarded (already_suspended ∷ ds) = AllRejected ds

  dispatch-live_mode :
      (s : ReplayState V) (c : Call)
      → s.live_mode ≡ true
      → ((dispatch s c).0.live_mode ≡ true) × NotHit (dispatch s c).1
  unfolding dispatch replay_or_miss ensure_slot
  dispatch-live_mode s c h = ground arith

  record_outcome-live_mode :
      (s : ReplayState V) (c : Call) (seq : ℕ) (o : CallbackOutcome V)
      → (record_outcome s c seq o).live_mode ≡ s.live_mode
  unfolding record_outcome ensure_slot
  record_outcome-live_mode s c seq (ok_outcome v) = ground arith
  record_outcome-live_mode s c seq (err_outcome m) = ground arith
  record_outcome-live_mode s c seq (suspend_outcome m) = ground arith

  complete-live_mode :
      (s : ReplayState V) (c : Call) (seq : ℕ) (r : Result V CallbackError)
      → (complete s c seq r).live_mode ≡ s.live_mode
  unfolding complete
  complete-live_mode s c seq r = record_outcome-live_mode s c seq (from_invoke r)

  live_mode-NeverHit :
      (s : ReplayState V) (es : List (Event V)) → s.live_mode ≡ true → NeverHit (decisions s es)
  unfolding decisions
  live_mode-NeverHit s [] h = tt
  live_mode-NeverHit s (dispatches c ∷ es) h =
      let d = dispatch-live_mode s c h in (d.1, live_mode-NeverHit (dispatch s c).0 es d.0)
  live_mode-NeverHit s (completes c seq r ∷ es) h =
      live_mode-NeverHit (complete s c seq r) es (complete-live_mode s c seq r ∙ h)

  dispatch-miss :
      (s : ReplayState V) (c : Call) (n : ℕ)
      → (dispatch s c).1 ≡ miss n
      → (dispatch s c).0.live_mode ≡ true
  unfolding dispatch replay_or_miss ensure_slot
  dispatch-miss s c n h = ground arith

  dispatch-suspended :
      (s : ReplayState V) (c : Call)
      → is_some s.suspended ≡ true
      → dispatch s c ≡ (s, already_suspended)
  unfolding dispatch replay_or_miss ensure_slot
  dispatch-suspended s c h = ground arith

  dispatch-rejects :
      (s : ReplayState V) (c : Call)
      → (dispatch s c).1 ≡ already_suspended
      → is_some s.suspended ≡ true
  unfolding dispatch replay_or_miss ensure_slot
  dispatch-rejects s c h = ground arith

  complete-suspended :
      (s : ReplayState V) (c : Call) (seq : ℕ) (r : Result V CallbackError)
      → is_some s.suspended ≡ true
      → ((complete s c seq r).suspended ≡ s.suspended)
        × ((complete s c seq r).suspend_seq ≡ s.suspend_seq)
        × ((complete s c seq r).next_seq ≡ s.next_seq)
  unfolding complete ensure_slot
  complete-suspended s c seq r h = elim_outcome (from_invoke r)
    where
      elim_outcome :
          (o : CallbackOutcome V)
          → ((record_outcome s c seq o).suspended ≡ s.suspended)
            × ((record_outcome s c seq o).suspend_seq ≡ s.suspend_seq)
            × ((record_outcome s c seq o).next_seq ≡ s.next_seq)
      elim_outcome (ok_outcome v) = ground arith
      elim_outcome (err_outcome m) = ground arith
      elim_outcome (suspend_outcome m) = ground arith

  -- Once a callback has suspended, whatever the schedule, every later invocation is rejected, no
  -- sequence number is handed out, and the recorded suspension stays the first one.
  pub suspension_gate :
      (s : ReplayState V) (es : List (Event V))
      → is_some s.suspended ≡ true
      → AllRejected (decisions s es)
        × ((run s es).suspended ≡ s.suspended)
        × ((run s es).suspend_seq ≡ s.suspend_seq)
        × ((run s es).next_seq ≡ s.next_seq)
  unfolding decisions run step
  suspension_gate s [] h = (tt, refl, refl, refl)
  suspension_gate s (dispatches c ∷ es) h =
      subst
        (λ (p : ReplayState V × Decision V).
          AllRejected (p.1 ∷ decisions p.0 es)
          × ((run p.0 es).suspended ≡ s.suspended)
          × ((run p.0 es).suspend_seq ≡ s.suspend_seq)
          × ((run p.0 es).next_seq ≡ s.next_seq))
        (sym (dispatch-suspended s c h)) (suspension_gate s es h)
  suspension_gate s (completes c seq r ∷ es) h =
      let k = complete-suspended s c seq r h in
      let rest = suspension_gate (complete s c seq r) es (ap is_some k.0 ∙ h) in
      (rest.0, rest.1 ∙ k.0, rest.2 ∙ k.1, rest.3 ∙ k.2)

  -- Under every schedule of dispatches and completions, from every state: behind the first miss no
  -- invocation is served from the journal, and behind the first rejection all are rejected.
  pub decisions-Guarded : (s : ReplayState V) (es : List (Event V)) → Guarded (decisions s es)
  unfolding decisions
  decisions-Guarded s [] = tt
  decisions-Guarded s (completes c seq r ∷ es) = decisions-Guarded (complete s c seq r) es
  decisions-Guarded s (dispatches c ∷ es) =
      by_decision (dispatch s c).1 refl (decisions-Guarded (dispatch s c).0 es)
    where
      by_decision :
          (d : Decision V)
          → (dispatch s c).1 ≡ d
          → Guarded (decisions (dispatch s c).0 es)
          → Guarded (d ∷ decisions (dispatch s c).0 es)
      by_decision (hit r) e ih = ih
      by_decision (miss n) e ih = live_mode-NeverHit (dispatch s c).0 es (dispatch-miss s c n e)
      by_decision already_suspended e ih =
          let h = dispatch-rejects s c e in rw (dispatch-suspended s c h) (suspension_gate s es h).0
