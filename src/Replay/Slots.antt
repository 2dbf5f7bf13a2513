-- ===== src/Replay/Slots.antt =====
-- The slots of crates/eryx/src/replay.rs: one for each sequence number, in every execution.
use eryx.Prelude.{
  ℕ, zero, suc, ◌+◌, ◌^◌, ◌≤◌, ◌<◌, ◌≡◌, refl, Option, none, some, List, [], ◌∷◌, ◌++◌, arith,
  Result, is_some, ◌∙◌, length, set, length-set, length-append, resize-suc, if_rule, Option-cases,
  inl, inr,
}
use eryx.Prelude.HashMap.{get}
use eryx.Prelude.Text.{Text}
use eryx.Replay.Journal.{
  CallbackError, CallbackJournalEntry, CallbackJournal, SuspendedCallback, ok_outcome, err_outcome,
  suspend_outcome, CallbackOutcome, from_invoke,
}
use eryx.Replay.State.{
  ReplayState, Decision, to_index, replay_or_miss, pop_front, ensure_slot, record_live,
  record_suspend, new, call_keys,
}
use eryx.Replay.Callback.{Call, dispatch, complete, record_outcome}

pub to_index_lem : (seq : ℕ) → seq < 2 ^ 32 → to_index seq ≡ seq
to_index_lem seq h = ground arith

module _ {ℓ} {V : Type ℓ} where
  -- Each recorded entry carries the number of its slot, counted from `i`.
  abbrev pub Numbered : ℕ → List (Option (CallbackJournalEntry V)) → Type 0
  Numbered i [] = Unit {0}
  Numbered i (none ∷ slots) = Numbered (suc i) slots
  Numbered i (some e ∷ slots) = (e.index ≡ i) × Numbered (suc i) slots

  Numbered-set :
      (i j : ℕ) (slots : List (Option (CallbackJournalEntry V))) (e : CallbackJournalEntry V)
      → Numbered i slots
      → e.index ≡ i + j
      → Numbered i (set slots j (some e))
  Numbered-set i j [] e n h = tt
  Numbered-set i zero (none ∷ slots) e n h = (omega arith, n)
  Numbered-set i zero (some d ∷ slots) e n h = (omega arith, n.1)
  Numbered-set i (suc j) (none ∷ slots) e n h = Numbered-set (suc i) j slots e n (omega arith)
  Numbered-set i (suc j) (some d ∷ slots) e n h =
      (n.0, Numbered-set (suc i) j slots e n.1 (omega arith))

  Numbered-push :
      (i : ℕ) (slots : List (Option (CallbackJournalEntry V)))
      → Numbered i slots
      → Numbered i (slots ++ none ∷ [])
  Numbered-push i [] n = tt
  Numbered-push i (none ∷ slots) n = Numbered-push (suc i) slots n
  Numbered-push i (some d ∷ slots) n = (n.0, Numbered-push (suc i) slots n.1)

  -- There is one slot for each sequence number that was handed out, and a `u32` index fits it.
  pub record IsNumbered (s : ReplayState V) : Type 0 where
    pub one_each : length s.entries ≡ s.next_seq
    pub numbered : Numbered 0 s.entries
    pub fits : s.next_seq ≤ 2 ^ 32

  pub new-IsNumbered : (j : CallbackJournal V) → IsNumbered (new j)
  unfolding new
  new-IsNumbered j = record { one_each = refl; numbered = tt; fits = omega arith }

  ensure_slot-entries :
      (s : ReplayState V)
      → length s.entries ≡ s.next_seq
      → (ensure_slot (record s { next_seq = suc s.next_seq }) s.next_seq).entries
        ≡ s.entries ++ none ∷ []
  unfolding ensure_slot
  ensure_slot-entries s h = ground (arith, resize-suc s.next_seq s.entries none h)

  replay_or_miss-IsNumbered :
      (s : ReplayState V) (seq : ℕ) (name : Text) (hash : ℕ) (args : Text)
      → seq < s.next_seq
      → IsNumbered s
      → IsNumbered (replay_or_miss s seq name hash args).0
  unfolding replay_or_miss
  replay_or_miss-IsNumbered s seq name hash args h n =
      elim (Option-cases (pop_front (get s.cached (name, args)))) [
        | inl e ↦
            rw (e, replay_or_miss)
              (record { one_each = n.one_each; numbered = n.numbered; fits = n.fits })
        | inr ((result, queue), e) ↦
            rw (e, replay_or_miss)
              (record {
                one_each = length-set s.entries seq _ ∙ n.one_each;
                numbered =
                    Numbered-set 0 seq s.entries _ n.numbered (omega (arith, to_index_lem seq));
                fits = n.fits;
              })
      ]

  ensure_slot-IsNumbered :
      (s : ReplayState V)
      → s.next_seq < 2 ^ 32
      → IsNumbered s
      → IsNumbered (ensure_slot (record s { next_seq = suc s.next_seq }) s.next_seq)
  unfolding ensure_slot
  ensure_slot-IsNumbered s h n = ground (
    arith,
    resize-suc s.next_seq s.entries none n.one_each,
    Numbered-push 0 s.entries n.numbered,
    length-append s.entries (none ∷ []),
  )

  next_seq-ensure_slot : (s : ReplayState V) (i : ℕ) → (ensure_slot s i).next_seq ≡ s.next_seq
  unfolding ensure_slot
  next_seq-ensure_slot s i = ground arith

  dispatch-IsNumbered :
      (s : ReplayState V) (c : Call)
      → s.next_seq < 2 ^ 32
      → IsNumbered s
      → IsNumbered (dispatch s c).0
  unfolding dispatch
  dispatch-IsNumbered s c h n =
      let s' = ensure_slot (record s { next_seq = suc s.next_seq }) s.next_seq in
      let n' : IsNumbered s' = ensure_slot-IsNumbered s h n in
      let last = next_seq-ensure_slot (record s { next_seq = suc s.next_seq }) s.next_seq in
      if_rule {A = ReplayState V × Decision V} (λ p. IsNumbered p.0) (is_some s.suspended) _ _
        (λ _. n)
        λ _.
          if_rule {A = ReplayState V × Decision V} (λ p. IsNumbered p.0) s.live_mode _ _ (λ _. n')
            λ _.
              replay_or_miss-IsNumbered s' s.next_seq c.name _ c.args_json (omega (arith, last)) n'

  record_live-IsNumbered :
      (s : ReplayState V) (e : CallbackJournalEntry V)
      → e.index < s.next_seq
      → IsNumbered s
      → IsNumbered (record_live s e)
  unfolding record_live ensure_slot
  record_live-IsNumbered s e h n =
      ground (
        arith,
        Numbered-set 0 e.index s.entries e n.numbered,
        length-set s.entries e.index (some e),
      )

  record_suspend-IsNumbered :
      (s : ReplayState V) (seq : ℕ) (x : SuspendedCallback)
      → IsNumbered s
      → IsNumbered (record_suspend s seq x)
  unfolding record_suspend
  record_suspend-IsNumbered s seq x n = ground arith

  record_outcome-IsNumbered :
      (s : ReplayState V) (c : Call) (seq : ℕ) (o : CallbackOutcome V)
      → seq < s.next_seq
      → IsNumbered s
      → IsNumbered (record_outcome s c seq o)
  unfolding record_outcome
  record_outcome-IsNumbered s c seq (ok_outcome v) h n =
      record_live-IsNumbered s _ (omega (arith, to_index_lem seq, n.fits)) n
  record_outcome-IsNumbered s c seq (err_outcome m) h n =
      record_live-IsNumbered s _ (omega (arith, to_index_lem seq, n.fits)) n
  record_outcome-IsNumbered s c seq (suspend_outcome m) h n = record_suspend-IsNumbered s seq _ n

  complete-IsNumbered :
      (s : ReplayState V) (c : Call) (seq : ℕ) (r : Result V CallbackError)
      → seq < s.next_seq
      → IsNumbered s
      → IsNumbered (complete s c seq r)
  unfolding complete
  complete-IsNumbered s c seq r = record_outcome-IsNumbered s c seq (from_invoke r)

  -- The states of an execution: invocations are made, fewer than 2^32 of them, and a future
  -- completes with the sequence number that its dispatch reserved.
  pub data Reaches (s : ReplayState V) : ReplayState V → Type ℓ where
    start : Reaches s s
    dispatched :
        {t : ReplayState V}
        → Reaches s t
        → (c : Call) → t.next_seq < 2 ^ 32
        → Reaches s (dispatch t c).0
    completed :
        {t : ReplayState V}
        → Reaches s t
        → (c : Call) (seq : ℕ) (r : Result V CallbackError) → seq < t.next_seq
        → Reaches s (complete t c seq r)

  pub Reaches-IsNumbered : {s t : ReplayState V} → IsNumbered s → Reaches s t → IsNumbered t
  Reaches-IsNumbered n start = n
  Reaches-IsNumbered n (dispatched r c h) = dispatch-IsNumbered _ c h (Reaches-IsNumbered n r)
  Reaches-IsNumbered n (completed r c seq x h) =
      complete-IsNumbered _ c seq x h (Reaches-IsNumbered n r)
