-- ===== src/Replay/Resume.antt =====
-- A script that is run, and run again from the journal of its first run: crates/eryx/src/replay.rs.
use eryx.Prelude.{
  suc, ◌+◌, ◌^◌, ◌≤◌, ◌<◌, ◌≡◌, refl, false, none, some, List, [], ◌∷◌, ◌++◌, arith, Result, ok,
  err, ◌∙◌, ap, ap₂, sym, subst, length, length-map, length-append, filter, map, eq_iff, eq_self,
}
use mathlib.Core.List.{append_assoc, append-nil}
use eryx.Prelude.HashMap.{get-insert}
use eryx.Prelude.Text.{Text}
use eryx.Replay.Journal
use eryx.Replay.Journal.{CallbackError, suspend, CallbackJournalEntry, CallbackJournal, to_string}
use eryx.Replay.State.{
  ReplayState, Key, call_keys, new, flatten, before_suspension, build_journal, bucket_all,
}
use eryx.Replay.Callback.{Call, replayed_result}
use eryx.Replay.Rerun.{key_of, results_for, queue_of, queue_of-new, IsReplaying, new-IsReplaying}
use eryx.Replay.Calls.{
  run_calls, run_calls-cons, NoneSuspends, journaled, entry_of, entries_from, answered,
  invoke_cached,
}
use eryx.Replay.Recording.{Records, run_calls-Records}

-- A script with, for each call, what the real callback would answer in the first run and in the
-- second.
abbrev pub Script {ℓ} : Type ℓ → Type ℓ
Script V = List (Call × Result V CallbackError × Result V CallbackError)

module _ {ℓ} {V : Type ℓ} where
  -- A state that replays the entries `es`, from the first on.
  pub record IsResuming (s : ReplayState V) (es : List (CallbackJournalEntry V)) : Type ℓ where
    pub phase : IsReplaying s
    pub unbounded : s.suspend_seq ≡ none
    pub one_each : length s.entries ≡ s.next_seq
    pub counted : s.replayed_count ≡ s.next_seq
    pub queues : (k : Key) → queue_of s k ≡ results_for k es

  queue_of-next :
      (s : ReplayState V) (c : Call) (r : Result V Text) (es : List (CallbackJournalEntry V))
      → IsResuming s (entry_of s.next_seq c r ∷ es)
      → queue_of s (key_of c) ≡ r ∷ results_for (key_of c) es
  queue_of-next s c r es h = h.queues (key_of c) ∙ (rw (eq_self (key_of c)))

  answered-IsResuming :
      (s : ReplayState V) (c : Call) (r : Result V Text) (es : List (CallbackJournalEntry V))
      → IsResuming s (entry_of s.next_seq c r ∷ es)
      → IsResuming (answered s c r (results_for (key_of c) es)) es
  answered-IsResuming s c r es h = record {
    phase = record { replaying = h.phase.replaying; running = h.phase.running };
    unbounded = h.unbounded;
    one_each =
        omega (arith, length-append s.entries (some (entry_of s.next_seq c r) ∷ []), h.one_each);
    counted = ap suc h.counted;
    queues = λ k. ground (
      arith,
      get-insert s.cached (key_of c) k (results_for (key_of c) es),
      h.queues k,
      eq_iff (key_of c) k,
    );
  }

  abbrev pub first_run : Script V → List (Call × Result V CallbackError)
  first_run = map (λ p. (p.0, p.1))

  abbrev pub second_run : Script V → List (Call × Result V CallbackError)
  second_run = map (λ p. (p.0, p.2))

  pub record Replays (s : ReplayState V) (p : ReplayState V × List (Result V CallbackError))
      (cs : Script V) : Type ℓ where
    pub results : p.1 ≡ map (λ q. replayed_result (journaled q.1)) cs
    pub entries : p.0.entries ≡ s.entries ++ map some (entries_from s.next_seq (first_run cs))
    pub count : p.0.next_seq ≡ s.next_seq + length cs
    pub resumed : IsResuming p.0 []

  run_calls-Replays :
      (s : ReplayState V) (cs : Script V)
      → IsResuming s (entries_from s.next_seq (first_run cs))
      → s.next_seq + length cs < 2 ^ 32
      → Replays s (run_calls s (second_run cs)) cs
  unfolding run_calls
  run_calls-Replays s [] h fits = record {
    results = refl;
    entries = sym (append-nil s.entries);
    count = omega arith;
    resumed = h;
  }
  run_calls-Replays s ((c, live, again) ∷ cs) h fits =
      let r = journaled live in
      let es = entries_from (suc s.next_seq) (first_run cs) in
      let rest = results_for (key_of c) es in
      let step =
        invoke_cached s c r rest again h.phase (queue_of-next s c r es h) h.one_each (omega arith)
          (omega (arith, h.counted)) in
      let ih =
        run_calls-Replays (answered s c r rest) cs (answered-IsResuming s c r es h) (omega arith) in
      subst (λ p. Replays s p ((c, live, again) ∷ cs))
        (sym (run_calls-cons s c again (second_run cs) step))
        (record {
          results = ap (◌∷◌ (replayed_result r)) ih.results;
          entries = ih.entries ∙ append_assoc s.entries _ _;
          count = omega (arith, ih.count);
          resumed = ih.resumed;
        })

  pub flatten-some : (es : List (CallbackJournalEntry V)) → flatten (map some es) ≡ es
  unfolding flatten
  flatten-some [] = refl
  flatten-some (e ∷ es) = ap (◌∷◌ e) (flatten-some es)

  filter_unbounded : (es : List (CallbackJournalEntry V)) → filter (before_suspension none) es ≡ es
  unfolding before_suspension
  filter_unbounded [] = refl
  filter_unbounded (e ∷ es) = ap (◌∷◌ e) (filter_unbounded es)

  -- The journal of a state whose slots are all filled and that no callback has suspended.
  pub build_journal_full :
      (s : ReplayState V) (code : Text) (es : List (CallbackJournalEntry V))
      → s.suspend_seq ≡ none
      → s.entries ≡ map some es
      → build_journal s code ≡ record { code = code; entries = es }
  unfolding build_journal
  build_journal_full s code es h e = rw (h, e, flatten-some es, filter_unbounded es)

  -- The state and the journal behind the first run of a script.
  abbrev pub after_first : Text → Script V → ReplayState V
  after_first code cs = (run_calls (new (Journal.new code)) (first_run cs)).0

  abbrev pub first_journal : Text → Script V → CallbackJournal V
  first_journal code cs = build_journal (after_first code cs) code

  pub first_Records :
      (code : Text) (cs : Script V)
      → NoneSuspends (first_run cs)
      → length cs ≤ 2 ^ 32
      → Records
          (new (Journal.new code))
          (after_first code cs)
          (first_run cs)
          (run_calls (new (Journal.new code)) (first_run cs)).1
  unfolding new Journal.new bucket_all
  first_Records code cs n fits =
      run_calls-Records _ (first_run cs)
        (record { uncached = refl; running = refl; unbounded = refl; one_each = refl }) n
        (omega (arith, length-map {B = Call × Result V CallbackError} cs (λ p. (p.0, p.1))))

  pub first_journal_lem :
      (code : Text) (cs : Script V)
      → NoneSuspends (first_run cs)
      → length cs ≤ 2 ^ 32
      → first_journal code cs ≡ record { code = code; entries = entries_from 0 (first_run cs) }
  unfolding new Journal.new
  first_journal_lem code cs n fits =
      let r = first_Records code cs n fits in
      build_journal_full (after_first code cs) code _ r.recording.unbounded r.entries

  new-IsResuming : (j : CallbackJournal V) → IsResuming (new j) j.entries
  unfolding new
  new-IsResuming j = record {
    phase = new-IsReplaying j;
    unbounded = refl;
    one_each = refl;
    counted = refl;
    queues = queue_of-new j;
  }

  abbrev pub second_outcome :
      CallbackJournal V → Script V → ReplayState V × List (Result V CallbackError)
  second_outcome j cs = run_calls (new j) (second_run cs)

  pub second_Replays :
      (code : Text) (cs : Script V)
      → NoneSuspends (first_run cs)
      → length cs < 2 ^ 32
      → Replays (new (first_journal code cs)) (second_outcome (first_journal code cs) cs) cs
  unfolding new
  second_Replays code cs n fits =
      let j : CallbackJournal V = record { code = code; entries = entries_from 0 (first_run cs) } in
      rw (first_journal_lem code cs n (omega arith))
        (run_calls-Replays (new j) cs (new-IsResuming j) (omega arith))

  journaled-replayed_result :
      (r : Result V CallbackError) → journaled (replayed_result (journaled r)) ≡ journaled r
  unfolding replayed_result to_string
  journaled-replayed_result (ok v) = refl
  journaled-replayed_result (err e) = refl

  map-replayed_result :
      (cs : Script V)
      → map journaled (map (λ q. replayed_result (journaled q.1)) cs)
        ≡ map journaled (map (λ q. q.1) (first_run cs))
  map-replayed_result [] = refl
  map-replayed_result ((c, live, again) ∷ cs) =
      ap₂ ◌∷◌ (journaled-replayed_result live) (map-replayed_result cs)

  -- A script of fewer than 2^32 awaited calls, none of which suspends, that is run again from the
  -- journal of its first run: whatever the real callbacks would answer now, each call gives the
  -- value, or the error text, that it gave in the first run, the run never leaves replay, every
  -- call counts as replayed, and the journal of the second run is that of the first.
  pub rerun :
      (code : Text) (cs : Script V)
      → NoneSuspends (first_run cs)
      → length cs < 2 ^ 32
      → let j = first_journal code cs in
        (map journaled (second_outcome j cs).1
          ≡ map journaled (run_calls (new (Journal.new code)) (first_run cs)).1)
        × ((second_outcome j cs).0.live_mode ≡ false)
        × ((second_outcome j cs).0.replayed_count ≡ length cs)
        × (build_journal (second_outcome j cs).0 code ≡ j)
  unfolding new
  rerun code cs n fits =
      let first = first_Records code cs n (omega arith) in
      let second = second_Replays code cs n fits in
      (
        ap (map journaled) second.results
            ∙ map-replayed_result cs
            ∙ ap (map journaled) (sym first.results),
        second.resumed.phase.replaying,
        omega (arith, second.resumed.counted, second.count),
        build_journal_full _ code _ second.resumed.unbounded second.entries
            ∙ sym (first_journal_lem code cs n (omega arith)),
      )
