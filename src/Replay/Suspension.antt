-- ===== src/Replay/Suspension.antt =====
-- A script that a callback suspends, and the run that resumes it: crates/eryx/src/replay.rs.
use eryx.Prelude.{
  ℕ, suc, ◌+◌, ◌^◌, ◌≤◌, ◌<◌, ◌≡◌, refl, Option, none, some, List, [], ◌∷◌, ◌++◌, arith, Result,
  err, ◌∙◌, ap, sym, length, length-map, filter, map, lt→ltb,
}
use eryx.Prelude.HashMap.{get}
use eryx.Prelude.Text.{Text}
use eryx.Replay.Journal.{CallbackError, suspend, CallbackJournalEntry}
use eryx.Replay.State.{ReplayState, miss, call_keys, new, flatten, before_suspension, build_journal}
use eryx.Replay.Callback.{Call, dispatch, invoke}
use eryx.Replay.Rerun.{key_of, queue_of}
use eryx.Replay.Calls.{NoneSuspends, entries_from, entry_of, journaled, dispatch_uncached, reserved}
use eryx.Replay.Resume.{
  Script, first_run, after_first, first_journal, second_outcome, first_Records, first_journal_lem,
  second_Replays,
}

module _ {ℓ} {V : Type ℓ} where
  flatten-push : (es : List (CallbackJournalEntry V)) → flatten (map some es ++ none ∷ []) ≡ es
  unfolding flatten
  flatten-push [] = refl
  flatten-push (e ∷ es) = ap (◌∷◌ e) (flatten-push es)

  filter_below :
      (i n : ℕ) (cs : List (Call × Result V CallbackError))
      → i + length cs ≤ n
      → filter (before_suspension (some n)) (entries_from i cs) ≡ entries_from i cs
  unfolding before_suspension
  filter_below i n [] h = refl
  filter_below i n ((c, live) ∷ cs) h =
      rw (lt→ltb i n (omega arith))
        (ap (◌∷◌ (entry_of i c (journaled live))) (filter_below (suc i) n cs (omega arith)))

  -- Behind a replayed script every queue is empty, so one more call is live.
  dispatch-after_second :
      (code : Text) (cs : Script V) (c : Call)
      → NoneSuspends (first_run cs)
      → length cs < 2 ^ 32
      → (dispatch (second_outcome (first_journal code cs) cs).0 c).1 ≡ miss (length cs)
  unfolding new
  dispatch-after_second code cs c n fits =
      let second = second_Replays code cs n fits in
      let resumed = second.resumed in
      let t = (second_outcome (first_journal code cs) cs).0 in
      let made : t.next_seq ≡ length cs = omega (arith, second.count) in
      ap (λ p. p.1)
        (dispatch_uncached t c (resumed.queues (key_of c)) resumed.phase.running resumed.one_each)
      ∙ ap miss made

  -- The state behind the first run of a script whose next call `c` suspends.
  abbrev pub suspended_first : Text → Script V → Call → Text → ReplayState V
  suspended_first code cs c reason = (invoke (after_first code cs) c (err (suspend reason))).0

  invoke_suspending :
      (s : ReplayState V) (c : Call) (reason : Text)
      → queue_of s (key_of c) ≡ []
      → s.suspended ≡ none
      → length s.entries ≡ s.next_seq
      → (invoke s c (err (suspend reason))).0 ≡ record (reserved s) {
        suspended = some (record { name = c.name; args_json = c.args_json; reason = reason });
        suspend_seq = some s.next_seq;
      }
  unfolding invoke
  invoke_suspending s c reason q h n = rw (dispatch_uncached s c q h n) (rw h)

  length-entries_from :
      (i : ℕ) (cs : List (Call × Result V CallbackError)) → length (entries_from i cs) ≡ length cs
  length-entries_from i [] = refl
  length-entries_from i ((c, live) ∷ cs) = ap suc (length-entries_from (suc i) cs)

  build_journal_suspended :
      (s : ReplayState V) (code : Text) (cs : List (Call × Result V CallbackError))
      → s.suspend_seq ≡ some (length cs)
      → s.entries ≡ map some (entries_from 0 cs) ++ none ∷ []
      → build_journal s code ≡ record { code = code; entries = entries_from 0 cs }
  unfolding build_journal
  build_journal_suspended s code cs h e =
      rw (h, e, flatten-push (entries_from 0 cs), filter_below 0 (length cs) cs (omega arith))

  -- A script whose call `c` suspends after fewer than 2^32 calls that did not: the journal that is
  -- built holds exactly the calls before `c`, and a run that is resumed from it makes `c` live, as
  -- the first call that is not replayed.
  pub resume :
      (code : Text) (cs : Script V) (c : Call) (reason : Text)
      → NoneSuspends (first_run cs)
      → length cs < 2 ^ 32
      → let j = build_journal (suspended_first code cs c reason) code in
        (j ≡ record { code = code; entries = entries_from 0 (first_run cs) })
        × ((suspended_first code cs c reason).suspended
            ≡ some (record { name = c.name; args_json = c.args_json; reason = reason }))
        × ((dispatch (second_outcome j cs).0 c).1 ≡ miss (length cs))
  unfolding new
  resume code cs c reason n fits =
      let first = first_Records code cs n (omega arith) in
      let s = after_first code cs in
      let made : s.next_seq ≡ length (first_run cs) = omega (
        arith,
        first.recording.one_each,
        ap length first.entries,
        length-map {B = Option (CallbackJournalEntry V)} (entries_from 0 (first_run cs)) some,
        length-entries_from 0 (first_run cs),
      ) in
      let state =
        invoke_suspending s c reason (unfold get in rw first.recording.uncached)
          first.recording.running first.recording.one_each in
      let journal : build_journal (suspended_first code cs c reason) code
          ≡ record { code = code; entries = entries_from 0 (first_run cs) } =
        build_journal_suspended _ code (first_run cs) (rw state (ap some made))
          (rw state (ap (λ es. es ++ none ∷ []) first.entries)) in
      let same = journal ∙ sym (first_journal_lem code cs n (omega arith)) in
      (journal, ap (λ t. t.suspended) state, rw same (dispatch-after_second code cs c n fits))
