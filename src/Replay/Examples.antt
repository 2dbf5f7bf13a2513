-- ===== src/Replay/Examples.antt =====
-- Runs of the replay of crates/eryx/src/replay.rs at concrete inputs, with numbers for JSON values.
use eryx.Prelude.{ℕ, ◌≤◌, ◌≡◌, refl, true, [], ◌∷◌, arith, ok, err, length, is_some}
use eryx.Prelude.Text.{codes}
use eryx.Replay.Journal.{suspend, execution_failed, CallbackJournal}
use eryx.Replay.State.{ReplayState, miss, Key, new, build_journal, record_suspend}
use eryx.Replay.Callback.{Call, dispatch, complete}
use eryx.Replay.Schedule.{dispatches, completes, decisions}
use eryx.Replay.Guard.{Guarded, AllRejected, decisions-Guarded, suspension_gate}
use eryx.Replay.Rerun.{AllHits, count, results_for, new-Served}
use eryx.Replay.Calls.{entry_of}
use eryx.Replay.Resume.{Script, first_journal, second_outcome, rerun}
use eryx.Replay.Suspension.{suspended_first, resume}

abbrev read : Call
read = record { name = codes "read"; args_json = codes "{}" }

abbrev write : Call
write = record { name = codes "write"; args_json = codes "{}" }

-- Two reads and a failing write; the second run would answer otherwise.
abbrev script : Script ℕ
script =
    (read, ok 5, ok 6)
    ∷ (write, err (execution_failed (codes "full")), ok 1)
    ∷ (read, ok 7, ok 8)
    ∷ []

abbrev journal : CallbackJournal ℕ
journal = record {
  code = codes "main";
  entries = entry_of 0 read (ok 5) ∷ entry_of 1 read (ok 7) ∷ [];
}

rerun_example : (second_outcome (first_journal (codes "main") script) script).0.replayed_count ≡ 3
rerun_example = (rerun (codes "main") script (refl, (refl, (refl, tt))) (omega arith)).2

resume_example :
    (dispatch
      (second_outcome
        (build_journal (suspended_first (codes "main") script read (codes "later")) (codes "main"))
        script).0
      read).1
    ≡ miss 3
resume_example =
    (resume (codes "main") script read (codes "later") (refl, (refl, (refl, tt))) (omega arith)).2

decisions-Guarded_example :
    Guarded (decisions (new journal) (dispatches read ∷ dispatches write ∷ dispatches read ∷ []))
decisions-Guarded_example =
    decisions-Guarded (new journal) (dispatches read ∷ dispatches write ∷ dispatches read ∷ [])

abbrev gated : ReplayState ℕ
gated =
    record_suspend (new journal) 0
      (record { name = codes "read"; args_json = codes "{}"; reason = codes "later" })

gated_suspended : is_some gated.suspended ≡ true
unfolding record_suspend new
gated_suspended = refl

suspension_gate_example :
    AllRejected (decisions gated (dispatches read ∷ completes read 0 (ok 1) ∷ dispatches read ∷ []))
suspension_gate_example =
    (suspension_gate gated (dispatches read ∷ completes read 0 (ok 1) ∷ dispatches read ∷ [])
      gated_suspended).0

-- Two concurrent writes, completed in the other order; the second suspends.
abbrev both_made : ReplayState ℕ
both_made = (dispatch (dispatch (new journal) write).0 write).0

abbrev interleaved : ReplayState ℕ
interleaved = complete (complete both_made write 1 (err (suspend (codes "later")))) write 0 (ok 4)

read_twice : (k : Key) → count k (read ∷ read ∷ []) ≤ length (results_for k journal.entries)
read_twice k = ground arith

new-Served_example : AllHits (decisions (new journal) (dispatches read ∷ dispatches read ∷ []))
new-Served_example = (new-Served journal (read ∷ read ∷ []) read_twice).0
