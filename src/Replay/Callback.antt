-- ===== src/Replay/Callback.antt =====
-- `ReplayCallback::invoke` of crates/eryx/src/replay.rs, in its two halves: `dispatch` runs when
-- the invocation is made, `complete` when the future of the real callback has its result. Other
-- invocations may run between the two.
use eryx.Prelude.{ℕ, Result, ok, err}
use eryx.Prelude.Text.{Text, codes}
use eryx.Replay.Fnv.{fnv1a_64}
use eryx.Replay.Journal.{
  CallbackError, replayed, suspend, CallbackOutcome, ok_outcome, err_outcome, suspend_outcome,
  from_invoke,
}
use eryx.Replay.State.{
  ReplayState, Decision, hit, miss, already_suspended, to_index, decide, record_live,
  record_suspend,
}

-- An invocation, by the name of its callback and the canonical JSON text of its arguments.
pub record Call : Type 0 where
  pub name : Text
  pub args_json : Text

-- The text of the rejection after a suspension.
abbrev pub rejection : Text
rejection = codes "execution already suspended by a previous callback"

module _ {ℓ} {V : Type ℓ} where
  unfoldable pub dispatch : ReplayState V → Call → ReplayState V × Decision V
  unfolding decide
  dispatch s c = decide s c.name (fnv1a_64 c.args_json) c.args_json

  -- What a journaled result becomes for the callback handler.
  unfoldable pub replayed_result : Result V Text → Result V CallbackError
  replayed_result (ok value) = ok value
  replayed_result (err message) = err (replayed message)

  -- How the outcome of the real callback is recorded.
  unfoldable pub record_outcome : ReplayState V → Call → ℕ → CallbackOutcome V → ReplayState V
  unfolding record_live record_suspend
  record_outcome s c seq (ok_outcome value) = record_live s (record {
    index = to_index seq;
    name = c.name;
    args_hash = fnv1a_64 c.args_json;
    args_json = c.args_json;
    result = ok value;
  })
  record_outcome s c seq (err_outcome message) = record_live s (record {
    index = to_index seq;
    name = c.name;
    args_hash = fnv1a_64 c.args_json;
    args_json = c.args_json;
    result = err message;
  })
  record_outcome s c seq (suspend_outcome reason) =
      record_suspend s seq (record { name = c.name; args_json = c.args_json; reason = reason })

  unfoldable pub complete : ReplayState V → Call → ℕ → Result V CallbackError → ReplayState V
  unfolding record_outcome from_invoke
  complete s c seq result = record_outcome s c seq (from_invoke result)

  -- The future that a decision stands for, awaited at once; `live` is the real callback's result.
  unfoldable pub settle :
      Call
      → Result V CallbackError
      → ReplayState V × Decision V
      → ReplayState V × Result V CallbackError
  unfolding complete replayed_result
  settle c live (s, hit result) = (s, replayed_result result)
  settle c live (s, miss seq) = (complete s c seq live, live)
  settle c live (s, already_suspended) = (s, err (suspend rejection))

  -- An invocation that is awaited before the next one is made.
  unfoldable pub invoke :
      ReplayState V → Call → Result V CallbackError → ReplayState V × Result V CallbackError
  unfolding settle dispatch
  invoke s c live = settle c live (dispatch s c)
