-- ===== src/Replay/Journal.antt =====
-- The journal of crates/eryx/src/replay.rs and the outcome of a callback.
use eryx.Prelude.{ℕ, Bool, true, false, List, [], ◌∷◌, ◌++◌, length, Result, ok, err}
use eryx.Prelude.Text.{Text, codes}

-- `CallbackError` of crates/eryx/src/callback.rs.
pub data CallbackError : Type 0 where
  invalid_arguments execution_failed not_found : Text → CallbackError
  timeout : CallbackError
  replayed suspend : Text → CallbackError

-- Its `Display`.
unfoldable pub to_string : CallbackError → Text
to_string (invalid_arguments m) = codes "invalid arguments: " ++ m
to_string (execution_failed m) = codes "execution failed: " ++ m
to_string (not_found m) = codes "callback not found: " ++ m
to_string timeout = codes "timeout"
to_string (replayed m) = m
to_string (suspend m) = m

pub data CallbackOutcome {ℓ} (V : Type ℓ) : Type ℓ where
  ok_outcome : V → CallbackOutcome V
  err_outcome suspend_outcome : Text → CallbackOutcome V

unfoldable pub from_invoke {ℓ} : {V : Type ℓ} → Result V CallbackError → CallbackOutcome V
from_invoke (ok value) = ok_outcome value
from_invoke (err (suspend reason)) = suspend_outcome reason
from_invoke (err other) = err_outcome (to_string other)

pub record CallbackJournalEntry {ℓ} (V : Type ℓ) : Type ℓ where
  pub index : ℕ
  pub name : Text
  pub args_hash : ℕ
  pub args_json : Text
  pub result : Result V Text

pub record CallbackJournal {ℓ} (V : Type ℓ) : Type ℓ where
  pub code : Text
  pub entries : List (CallbackJournalEntry V)

pub record SuspendedCallback : Type 0 where
  pub name : Text
  pub args_json : Text
  pub reason : Text

module _ {ℓ} {V : Type ℓ} where
  unfoldable pub new : Text → CallbackJournal V
  new code = record { code = code; entries = [] }

  unfoldable pub len : CallbackJournal V → ℕ
  len j = length j.entries

  abbrev pub no_entries : List (CallbackJournalEntry V) → Bool
  no_entries [] = true
  no_entries (e ∷ es) = false

  unfoldable pub is_empty : CallbackJournal V → Bool
  is_empty j = no_entries j.entries
