-- ===== src/Replay/State.antt =====
-- `ReplayState` of crates/eryx/src/replay.rs: the decision for each invocation, the recording of
-- live results and of a suspension, and the journal that is built at the end.
use eryx.Prelude.{
  ℕ, suc, ◌+◌, ◌-◌, ◌%◌, ◌^◌, Bool, true, false, Option, none, some, List, [], ◌∷◌, ◌++◌, Result,
  if◌then◌else◌, ltb, leb, is_some, length, set, filter, resize, or_default, PartialEq, text_keys,
  pair_keys,
}
use eryx.Prelude.HashMap.{HashMap, get, insert}
use eryx.Prelude.Text.{Text}
use eryx.Replay.Journal.{CallbackJournalEntry, CallbackJournal, SuspendedCallback}

-- What a callback is matched by: its name and its canonical arguments.
abbrev pub Key : Type 0
Key = Text × Text

instance abbrev pub call_keys : PartialEq Key
call_keys = pair_keys

pub record ReplayState {ℓ} (V : Type ℓ) : Type ℓ where
  pub cached : HashMap Key (List (Result V Text))
  pub live_mode : Bool
  pub next_seq : ℕ
  pub entries : List (Option (CallbackJournalEntry V))
  pub suspended : Option SuspendedCallback
  pub suspend_seq : Option ℕ
  pub replayed_count : ℕ

pub data Decision {ℓ} (V : Type ℓ) : Type ℓ where
  hit : Result V Text → Decision V
  miss : ℕ → Decision V
  already_suspended : Decision V

-- `u32::try_from(seq).unwrap_or(u32::MAX)`
abbrev pub to_index : ℕ → ℕ
to_index seq = if ltb seq (2 ^ 32) then seq else 2 ^ 32 - 1

module _ {ℓ} {V : Type ℓ} where
  -- One round of the loop of `new`.
  unfoldable pub bucket :
      HashMap Key (List (Result V Text))
      → CallbackJournalEntry V
      → HashMap Key (List (Result V Text))
  bucket cached e =
      let key : Key = (e.name, e.args_json) in
      insert cached key (or_default (get cached key) ++ e.result ∷ [])

  unfoldable pub bucket_all :
      HashMap Key (List (Result V Text))
      → List (CallbackJournalEntry V)
      → HashMap Key (List (Result V Text))
  bucket_all cached [] = cached
  bucket_all cached (e ∷ es) = bucket_all (bucket cached e) es

  unfoldable pub new : CallbackJournal V → ReplayState V
  new previous = record {
    cached = bucket_all [] previous.entries;
    live_mode = false;
    next_seq = 0;
    entries = [];
    suspended = none;
    suspend_seq = none;
    replayed_count = 0;
  }

  unfoldable pub ensure_slot : ReplayState V → ℕ → ReplayState V
  ensure_slot s seq =
      if leb (length s.entries) seq
      then record s { entries = resize s.entries (suc seq) none }
      else s

  -- `queue.pop_front()` behind `cached.get_mut(&key)`.
  abbrev pub pop_front :
      Option (List (Result V Text)) → Option (Result V Text × List (Result V Text))
  pop_front none = none
  pop_front (some []) = none
  pop_front (some (result ∷ queue)) = some (result, queue)

  -- The match on the key, once a sequence number is reserved.
  unfoldable pub replay_or_miss : ReplayState V → ℕ → Text → ℕ → Text → ReplayState V × Decision V
  replay_or_miss s seq name args_hash args_json =
      elim (pop_front (get s.cached (name, args_json))) [
        | some (result, queue) ↦ (
          record s {
            cached = insert s.cached (name, args_json) queue;
            replayed_count = (s.replayed_count + 1) % 2 ^ 32;
            entries = set s.entries seq (
                some (record {
                  index = to_index seq;
                  name = name;
                  args_hash = args_hash;
                  args_json = args_json;
                  result = result;
                }));
          },
          hit result,
        )
        | none ↦ (record s { live_mode = true }, miss seq)
      ]

  unfoldable pub decide : ReplayState V → Text → ℕ → Text → ReplayState V × Decision V
  decide s name args_hash args_json =
      if is_some s.suspended
      then (s, already_suspended)
      else (let seq = s.next_seq in
          let s' = ensure_slot (record s { next_seq = suc seq }) seq in
          if s.live_mode then (s', miss seq) else replay_or_miss s' seq name args_hash args_json)

  unfoldable pub record_live : ReplayState V → CallbackJournalEntry V → ReplayState V
  record_live s entry =
      let s' = ensure_slot s entry.index in
      record s' { entries = set s'.entries entry.index (some entry) }

  unfoldable pub record_suspend : ReplayState V → ℕ → SuspendedCallback → ReplayState V
  record_suspend s seq suspended =
      if is_some s.suspended
      then s
      else record s { suspended = some suspended; suspend_seq = some seq }

  -- `iter().flatten()`
  unfoldable pub flatten : List (Option (CallbackJournalEntry V)) → List (CallbackJournalEntry V)
  flatten [] = []
  flatten (none ∷ slots) = flatten slots
  flatten (some e ∷ slots) = e ∷ flatten slots

  -- The test of `filter`: the entry was initiated before the suspending call.
  unfoldable pub before_suspension : Option ℕ → CallbackJournalEntry V → Bool
  before_suspension (some seq) entry = ltb entry.index seq
  before_suspension none entry = true

  unfoldable pub build_journal : ReplayState V → Text → CallbackJournal V
  unfolding flatten before_suspension
  build_journal s code = record {
    code = code;
    entries = filter (before_suspension s.suspend_seq) (flatten s.entries);
  }
