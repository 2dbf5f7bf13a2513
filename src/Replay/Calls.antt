-- ===== src/Replay/Calls.antt =====
-- Scripts whose calls are awaited one after the other, and what one call does to the state of
-- crates/eryx/src/replay.rs: where nothing is cached, and where its result is.
use eryx.Prelude.{
  ℕ, suc, ◌^◌, ◌<◌, ◌≡◌, refl, Bool, true, false, Option, none, some, List, [], ◌∷◌, ◌++◌, arith,
  Result, ok, err, length, set-push, resize-suc, length-append,
}
use eryx.Prelude.HashMap.{insert}
use eryx.Prelude.Text.{Text}
use eryx.Replay.Fnv.{fnv1a_64}
use eryx.Replay.Journal.{CallbackError, suspend, invalid_arguments, CallbackJournalEntry, to_string}
use eryx.Replay.State.{ReplayState, hit, miss, call_keys, replay_or_miss, ensure_slot, record_live}
use eryx.Replay.Callback.{Call, dispatch, complete, invoke, replayed_result}
use eryx.Replay.Slots.{to_index_lem}
use eryx.Replay.Rerun.{key_of, queue_of, IsReplaying}

module _ {ℓ} {V : Type ℓ} where
  -- A script that makes the given calls; `live` is what the real callback would answer to each.
  unfoldable pub run_calls :
      ReplayState V
      → List (Call × Result V CallbackError)
      → ReplayState V × List (Result V CallbackError)
  run_calls s [] = (s, [])
  run_calls s ((c, live) ∷ cs) =
      let (s', r) = invoke s c live in let (t, rs) = run_calls s' cs in (t, r ∷ rs)

  pub run_calls-cons :
      (s : ReplayState V) (c : Call) (live : Result V CallbackError)
      (cs : List (Call × Result V CallbackError)) {t : ReplayState V} {r : Result V CallbackError}
      → invoke s c live ≡ (t, r)
      → run_calls s ((c, live) ∷ cs) ≡ ((run_calls t cs).0, r ∷ (run_calls t cs).1)
  unfolding run_calls
  run_calls-cons s c live cs h = rw h

  abbrev pub is_suspend : Result V CallbackError → Bool
  is_suspend (err (suspend reason)) = true
  is_suspend _ = false

  abbrev pub NoneSuspends : List (Call × Result V CallbackError) → Type 0
  NoneSuspends [] = Unit {0}
  NoneSuspends ((c, live) ∷ cs) = (is_suspend live ≡ false) × NoneSuspends cs

  -- What is journaled of a live result.
  abbrev pub journaled : Result V CallbackError → Result V Text
  journaled (ok value) = ok value
  journaled (err e) = err (to_string e)

  abbrev pub entry_of : ℕ → Call → Result V Text → CallbackJournalEntry V
  entry_of i c r = record {
    index = i;
    name = c.name;
    args_hash = fnv1a_64 c.args_json;
    args_json = c.args_json;
    result = r;
  }

  abbrev pub entries_from : ℕ → List (Call × Result V CallbackError) → List (CallbackJournalEntry V)
  entries_from i [] = []
  entries_from i ((c, live) ∷ cs) = entry_of i c (journaled live) ∷ entries_from (suc i) cs

  record_live_slot :
      (s : ReplayState V) (xs : List (Option (CallbackJournalEntry V))) (e : CallbackJournalEntry V)
      → s.entries ≡ xs ++ none ∷ []
      → length xs ≡ e.index
      → record_live s e ≡ record s { entries = xs ++ some e ∷ [] }
  unfolding record_live ensure_slot
  record_live_slot s xs e h n =
      ground (arith, set-push xs e.index none (some e) n, length-append xs (none ∷ []))

  complete-journaled :
      (s : ReplayState V) (c : Call) (seq : ℕ) (live : Result V CallbackError)
      → is_suspend live ≡ false
      → seq < 2 ^ 32
      → complete s c seq live ≡ record_live s (entry_of seq c (journaled live))
  unfolding complete
  complete-journaled s c seq (ok v) h fits = rw (to_index_lem seq fits)
  complete-journaled s c seq (err (suspend m)) h fits = cc
  complete-journaled s c seq (err (invalid_arguments m)) h fits = rw (to_index_lem seq fits)
  complete-journaled s c seq (err _) h fits = rw (to_index_lem seq fits)

  -- The state behind the dispatch of a call that is not cached.
  abbrev pub reserved : ReplayState V → ReplayState V
  reserved s = record s {
    live_mode = true;
    next_seq = suc s.next_seq;
    entries = s.entries ++ none ∷ [];
  }

  pub dispatch_uncached :
      (s : ReplayState V) (c : Call)
      → queue_of s (key_of c) ≡ []
      → s.suspended ≡ none
      → length s.entries ≡ s.next_seq
      → dispatch s c ≡ (reserved s, miss s.next_seq)
  unfolding dispatch replay_or_miss ensure_slot
  dispatch_uncached s c q h n = ground (arith, resize-suc s.next_seq s.entries none n)

  abbrev pub recorded : ReplayState V → Call → Result V CallbackError → ReplayState V
  recorded s c live = record s {
    live_mode = true;
    next_seq = suc s.next_seq;
    entries = s.entries ++ some (entry_of s.next_seq c (journaled live)) ∷ [];
  }

  pub invoke_uncached :
      (s : ReplayState V) (c : Call) (live : Result V CallbackError)
      → queue_of s (key_of c) ≡ []
      → s.suspended ≡ none
      → length s.entries ≡ s.next_seq
      → is_suspend live ≡ false
      → s.next_seq < 2 ^ 32
      → invoke s c live ≡ (recorded s c live, live)
  unfolding invoke
  invoke_uncached s c live q h n no_suspend fits = rw (dispatch_uncached s c q h n) (
      rw (complete-journaled (reserved s) c s.next_seq live no_suspend fits) (
        rw (
          record_live_slot (reserved s) s.entries (entry_of s.next_seq c (journaled live)) refl n)))

  -- The state behind a call that is answered from its queue.
  abbrev pub answered : ReplayState V → Call → Result V Text → List (Result V Text) → ReplayState V
  answered s c r rest = record s {
    cached = insert s.cached (key_of c) rest;
    next_seq = suc s.next_seq;
    entries = s.entries ++ some (entry_of s.next_seq c r) ∷ [];
    replayed_count = suc s.replayed_count;
  }

  dispatch_cached :
      (s : ReplayState V) (c : Call) (r : Result V Text) (rest : List (Result V Text))
      → IsReplaying s
      → queue_of s (key_of c) ≡ r ∷ rest
      → length s.entries ≡ s.next_seq
      → s.next_seq < 2 ^ 32
      → suc s.replayed_count < 2 ^ 32
      → dispatch s c ≡ (answered s c r rest, hit r)
  unfolding dispatch replay_or_miss ensure_slot
  dispatch_cached s c r rest h q n fits few = ground (
    arith,
    resize-suc s.next_seq s.entries none n,
    set-push s.entries s.next_seq none (some (entry_of s.next_seq c r)) n,
    to_index_lem s.next_seq fits,
  )

  pub invoke_cached :
      (s : ReplayState V) (c : Call) (r : Result V Text) (rest : List (Result V Text))
      (live : Result V CallbackError)
      → IsReplaying s
      → queue_of s (key_of c) ≡ r ∷ rest
      → length s.entries ≡ s.next_seq
      → s.next_seq < 2 ^ 32
      → suc s.replayed_count < 2 ^ 32
      → invoke s c live ≡ (answered s c r rest, replayed_result r)
  unfolding invoke
  invoke_cached s c r rest live h q n fits few = rw (dispatch_cached s c r rest h q n fits few)
