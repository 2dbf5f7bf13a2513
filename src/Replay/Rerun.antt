-- ===== src/Replay/Rerun.antt =====
-- What replay serves (crates/eryx/src/replay.rs): a loaded journal as a queue of results for each
-- key, and the invocations that are answered from it.
use eryx.Prelude.{
  ℕ, suc, ◌≤◌, ◌≡◌, refl, false, none, List, [], ◌∷◌, ◌++◌, arith, Result, ◌∙◌, ap, sym, length,
  take, if◌then◌else◌, or_default, List-cases, inl, inr, ◌==◌, eq_iff, eq_self, map,
}
use mathlib.Core.List.{append_assoc, append-nil}
use eryx.Prelude.HashMap.{HashMap, get, insert, get-insert}
use eryx.Prelude.Text.{Text}
use eryx.Replay.Journal.{CallbackJournalEntry, CallbackJournal}
use eryx.Replay.State.{
  ReplayState, Decision, hit, miss, already_suspended, Key, call_keys, bucket, bucket_all, new,
  replay_or_miss, ensure_slot,
}
use eryx.Replay.Callback.{Call, dispatch}
use eryx.Replay.Schedule.{dispatches, decisions}

abbrev pub key_of : Call → Key
key_of c = (c.name, c.args_json)

-- How often a key is called.
abbrev pub count : Key → List Call → ℕ
count k [] = 0
count k (c ∷ cs) = let n = count k cs in if key_of c == k then suc n else n

count_positive : (c : Call) (cs : List Call) → count (key_of c) (c ∷ cs) ≡ suc (count (key_of c) cs)
count_positive c cs = rw (eq_self (key_of c))

module _ {ℓ} {V : Type ℓ} where
  -- The recorded results of a key, in recorded order.
  abbrev pub results_for : Key → List (CallbackJournalEntry V) → List (Result V Text)
  results_for k [] = []
  results_for k (e ∷ es) =
      let rest = results_for k es in if (e.name, e.args_json) == k then e.result ∷ rest else rest

  abbrev pub queue_of : ReplayState V → Key → List (Result V Text)
  queue_of s k = or_default (get s.cached k)

  bucket_all-results :
      (m : HashMap Key (List (Result V Text))) (es : List (CallbackJournalEntry V)) (k : Key)
      → or_default (get (bucket_all m es) k) ≡ or_default (get m k) ++ results_for k es
  unfolding bucket_all bucket
  bucket_all-results m [] k = sym (append-nil _)
  bucket_all-results m (e ∷ es) k =
      let key : Key = (e.name, e.args_json) in
      let queue = or_default (get m key) ++ e.result ∷ [] in
      ground (
        arith,
        bucket_all-results (insert m key queue) es k,
        get-insert m key k queue,
        append_assoc (or_default (get m key)) (e.result ∷ []) (results_for k es),
        eq_iff key k,
      )

  -- Loading a journal queues, for each key, its results in recorded order.
  pub queue_of-new :
      (j : CallbackJournal V) (k : Key) → queue_of (new j) k ≡ results_for k j.entries
  unfolding new get
  queue_of-new j k = bucket_all-results [] j.entries k

  -- A state that replays: it has not diverged, and no callback has suspended.
  pub record IsReplaying (s : ReplayState V) : Type ℓ where
    pub replaying : s.live_mode ≡ false
    pub running : s.suspended ≡ none

  pub dispatch_hit :
      (s : ReplayState V) (c : Call) (r : Result V Text) (rest : List (Result V Text))
      → IsReplaying s
      → queue_of s (key_of c) ≡ r ∷ rest
      → ((dispatch s c).1 ≡ hit r)
        × IsReplaying (dispatch s c).0
        × ((dispatch s c).0.cached ≡ insert s.cached (key_of c) rest)
  unfolding dispatch replay_or_miss ensure_slot
  dispatch_hit s c r rest h q = ground arith

  pub queue_of-hit :
      (s : ReplayState V) (c : Call) (r : Result V Text) (rest : List (Result V Text)) (k : Key)
      → IsReplaying s
      → queue_of s (key_of c) ≡ r ∷ rest
      → queue_of (dispatch s c).0 k ≡ (if key_of c == k then rest else queue_of s k)
  queue_of-hit s c r rest k h q =
      rw (dispatch_hit s c r rest h q).2 (ground (arith, get-insert s.cached (key_of c) k rest))

  abbrev pub AllHits : List (Decision V) → Type 0
  AllHits [] = Unit {0}
  AllHits (hit r ∷ ds) = AllHits ds
  AllHits (miss n ∷ ds) = ⊥
  AllHits (already_suspended ∷ ds) = ⊥

  -- The results that the calls of one key were given, in the order of the calls.
  abbrev pub served : Key → List Call → List (Decision V) → List (Result V Text)
  served k (c ∷ cs) (hit r ∷ ds) =
      let rest = served k cs ds in if key_of c == k then r ∷ rest else rest
  served k _ _ = []

  abbrev pub Served : ReplayState V → List Call → Type ℓ
  Served s cs =
      AllHits (decisions s (map dispatches cs))
      × ((k : Key)
          → served k cs (decisions s (map dispatches cs)) ≡ take (count k cs) (queue_of s k))

  Served-cons :
      (s : ReplayState V) (c : Call) (cs : List Call) (r : Result V Text)
      (rest : List (Result V Text))
      → IsReplaying s
      → queue_of s (key_of c) ≡ r ∷ rest
      → Served (dispatch s c).0 cs
      → Served s (c ∷ cs)
  unfolding decisions
  Served-cons s c cs r rest h e ih =
      let hits = (dispatch_hit s c r rest h e).0 in
      (
        rw hits ih.0,
        λ k. rw hits (ground (arith, ih.1 k, queue_of-hit s c r rest k h e, eq_iff (key_of c) k)),
      )

  -- However the calls are ordered, each is answered from the queue of its key.
  calls-Served :
      (s : ReplayState V) (cs : List Call)
      → IsReplaying s
      → ((k : Key) → count k cs ≤ length (queue_of s k))
      → Served s cs
  unfolding decisions
  calls-Served s [] h enough = (tt, λ k. refl)
  calls-Served s (c ∷ cs) h enough = elim (List-cases (queue_of s (key_of c))) [
    | inl e ↦ absurd (omega (arith, enough (key_of c), count_positive c cs, ap length e))
    | inr (r, rest, e) ↦ Served-cons s c cs r rest h e (
        calls-Served (dispatch s c).0 cs (dispatch_hit s c r rest h e).1
          (λ k. ground (arith, queue_of-hit s c r rest k h e, enough k, eq_iff (key_of c) k)))
  ]

  pub new-IsReplaying : (j : CallbackJournal V) → IsReplaying (new j)
  unfolding new
  new-IsReplaying j = record { replaying = refl; running = refl }

  -- From a loaded journal, as long as no key is called more often than it was recorded, every call
  -- is a hit in whatever order the calls are made, and the calls of each key are given that key's
  -- recorded results, first in first out.
  pub new-Served :
      (j : CallbackJournal V) (cs : List Call)
      → ((k : Key) → count k cs ≤ length (results_for k j.entries))
      → AllHits (decisions (new j) (map dispatches cs))
        × ((k : Key)
            → served k cs (decisions (new j) (map dispatches cs))
              ≡ take (count k cs) (results_for k j.entries))
  new-Served j cs enough =
      let s = calls-Served (new j) cs (new-IsReplaying j) (λ k. rw (queue_of-new j k) (enough k)) in
      (s.0, λ k. s.1 k ∙ ap (take (count k cs)) (queue_of-new j k))
