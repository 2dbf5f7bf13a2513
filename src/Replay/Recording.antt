-- ===== src/Replay/Recording.antt =====
-- The first run of a script, which records its calls: crates/eryx/src/replay.rs.
use eryx.Prelude.{
  ◌+◌, ◌^◌, ◌≤◌, ◌≡◌, refl, none, some, List, [], ◌∷◌, ◌++◌, arith, Result, ◌∙◌, ap, sym, length,
  length-append, map,
}
use mathlib.Core.List.{append_assoc, append-nil}
use eryx.Prelude.HashMap.{get}
use eryx.Replay.Journal.{CallbackError}
use eryx.Replay.State.{ReplayState, call_keys}
use eryx.Replay.Callback.{Call}
use eryx.Replay.Calls.{
  run_calls, NoneSuspends, journaled, entry_of, entries_from, recorded, invoke_uncached,
}

module _ {ℓ} {V : Type ℓ} where
  -- A state that records: nothing is cached.
  pub record IsRecording (s : ReplayState V) : Type ℓ where
    pub uncached : s.cached ≡ []
    pub running : s.suspended ≡ none
    pub unbounded : s.suspend_seq ≡ none
    pub one_each : length s.entries ≡ s.next_seq

  recorded-IsRecording :
      (s : ReplayState V) (c : Call) (live : Result V CallbackError)
      → IsRecording s
      → IsRecording (recorded s c live)
  recorded-IsRecording s c live h = record {
    uncached = h.uncached;
    running = h.running;
    unbounded = h.unbounded;
    one_each = omega (
      arith,
      length-append s.entries (some (entry_of s.next_seq c (journaled live)) ∷ []),
      h.one_each,
    );
  }

  pub record Records (s t : ReplayState V) (cs : List (Call × Result V CallbackError))
      (rs : List (Result V CallbackError)) : Type ℓ where
    pub results : rs ≡ map (λ p. p.1) cs
    pub entries : t.entries ≡ s.entries ++ map some (entries_from s.next_seq cs)
    pub recording : IsRecording t

  pub run_calls-Records :
      (s : ReplayState V) (cs : List (Call × Result V CallbackError))
      → IsRecording s
      → NoneSuspends cs
      → s.next_seq + length cs ≤ 2 ^ 32
      → Records s (run_calls s cs).0 cs (run_calls s cs).1
  unfolding run_calls
  run_calls-Records s [] h n fits = record {
    results = refl;
    entries = sym (append-nil s.entries);
    recording = h;
  }
  run_calls-Records s ((c, live) ∷ cs) h n fits =
      let step =
        invoke_uncached s c live (unfold get in rw h.uncached) h.running h.one_each n.0
          (omega arith) in
      let ih =
        run_calls-Records (recorded s c live) cs (recorded-IsRecording s c live h) n.1
          (omega arith) in
      rw step (record {
        results = ap (◌∷◌ live) ih.results;
        entries = ih.entries ∙ append_assoc s.entries _ _;
        recording = ih.recording;
      })
