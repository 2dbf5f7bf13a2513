-- ===== src/Replay/Schedule.antt =====
-- Concurrent executions of replayed callbacks (crates/eryx/src/replay.rs): the wrapped callbacks
-- share one state, and a schedule says in which order invocations are made and completed.
use eryx.Prelude.{ℕ, List, [], ◌∷◌, Result}
use eryx.Replay.Journal.{CallbackError}
use eryx.Replay.State.{ReplayState, Decision}
use eryx.Replay.Callback.{Call, dispatch, complete}

pub data Event {ℓ} (V : Type ℓ) : Type ℓ where
  dispatches : Call → Event V
  completes : Call → ℕ → Result V CallbackError → Event V

module _ {ℓ} {V : Type ℓ} where
  unfoldable pub step : ReplayState V → Event V → ReplayState V
  step s (dispatches c) = (dispatch s c).0
  step s (completes c seq result) = complete s c seq result

  unfoldable pub run : ReplayState V → List (Event V) → ReplayState V
  run s [] = s
  run s (e ∷ es) = run (step s e) es

  -- The decisions of the dispatches, in order.
  unfoldable pub decisions : ReplayState V → List (Event V) → List (Decision V)
  decisions s [] = []
  decisions s (dispatches c ∷ es) =
      let rest = decisions (dispatch s c).0 es in (dispatch s c).1 ∷ rest
  decisions s (completes c seq result ∷ es) = decisions (complete s c seq result) es
