-- ===== src/Handler/Runs.antt =====
-- The runs of the loop of `run_callback_handler` in crates/eryx/src/callback_handler.rs: requests come in
-- and futures end in any order. The loop returns when the channel is closed and no future is left, with the
-- count it has then.
use eryx.Prelude.{ℕ, ◌≡◌, some, List, [], ◌∷◌, ◌++◌, Result, get_elem?}
use eryx.Prelude.HashMap.{HashMap}
use eryx.Prelude.Text.{Text}
use eryx.Net.Config.{SecretConfig}
use eryx.Replay.Journal.{CallbackError}
use eryx.Sandbox.{ResourceLimits}
use eryx.Handler.{CallbackRequest, InFlight, HandlerState, new, receive, finish}

module _ {ℓ} {V : Type ℓ} (value_text : V → Text) (from_str : Text → Result V Text)
    (callbacks : HashMap Text ℕ) (resource_limits : ResourceLimits)
    (secrets : HashMap Text SecretConfig) where
  -- The state after the requests, of which some may still be in flight.
  pub data Runs : List CallbackRequest → HandlerState V → Type ℓ where
    starts : Runs [] new
    receives :
        (rs : List CallbackRequest) (s : HandlerState V) (r : CallbackRequest)
        → Runs rs s
        → Runs (rs ++ r ∷ []) (receive from_str callbacks resource_limits s r)
    finishes :
        (rs : List CallbackRequest) (s : HandlerState V) (i : ℕ) (f : InFlight V) (took : ℕ)
        (result : Result V CallbackError)
        → get_elem? s.in_flight i ≡ some f
        → Runs rs s
        → Runs rs (finish from_str callbacks resource_limits value_text secrets s i f took result)
