-- ===== src/Handler.antt =====
-- The callback handler of crates/eryx/src/callback_handler.rs. `V` stands for `serde_json::Value`; its
-- text and its parser are arguments. Response channels are numbers. A callback that runs is given by
-- the time it takes and its result.
mod Runs
mod Receive
mod Limit
mod Drain
mod Network
mod Answers
mod Examples
pub mod Output
use eryx.Prelude.{
  ℕ, zero, suc, ◌+◌, ◌/◌, ◌%◌, ◌^◌, Bool, false, Option, none, some, List, [], ◌∷◌, ◌++◌, Result,
  ok, err, if◌then◌else◌, ltb, leb, text_keys,
}
use eryx.Prelude.HashMap.{HashMap, get}
use eryx.Prelude.Text.{Text, codes}
use eryx.Net.Config.{SecretConfig}
use eryx.Replay.Journal.{CallbackError, timeout, suspend, to_string}
use eryx.Sandbox.{ResourceLimits}
use eryx.Secrets.{scrub_placeholders}

pub data CallbackHostResult : Type 0 where
  ok_result err_result suspend_result : Text → CallbackHostResult

pub record CallbackRequest : Type 0 where
  pub name : Text
  pub arguments_json : Text
  pub response_tx : ℕ

-- A future of `create_callback_future`: the callback, its arguments and where the result goes.
pub record InFlight {ℓ} (V : Type ℓ) : Type ℓ where
  pub callback : ℕ
  pub args : V
  pub response_tx : ℕ

-- `sent` is what went out over the response channels, and `made` every future that was made, which only
-- the model keeps.
pub record HandlerState {ℓ} (V : Type ℓ) : Type ℓ where
  pub invocation_count : ℕ
  pub in_flight : List (InFlight V)
  pub sent : List (ℕ × CallbackHostResult)
  pub made : List (InFlight V)

-- The digits of a 32-bit number, of which there are ten at most.
abbrev digits : ℕ → ℕ → Text → Text
digits zero n rest = rest
digits (suc fuel) n rest =
    let more = digits fuel (n / 10) ((b'0' + n % 10) ∷ rest) in
    if ltb n 10 then (b'0' + n) ∷ rest else more

abbrev pub decimal : ℕ → Text
decimal n = digits 10 n []

unfoldable pub over_limit : Option ℕ → ℕ → Bool
over_limit none current = false
over_limit (some max) current = leb max current

abbrev pub limit_message : Option ℕ → Text
limit_message none = []
limit_message (some max) = codes "Callback limit exceeded (" ++ decimal max ++ codes " invocations)"

-- `tokio::time::timeout`, which looks at the future before the deadline.
unfoldable pub with_timeout {ℓ} :
    {V : Type ℓ} → Option ℕ → ℕ → Result V CallbackError → Result V CallbackError
with_timeout none took result = result
with_timeout (some limit) took result = if ltb limit took then err timeout else result

module _ {ℓ} {V : Type ℓ} (value_text : V → Text) where
  unfoldable pub host_result :
      HashMap Text SecretConfig → Result V CallbackError → CallbackHostResult
  host_result secrets (ok value) = ok_result (scrub_placeholders (value_text value) secrets)
  host_result secrets (err (suspend reason)) = suspend_result (scrub_placeholders reason secrets)
  host_result secrets (err e) = err_result (scrub_placeholders (to_string e) secrets)

unfoldable pub new {ℓ} : {V : Type ℓ} → HandlerState V
new = record { invocation_count = 0; in_flight = []; sent = []; made = [] }

abbrev pub send {ℓ} : {V : Type ℓ} → HandlerState V → ℕ → CallbackHostResult → HandlerState V
send s response_tx result = record s { sent = s.sent ++ (response_tx, result) ∷ [] }

-- The slot leaves the collection.
abbrev pub remove_at {ℓ} : {A : Type ℓ} → ℕ → List A → List A
remove_at n [] = []
remove_at zero (x ∷ xs) = xs
remove_at (suc n) (x ∷ xs) = x ∷ remove_at n xs

module _ {ℓ} {V : Type ℓ} (from_str : Text → Result V Text) (callbacks : HashMap Text ℕ)
    (resource_limits : ResourceLimits) where
  -- The callback and its arguments, or the message of what is missing.
  unfoldable pub prepare : CallbackRequest → Result (InFlight V) Text
  prepare request = elim (get callbacks request.name) [
    | none ↦ err (codes "Callback '" ++ request.name ++ codes "' not found")
    | some callback ↦ elim (from_str request.arguments_json) [
      | err e ↦ err (codes "Invalid arguments JSON: " ++ e)
      | ok args ↦
          ok (record { callback = callback; args = args; response_tx = request.response_tx })
    ]
  ]

  -- `fetch_add` wraps.
  unfoldable pub create_callback_future :
      HandlerState V → CallbackRequest → HandlerState V × Option (InFlight V)
  create_callback_future s request =
      let current = s.invocation_count in
      let counted = record s { invocation_count = (current + 1) % 2 ^ 32 } in
      let max = resource_limits.max_callback_invocations in
      if over_limit max current
      then (send counted request.response_tx (err_result (limit_message max)), none)
      else elim (prepare request) [
        | err message ↦ (send counted request.response_tx (err_result message), none)
        | ok future ↦ (counted, some future)
      ]

  abbrev pub push : HandlerState V → Option (InFlight V) → HandlerState V
  push s none = s
  push s (some future) = record s {
    in_flight = s.in_flight ++ future ∷ [];
    made = s.made ++ future ∷ [];
  }

  -- The branch of the loop that receives a request.
  unfoldable pub receive : HandlerState V → CallbackRequest → HandlerState V
  receive s request =
      let (counted, future) = create_callback_future s request in push counted future

  -- The branch of the loop in which the future in slot `i` ends.
  unfoldable pub finish :
      (V → Text)
      → HashMap Text SecretConfig
      → HandlerState V
      → ℕ
      → InFlight V
      → ℕ
      → Result V CallbackError
      → HandlerState V
  finish value_text secrets s i future took result =
      send (record s { in_flight = remove_at i s.in_flight }) future.response_tx
        (host_result value_text secrets (with_timeout resource_limits.callback_timeout took result))
