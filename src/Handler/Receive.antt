-- ===== src/Handler/Receive.antt =====
-- The branches of a request that comes in, in crates/eryx/src/callback_handler.rs.
use eryx.Prelude.{
  ℕ, ◌+◌, ◌%◌, ◌^◌, ◌≡◌, refl, ◌⊎◌, inl, inr, true, false, [], ◌∷◌, ◌++◌, Result, ok, err,
  Bool-cases, Result-cases,
}
use eryx.Prelude.HashMap.{HashMap}
use eryx.Prelude.Text.{Text}
use eryx.Sandbox.{ResourceLimits}
use eryx.Handler.{
  CallbackRequest, CallbackHostResult, InFlight, HandlerState, limit_message, over_limit, prepare,
  create_callback_future, send, receive,
}

module _ {ℓ} {V : Type ℓ} where
  abbrev pub counted : HandlerState V → HandlerState V
  counted s = record s { invocation_count = (s.invocation_count + 1) % 2 ^ 32 }

module _ {ℓ} {V : Type ℓ} (from_str : Text → Result V Text) (callbacks : HashMap Text ℕ)
    (resource_limits : ResourceLimits) (s : HandlerState V) (r : CallbackRequest) where
  receive-over :
      over_limit resource_limits.max_callback_invocations s.invocation_count ≡ true
      → (m : Text) × (receive from_str callbacks resource_limits s r
          ≡ send (counted s) r.response_tx (CallbackHostResult.err_result m))
  unfolding receive create_callback_future
  receive-over over = (limit_message resource_limits.max_callback_invocations, rw over refl)

  receive-err :
      (m : Text)
      → over_limit resource_limits.max_callback_invocations s.invocation_count ≡ false
      → prepare from_str callbacks resource_limits r ≡ err m
      → receive from_str callbacks resource_limits s r
        ≡ send (counted s) r.response_tx (CallbackHostResult.err_result m)
  unfolding receive create_callback_future
  receive-err m within missing = rw (within, missing) refl

  receive-ok :
      (f : InFlight V)
      → over_limit resource_limits.max_callback_invocations s.invocation_count ≡ false
      → prepare from_str callbacks resource_limits r ≡ ok f
      → receive from_str callbacks resource_limits s r
        ≡ record (counted s) { in_flight = s.in_flight ++ f ∷ []; made = s.made ++ f ∷ [] }
  unfolding receive create_callback_future
  receive-ok f within prepared = rw (within, prepared) refl

  -- A refusal with its message, or a future that is made.
  pub receive-cases :
      ((m : Text) × (receive from_str callbacks resource_limits s r
          ≡ send (counted s) r.response_tx (CallbackHostResult.err_result m))
        × ((over_limit resource_limits.max_callback_invocations s.invocation_count ≡ true)
            ⊎ (prepare from_str callbacks resource_limits r ≡ err m)))
      ⊎ ((f : InFlight V) × (over_limit resource_limits.max_callback_invocations s.invocation_count
            ≡ false)
          × (prepare from_str callbacks resource_limits r ≡ ok f)
          × (receive from_str callbacks resource_limits s r
              ≡ record (counted s) { in_flight = s.in_flight ++ f ∷ []; made = s.made ++ f ∷ [] }))
  receive-cases =
      elim (Bool-cases (over_limit resource_limits.max_callback_invocations s.invocation_count)) [
        | inl over ↦ let gone = receive-over over in inl (gone.0, gone.1, inl over)
        | inr within ↦ elim (Result-cases (prepare from_str callbacks resource_limits r)) [
          | inl (f, prepared) ↦ inr (f, within, prepared, receive-ok f within prepared)
          | inr (m, missing) ↦ inl (m, receive-err m within missing, inr missing)
        ]
      ]
