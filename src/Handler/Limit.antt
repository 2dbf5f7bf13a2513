-- ===== src/Handler/Limit.antt =====
-- The callback limit of crates/eryx/src/callback_handler.rs.
use eryx.Prelude.{
  ℕ, zero, suc, ◌+◌, ◌%◌, ◌^◌, ◌<◌, ◌≤◌, ◌≡◌, refl, sym, ap, ◌∙◌, inl, inr, true, false, Option,
  none, some, List, [], ◌∷◌, ◌++◌, Result, ok, err, length, length-append, take, take_all,
  Bool-cases, arith,
}
use mathlib.Core.List.{append-nil}
use eryx.Prelude.HashMap.{HashMap}
use eryx.Prelude.Text.{Text}
use eryx.Net.Config.{SecretConfig}
use eryx.Sandbox.{ResourceLimits}
use eryx.Handler.{
  CallbackRequest, InFlight, HandlerState, over_limit, prepare, new, receive, finish,
}
use eryx.Handler.Receive.{receive-cases}
use eryx.Handler.Runs.{Runs, starts, receives, finishes}

-- The requests that the limit lets through.
abbrev pub admitted : Option ℕ → List CallbackRequest → List CallbackRequest
admitted none rs = rs
admitted (some max) rs = take max rs

abbrev keep_ok {ℓ} : {V : Type ℓ} → Result (InFlight V) Text → List (InFlight V)
keep_ok (ok f) = f ∷ []
keep_ok (err m) = []

module _ {ℓ} {A : Type ℓ} where
  take-past : (n : ℕ) (xs : List A) (x : A) → n ≤ length xs → take n (xs ++ x ∷ []) ≡ take n xs
  take-past zero xs x h = refl
  take-past (suc n) [] x h = absurd (omega arith)
  take-past (suc n) (y ∷ xs) x h = ap (λ t. y ∷ t) (take-past n xs x (omega arith))

  take-within :
      (n : ℕ) (xs : List A) (x : A) → length xs < n → take n (xs ++ x ∷ []) ≡ take n xs ++ x ∷ []
  take-within n xs x h =
      take_all n (xs ++ x ∷ []) (omega (arith, length-append xs (x ∷ [])))
      ∙ ap (λ t. t ++ x ∷ []) (sym (take_all n xs (omega arith)))

admitted-over :
    (max : Option ℕ) (rs : List CallbackRequest) (r : CallbackRequest)
    → over_limit max (length rs) ≡ true
    → admitted max (rs ++ r ∷ []) ≡ admitted max rs
unfolding over_limit
admitted-over none rs r h = absurd (ground arith)
admitted-over (some max) rs r h = take-past max rs r (ground arith)

admitted-within :
    (max : Option ℕ) (rs : List CallbackRequest) (r : CallbackRequest)
    → over_limit max (length rs) ≡ false
    → admitted max (rs ++ r ∷ []) ≡ admitted max rs ++ r ∷ []
unfolding over_limit
admitted-within none rs r h = refl
admitted-within (some max) rs r h = take-within max rs r (ground arith)

admitted_none : (max : Option ℕ) → admitted max [] ≡ []
admitted_none none = refl
admitted_none (some zero) = refl
admitted_none (some (suc max)) = refl

module _ {ℓ} {V : Type ℓ} (value_text : V → Text) (from_str : Text → Result V Text)
    (callbacks : HashMap Text ℕ) (resource_limits : ResourceLimits)
    (secrets : HashMap Text SecretConfig) where
  -- The requests for which there is a callback and that have arguments that parse.
  abbrev pub futures : List CallbackRequest → List (InFlight V)
  futures [] = []
  futures (r ∷ rs) = keep_ok (prepare from_str callbacks resource_limits r) ++ futures rs

  futures-append : (rs ts : List CallbackRequest) → futures (rs ++ ts) ≡ futures rs ++ futures ts
  futures-append [] ts = refl
  futures-append (r ∷ rs) ts = ground (arith, futures-append rs ts)

  -- After any run the count is the number of requests that came in, refused ones included, modulo 2 ^ 32.
  pub invocation_count-length :
      (rs : List CallbackRequest) (s : HandlerState V)
      → Runs value_text from_str callbacks resource_limits secrets rs s
      → s.invocation_count ≡ length rs % 2 ^ 32
  unfolding new finish
  invocation_count-length rs s starts = refl
  invocation_count-length rs s (receives before s0 r run) =
      let one_more : (s0.invocation_count + 1) % 2 ^ 32 ≡ length (before ++ r ∷ []) % 2 ^ 32 =
        omega (arith, invocation_count-length before s0 run, length-append before (r ∷ [])) in
      elim (receive-cases from_str callbacks resource_limits s0 r) [
        | inl (m, e, why) ↦ ap (λ s. s.invocation_count) e ∙ one_more
        | inr (f, within, prepared, e) ↦ ap (λ s. s.invocation_count) e ∙ one_more
      ]
  invocation_count-length rs s (finishes before s0 i f took result h run) =
      invocation_count-length rs s0 run

  -- What a request adds when the count is that of the requests before it.
  receive-made :
      (before : List CallbackRequest) (s : HandlerState V) (r : CallbackRequest)
      → s.invocation_count ≡ length before
      → s.made ≡ futures (admitted resource_limits.max_callback_invocations before)
      → (receive from_str callbacks resource_limits s r).made
        ≡ futures (admitted resource_limits.max_callback_invocations (before ++ r ∷ []))
  receive-made before s r count so_far =
      let max = resource_limits.max_callback_invocations in
      let limit : over_limit max s.invocation_count ≡ over_limit max (length before) =
        ap (over_limit max) count in
      let kept : List (InFlight V) = futures (r ∷ []) in
      let within : over_limit max (length before) ≡ false
          → futures (admitted max (before ++ r ∷ [])) ≡ futures (admitted max before) ++ kept =
        λ h.
          ap futures (admitted-within max before r h)
          ∙ futures-append (admitted max before) (r ∷ []) in
      let over : over_limit max (length before) ≡ true
          → futures (admitted max (before ++ r ∷ [])) ≡ futures (admitted max before) =
        λ h. ap futures (admitted-over max before r h) in
      elim (receive-cases from_str callbacks resource_limits s r) [
        | inl (m, e, inl past) ↦ ap (λ s. s.made) e ∙ so_far ∙ sym (over (sym limit ∙ past))
        | inl (m, e, inr missing) ↦
            ap (λ s. s.made) e ∙ so_far ∙ elim (Bool-cases (over_limit max (length before))) [
              | inl past ↦ sym (over past)
              | inr room ↦ sym (
                  within room
                  ∙ ap (λ k. futures (admitted max before) ++ (keep_ok k ++ [])) missing
                  ∙ append-nil (futures (admitted max before)))
            ]
        | inr (f, room, prepared, e) ↦
            ap (λ s. s.made) e
            ∙ ap (λ t. t ++ f ∷ []) so_far
            ∙ sym (
                within (sym limit ∙ room)
                ∙ ap (λ k. futures (admitted max before) ++ (keep_ok k ++ [])) prepared)
      ]

  -- In any run of at most 2 ^ 32 requests, the callbacks that are run are those that are found and have
  -- arguments that parse, among as many of the first requests as the limit says, in their order.
  pub made-admitted :
      (rs : List CallbackRequest) (s : HandlerState V)
      → length rs ≤ 2 ^ 32
      → Runs value_text from_str callbacks resource_limits secrets rs s
      → s.made ≡ futures (admitted resource_limits.max_callback_invocations rs)
  unfolding new finish
  made-admitted rs s few starts = rw (admitted_none resource_limits.max_callback_invocations) refl
  made-admitted rs s few (receives before s0 r run) =
      let size = length-append before (r ∷ []) in
      receive-made before s0 r (omega (arith, size, invocation_count-length before s0 run))
        (made-admitted before s0 (omega (arith, size)) run)
  made-admitted rs s few (finishes before s0 i f took result h run) = made-admitted rs s0 few run
