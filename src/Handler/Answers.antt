-- ===== src/Handler/Answers.antt =====
-- Every request that run_callback_handler of crates/eryx/src/callback_handler.rs takes is answered once.
use eryx.Prelude.{
  ℕ, zero, suc, ◌+◌, ◌≡◌, refl, ◌∙◌, inl, inr, some, List, [], ◌∷◌, ◌++◌, Result, ok, nat_eq,
  if◌then◌else◌, get_elem?, arith,
}
use eryx.Prelude.HashMap.{HashMap}
use eryx.Prelude.Text.{Text}
use eryx.Net.Config.{SecretConfig}
use eryx.Replay.Journal.{CallbackError}
use eryx.Sandbox.{ResourceLimits}
use eryx.Handler.{
  CallbackHostResult, CallbackRequest, InFlight, HandlerState, prepare, remove_at, new, receive,
  finish,
}
use eryx.Handler.Receive.{receive-cases}
use eryx.Handler.Runs.{Runs, starts, receives, finishes}

-- How often a number comes out of the list.
abbrev pub count {ℓ} : {A : Type ℓ} → (A → ℕ) → ℕ → List A → ℕ
count f t [] = 0
count f t (x ∷ xs) = (if nat_eq (f x) t then 1 else 0) + count f t xs

pub count-append {ℓ} :
    {A : Type ℓ} (f : A → ℕ) (t : ℕ) (xs ys : List A)
    → count f t (xs ++ ys) ≡ count f t xs + count f t ys
count-append f t [] ys = omega arith
count-append f t (x ∷ xs) ys = omega (arith, count-append f t xs ys)

pub count-remove_at {ℓ} :
    {A : Type ℓ} (f : A → ℕ) (t i : ℕ) (xs : List A) (x : A)
    → get_elem? xs i ≡ some x
    → count f t xs ≡ (if nat_eq (f x) t then 1 else 0) + count f t (remove_at i xs)
count-remove_at f t i [] x h = ground arith
count-remove_at f t zero (y ∷ xs) x h = ground arith
count-remove_at f t (suc i) (y ∷ xs) x h = omega (arith, count-remove_at f t i xs x h)

abbrev pub requested : ℕ → List CallbackRequest → ℕ
requested = count (λ r. r.response_tx)

module _ {ℓ} {V : Type ℓ} where
  abbrev pub waiting : ℕ → HandlerState V → ℕ
  waiting t s = count (λ f. f.response_tx) t s.in_flight

  abbrev pub answered : ℕ → HandlerState V → ℕ
  answered t s = count (λ a. a.0) t s.sent

module _ {ℓ} {V : Type ℓ} (value_text : V → Text) (from_str : Text → Result V Text)
    (callbacks : HashMap Text ℕ) (resource_limits : ResourceLimits)
    (secrets : HashMap Text SecretConfig) where
  prepare_tx :
      (r : CallbackRequest) (f : InFlight V)
      → prepare from_str callbacks resource_limits r ≡ ok f
      → f.response_tx ≡ r.response_tx
  unfolding prepare
  prepare_tx r f h = ground arith

  -- A request is answered at once or waits.
  receive-answers :
      (s : HandlerState V) (r : CallbackRequest) (t : ℕ)
      → answered t (receive from_str callbacks resource_limits s r)
          + waiting t (receive from_str callbacks resource_limits s r)
        ≡ answered t s + waiting t s + (if nat_eq r.response_tx t then 1 else 0)
  receive-answers s r t = elim (receive-cases from_str callbacks resource_limits s r) [
    | inl (m, e, why) ↦ rw e (
        omega (
          arith,
          count-append (λ a. a.0) t s.sent ((r.response_tx, CallbackHostResult.err_result m) ∷ []),
        ))
    | inr (f, within, prepared, e) ↦ rw e (
        ground (
          arith,
          prepare_tx r f prepared,
          count-append (λ f. f.response_tx) t s.in_flight (f ∷ []),
        ))
  ]

  finish-answers :
      (s : HandlerState V) (i : ℕ) (f : InFlight V) (took : ℕ) (result : Result V CallbackError)
      (t : ℕ)
      → get_elem? s.in_flight i ≡ some f
      → answered t (finish from_str callbacks resource_limits value_text secrets s i f took result)
          + waiting t
              (finish from_str callbacks resource_limits value_text secrets s i f took result)
        ≡ answered t s + waiting t s
  unfolding finish
  finish-answers s i f took result t h = omega (
    arith,
    count-append (λ a. a.0) t s.sent ((f.response_tx, _) ∷ []),
    count-remove_at (λ f. f.response_tx) t i s.in_flight f h,
  )

  -- At any point of any run, a channel has as many answers and futures that wait as it had requests.
  pub handler-IsAnswered :
      (rs : List CallbackRequest) (s : HandlerState V) (t : ℕ)
      → Runs value_text from_str callbacks resource_limits secrets rs s
      → answered t s + waiting t s ≡ requested t rs
  unfolding new
  handler-IsAnswered rs s t starts = refl
  handler-IsAnswered rs s t (receives before s0 r run) = omega (
    arith,
    receive-answers s0 r t,
    handler-IsAnswered before s0 t run,
    count-append (λ r. r.response_tx) t before (r ∷ []),
  )
  handler-IsAnswered rs s t (finishes before s0 i f took result h run) =
      finish-answers s0 i f took result t h ∙ handler-IsAnswered rs s0 t run
