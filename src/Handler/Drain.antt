-- ===== src/Handler/Drain.antt =====
-- The end of `run_callback_handler` in crates/eryx/src/callback_handler.rs: the futures that are left are
-- waited for.
use eryx.Prelude.{
  ℕ, zero, suc, ◌+◌, ◌-◌, ◌<◌, min, ◌≡◌, refl, ap, ◌∙◌, none, some, List, [], ◌∷◌, Result, length,
  get_elem?, arith,
}
use eryx.Prelude.HashMap.{HashMap}
use eryx.Prelude.Text.{Text}
use eryx.Net.Config.{SecretConfig}
use eryx.Replay.Journal.{CallbackError}
use eryx.Sandbox.{ResourceLimits}
use eryx.Handler.{
  CallbackHostResult, CallbackRequest, InFlight, HandlerState, remove_at, with_timeout, host_result,
  finish,
}
use eryx.Handler.Runs.{Runs, finishes}
use eryx.Handler.Answers.{
  count, count-append, count-remove_at, requested, answered, handler-IsAnswered,
}

get_elem?-within {ℓ} :
    {A : Type ℓ} (xs : List A) (i : ℕ) → i < length xs → (x : A) × (get_elem? xs i ≡ some x)
get_elem?-within [] i h = absurd (omega arith)
get_elem?-within (x ∷ xs) zero h = (x, refl)
get_elem?-within (x ∷ xs) (suc i) h = get_elem?-within xs i (omega arith)

length-remove_at {ℓ} :
    {A : Type ℓ} (xs : List A) (i n : ℕ)
    → length xs ≡ suc n
    → i < length xs
    → length (remove_at i xs) ≡ n
length-remove_at [] i n e h = absurd (omega arith)
length-remove_at (x ∷ xs) zero n e h = omega arith
length-remove_at (x ∷ []) (suc i) n e h = absurd (omega arith)
length-remove_at (x ∷ y ∷ xs) (suc i) n e h =
    omega (arith, length-remove_at (y ∷ xs) i (length xs) refl (omega arith))

module _ {ℓ} {V : Type ℓ} (value_text : V → Text) (from_str : Text → Result V Text)
    (callbacks : HashMap Text ℕ) (resource_limits : ResourceLimits)
    (secrets : HashMap Text SecretConfig) (ends : InFlight V → ℕ × Result V CallbackError) where
  -- The end of one future, with what `ends` says it took and returned.
  abbrev pub ended : HandlerState V → ℕ → InFlight V → HandlerState V
  ended s i f =
      finish from_str callbacks resource_limits value_text secrets s i f (ends f).0 (ends f).1

  -- `in_flight.next()` until there is none: `pick` chooses the slot that ends next. The number is that of
  -- the futures.
  unfoldable pub drain : (HandlerState V → ℕ) → ℕ → HandlerState V → HandlerState V
  drain pick zero s = s
  drain pick (suc n) s =
      let i = min (pick s) (length s.in_flight - 1) in
      elim (get_elem? s.in_flight i) [ none ↦ s | some f ↦ drain pick n (ended s i f) ]

  -- What a future sends when it ends.
  abbrev pub reply : InFlight V → ℕ × CallbackHostResult
  reply f = (
    f.response_tx,
    host_result value_text secrets
        (with_timeout resource_limits.callback_timeout (ends f).0 (ends f).1),
  )

  -- What drained the waiting futures of `s` into `t`.
  record Drains (rs : List CallbackRequest) (s t : HandlerState V) : Type ℓ where
    ran : Runs value_text from_str callbacks resource_limits secrets rs t
    empty : t.in_flight ≡ []
    replied :
        (g : ℕ × CallbackHostResult → ℕ) (k : ℕ)
        → count g k t.sent ≡ count g k s.sent + count (λ f. g (reply f)) k s.in_flight

  no_futures : {A : Type ℓ} (xs : List A) → length xs ≡ 0 → xs ≡ []
  no_futures [] h = refl
  no_futures (x ∷ xs) h = absurd (omega arith)

  replies-ended :
      (g : ℕ × CallbackHostResult → ℕ) (k : ℕ) (s : HandlerState V) (i : ℕ) (f : InFlight V)
      → get_elem? s.in_flight i ≡ some f
      → count g k (ended s i f).sent + count (λ f. g (reply f)) k (ended s i f).in_flight
        ≡ count g k s.sent + count (λ f. g (reply f)) k s.in_flight
  unfolding finish
  replies-ended g k s i f h = omega (
    arith,
    count-append g k s.sent (reply f ∷ []),
    count-remove_at (λ f. g (reply f)) k i s.in_flight f h,
  )

  ended-length :
      (s : HandlerState V) (i n : ℕ) (f : InFlight V)
      → length s.in_flight ≡ suc n
      → i < length s.in_flight
      → length (ended s i f).in_flight ≡ n
  unfolding finish
  ended-length s i n f h within = length-remove_at s.in_flight i n h within

  drain-Drains :
      (pick : HandlerState V → ℕ) (rs : List CallbackRequest) (n : ℕ) (s : HandlerState V)
      → length s.in_flight ≡ n
      → Runs value_text from_str callbacks resource_limits secrets rs s
      → Drains rs s (drain pick n s)
  unfolding drain
  drain-Drains pick rs zero s h run = record {
    ran = run;
    empty = no_futures s.in_flight h;
    replied = λ g k. rw (no_futures s.in_flight h) (omega arith);
  }
  drain-Drains pick rs (suc n) s h run =
      let i = min (pick s) (length s.in_flight - 1) in
      let (f, at) = get_elem?-within s.in_flight i (omega arith) in
      let rest =
        drain-Drains pick rs n (ended s i f) (ended-length s i n f h (omega arith))
          (finishes rs s i f (ends f).0 (ends f).1 at run) in
      rw (at, drain)
        (record {
          ran = rest.ran;
          empty = rest.empty;
          replied = λ g k. rest.replied g k ∙ replies-ended g k s i f at;
        })

  -- Whatever the callbacks that wait take and return, and whichever order they end in: from any point of
  -- any run, waiting until each has ended is a run with nothing in flight, where each channel has had as
  -- many answers as requests. What was sent since are the replies of the futures that waited, in some order:
  -- whichever number the replies are given, each number comes as often in one as in the other.
  pub drain-IsAnswered :
      (pick : HandlerState V → ℕ) (rs : List CallbackRequest) (s : HandlerState V)
      → Runs value_text from_str callbacks resource_limits secrets rs s
      → let t = drain pick (length s.in_flight) s in
        Runs value_text from_str callbacks resource_limits secrets rs t
        × (t.in_flight ≡ [])
        × ((g : ℕ × CallbackHostResult → ℕ) (k : ℕ)
            → count g k t.sent ≡ count g k s.sent + count (λ f. g (reply f)) k s.in_flight)
        × ((channel : ℕ) → answered channel t ≡ requested channel rs)
  drain-IsAnswered pick rs s run =
      let t = drain pick (length s.in_flight) s in
      let all = drain-Drains pick rs (length s.in_flight) s refl run in
      (
        all.ran,
        all.empty,
        all.replied,
        λ channel. omega (
          arith,
          handler-IsAnswered value_text from_str callbacks resource_limits secrets rs t channel
              all.ran,
          ap (count (λ f. f.response_tx) channel) all.empty,
        ),
      )
