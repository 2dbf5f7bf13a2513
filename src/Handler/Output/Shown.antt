-- ===== src/Handler/Output/Shown.antt =====
-- What the collectors of crates/eryx/src/callback_handler.rs show of the placeholders.
use eryx.Prelude.{
  Bool, ◌&&◌, ap, map, nat_eq, ℕ, zero, suc, ◌≡◌, refl, Option, true, not, if◌then◌else◌, if_rule,
  List, [], ◌∷◌, ◌++◌, Result, inl, inr, Result-cases, arith,
}
use mathlib.Core.List.{append-nil}
use eryx.Prelude.HashMap.{HashMap}
use eryx.Prelude.Text.{Text}
use eryx.Net.Config.{SecretConfig}
use eryx.Secrets.{redacted, scrub_placeholders}
use eryx.Secrets.Redaction.{ArePlain, NoneFound, scrub_placeholders-NoneFound}
use eryx.Scrubbing.Split.{replace_absent}
use eryx.Handler.Output.{
  OutputRequest, OutputCall, on_output, on_stderr, no_secrets, should_scrub, dispatch, output_data,
  run_output_collector, TraceEventKind, TraceEvent, TraceRequest, line, call, return, exception,
  callback_start, callback_end, scrub_kind, scrub_trace_event, parse_trace_event,
  run_trace_collector,
}

-- The text that an output handler gets.
abbrev pub shown_text : OutputCall → Text
shown_text (on_output text) = text
shown_text (on_stderr text) = text

NoneFound-no_secrets :
    (secrets : HashMap Text SecretConfig) (text : Text)
    → no_secrets secrets ≡ true
    → NoneFound secrets text
NoneFound-no_secrets [] text h = tt
NoneFound-no_secrets (secret ∷ secrets) text h = absurd (ground arith)

-- The chunks that are written to a stream.
abbrev pub chunks : ℕ → List OutputRequest → List Text
chunks stream [] = []
chunks stream (request ∷ requests) =
    if nat_eq request.stream stream
    then request.text ∷ chunks stream requests
    else chunks stream requests

abbrev pub outputs : List OutputCall → List Text
outputs [] = []
outputs (on_output text ∷ calls) = text ∷ outputs calls
outputs (on_stderr text ∷ calls) = outputs calls

abbrev pub errors : List OutputCall → List Text
errors [] = []
errors (on_output text ∷ calls) = errors calls
errors (on_stderr text ∷ calls) = text ∷ errors calls

module _ (secrets : HashMap Text SecretConfig) where
  -- A chunk on its own, as a stream that is scrubbed or not shows it.
  abbrev pub shown_chunk : Bool → Text → Text
  shown_chunk scrub chunk = if scrub then scrub_placeholders chunk secrets else chunk

  scrub_without :
      (scrub : Bool) (text : Text)
      → (if scrub && not (no_secrets secrets) then scrub_placeholders text secrets else text)
        ≡ shown_chunk scrub text
  unfolding scrub_placeholders
  scrub_without scrub text = elim secrets [ [] ↦ ground arith | secret ∷ rest ↦ ground arith ]

  dispatch-shown :
      (scrub_stdout scrub_stderr : Bool) (stream : ℕ) (text : Text) (rest : List OutputCall)
      → let calls =
          dispatch stream (
            output_data secrets scrub_stdout scrub_stderr (record { stream = stream; text = text }))
          ++ rest in
        (outputs calls ≡ (
          if nat_eq stream 0 then shown_chunk scrub_stdout text ∷ outputs rest else outputs rest))
        × (errors calls ≡ (
            if nat_eq stream 1 then shown_chunk scrub_stderr text ∷ errors rest else errors rest))
  unfolding output_data should_scrub
  dispatch-shown a b zero text rest = (ap (λ t. t ∷ outputs rest) (scrub_without a text), refl)
  dispatch-shown a b (suc zero) text rest = (refl, ap (λ t. t ∷ errors rest) (scrub_without b text))
  dispatch-shown a b (suc (suc stream)) text rest = (ground arith, ground arith)

  -- An output handler gets, in order, on standard output each chunk that is written to stream 0 and on
  -- standard error each that is written to stream 1, each chunk scrubbed on its own if the flag of that
  -- stream is set, and as it is if not; chunks of other streams are not shown.
  pub run_output_collector-shows :
      (scrub_stdout scrub_stderr : Bool) (requests : List OutputRequest)
      → let calls = run_output_collector secrets scrub_stdout scrub_stderr true requests in
        (outputs calls ≡ map (shown_chunk scrub_stdout) (chunks 0 requests))
        × (errors calls ≡ map (shown_chunk scrub_stderr) (chunks 1 requests))
  unfolding run_output_collector
  run_output_collector-shows a b [] = (refl, refl)
  run_output_collector-shows a b (request ∷ requests) =
      let first =
        dispatch-shown a b request.stream request.text
          (run_output_collector secrets a b true requests) in
      let later = run_output_collector-shows a b requests in
      (ground (arith, first.0, later.0), ground (arith, first.1, later.1))

-- No placeholder is found in the text of the kind.
abbrev pub IsClean : HashMap Text SecretConfig → TraceEventKind → Type 0
IsClean secrets line = Unit {0}
IsClean secrets (call function) = NoneFound secrets function
IsClean secrets (return function) = NoneFound secrets function
IsClean secrets (exception message) = NoneFound secrets message
IsClean secrets (callback_start name) = NoneFound secrets name
IsClean secrets (callback_end name duration_ms) = NoneFound secrets name

abbrev pub AreClean {ℓ} : {V : Type ℓ} → HashMap Text SecretConfig → List (TraceEvent V) → Type 0
AreClean secrets [] = Unit {0}
AreClean secrets (e ∷ es) = IsClean secrets e.event × AreClean secrets es

scrub_kind-IsClean :
    (secrets : HashMap Text SecretConfig) (kind : TraceEventKind)
    → ArePlain secrets
    → IsClean secrets (scrub_kind secrets kind)
unfolding scrub_kind
scrub_kind-IsClean secrets line plain = tt
scrub_kind-IsClean secrets (call function) plain =
    scrub_placeholders-NoneFound function secrets plain
scrub_kind-IsClean secrets (return function) plain =
    scrub_placeholders-NoneFound function secrets plain
scrub_kind-IsClean secrets (exception message) plain =
    scrub_placeholders-NoneFound message secrets plain
scrub_kind-IsClean secrets (callback_start name) plain =
    scrub_placeholders-NoneFound name secrets plain
scrub_kind-IsClean secrets (callback_end name duration_ms) plain =
    scrub_placeholders-NoneFound name secrets plain

IsClean-no_secrets :
    (secrets : HashMap Text SecretConfig) (kind : TraceEventKind)
    → no_secrets secrets ≡ true
    → IsClean secrets kind
IsClean-no_secrets secrets line h = tt
IsClean-no_secrets secrets (call function) h = NoneFound-no_secrets secrets function h
IsClean-no_secrets secrets (return function) h = NoneFound-no_secrets secrets function h
IsClean-no_secrets secrets (exception message) h = NoneFound-no_secrets secrets message h
IsClean-no_secrets secrets (callback_start name) h = NoneFound-no_secrets secrets name h
IsClean-no_secrets secrets (callback_end name duration_ms) h = NoneFound-no_secrets secrets name h

module _ {ℓ} {V : Type ℓ} (value_text : V → Text) (from_str : Text → Result V Text)
    (string_value : Text → V) (field : V → Text → Option Text) (secrets : HashMap Text SecretConfig)
    (plain : ArePlain secrets) where
  scrub_trace_event-IsClean :
      (event : TraceEvent V)
      → IsClean secrets
          (scrub_trace_event value_text from_str string_value field secrets event).event
  unfolding scrub_trace_event
  scrub_trace_event-IsClean event =
      if_rule (λ (e : TraceEvent V). IsClean secrets e.event) (no_secrets secrets) _ _
        (λ none_there. IsClean-no_secrets secrets event.event none_there)
        (λ some_there. scrub_kind-IsClean secrets event.event plain)

  -- Where the placeholders are plain, no message and no name of an event that is stored holds one. The
  -- context of an event is not spoken of.
  pub run_trace_collector-AreClean :
      (requests : List TraceRequest)
      → AreClean secrets
          (run_trace_collector value_text from_str string_value field secrets requests)
  unfolding run_trace_collector
  run_trace_collector-AreClean [] = tt
  run_trace_collector-AreClean (request ∷ requests) =
      elim (Result-cases (parse_trace_event value_text from_str string_value field request)) [
        | inl (event, e) ↦
            rw (e, AreClean)
              (scrub_trace_event-IsClean event, run_trace_collector-AreClean requests)
        | inr (message, e) ↦ rw (e, AreClean) (run_trace_collector-AreClean requests)
      ]

abbrev pub joined : List OutputCall → Text
joined [] = []
joined (c ∷ cs) = shown_text c ++ joined cs

scrub_placeholders_absent :
    (secrets : HashMap Text SecretConfig) (text : Text)
    → NoneFound secrets text
    → scrub_placeholders text secrets ≡ text
unfolding scrub_placeholders
scrub_placeholders_absent [] text h = refl
scrub_placeholders_absent ((name, secret) ∷ secrets) text h =
    rw (replace_absent text secret.placeholder redacted h.0)
      (scrub_placeholders_absent secrets text h.1)

-- Two writes to standard output of which neither holds a placeholder are shown as they are, also where
-- the two in a row are a placeholder.
pub split_output :
    (secrets : HashMap Text SecretConfig) (front back : Text)
    → NoneFound secrets front
    → NoneFound secrets back
    → joined (
        run_output_collector secrets true true true
          (record { stream = 0; text = front } ∷ record { stream = 0; text = back } ∷ []))
      ≡ front ++ back
unfolding run_output_collector output_data should_scrub
split_output secrets front back no_front no_back = ground (
  arith,
  scrub_placeholders_absent secrets front no_front,
  scrub_placeholders_absent secrets back no_back,
  append-nil back,
)
