-- ===== src/Handler/Output.antt =====
-- `run_output_collector`, `run_trace_collector` and the scrub of trace events of
-- crates/eryx/src/callback_handler.rs, with the events of crates/eryx/src/trace.rs and `parse_trace_event`
-- of crates/eryx/src/wasm.rs. A handler is given by what it is called with, in order.
pub mod Shown
use eryx.Prelude.{
  ℕ, zero, suc, Bool, true, false, ◌&&◌, not, Option, none, some, List, [], ◌∷◌, ◌++◌, Result, ok,
  err, if◌then◌else◌, text_eq,
}
use eryx.Prelude.HashMap.{HashMap}
use eryx.Prelude.Text.{Text, codes}
use eryx.Net.Config.{SecretConfig}
use eryx.Secrets.{scrub_placeholders}

pub record OutputRequest : Type 0 where
  pub stream : ℕ
  pub text : Text

-- The calls of an `OutputHandler`.
pub data OutputCall : Type 0 where
  on_output on_stderr : Text → OutputCall

abbrev no_secrets : HashMap Text SecretConfig → Bool
no_secrets [] = true
no_secrets (secret ∷ secrets) = false

unfoldable pub should_scrub : Bool → Bool → ℕ → Bool
should_scrub scrub_stdout scrub_stderr zero = scrub_stdout
should_scrub scrub_stdout scrub_stderr (suc zero) = scrub_stderr
should_scrub scrub_stdout scrub_stderr (suc (suc stream)) = false

abbrev pub dispatch : ℕ → Text → List OutputCall
dispatch zero text = on_output text ∷ []
dispatch (suc zero) text = on_stderr text ∷ []
dispatch (suc (suc stream)) text = []

module _ (secrets : HashMap Text SecretConfig) (scrub_stdout scrub_stderr : Bool) where
  unfoldable pub output_data : OutputRequest → Text
  output_data request =
      if should_scrub scrub_stdout scrub_stderr request.stream && not (no_secrets secrets)
      then scrub_placeholders request.text secrets
      else request.text

  -- What the handler is called with, if there is one, until the channel is closed.
  unfoldable pub run_output_collector : Bool → List OutputRequest → List OutputCall
  run_output_collector handler [] = []
  run_output_collector handler (request ∷ requests) =
      let rest = run_output_collector handler requests in
      if handler then dispatch request.stream (output_data request) ++ rest else rest

pub data TraceEventKind : Type 0 where
  line : TraceEventKind
  call return exception callback_start : Text → TraceEventKind
  callback_end : Text → ℕ → TraceEventKind

pub record TraceEvent {ℓ} (V : Type ℓ) : Type ℓ where
  pub lineno : ℕ
  pub event : TraceEventKind
  pub context : Option V

pub record TraceRequest : Type 0 where
  pub lineno : ℕ
  pub event_json : Text
  pub context_json : Text

abbrev pub text_or : Text → Option Text → Text
text_or default none = default
text_or default (some text) = text

unfoldable pub scrub_kind : HashMap Text SecretConfig → TraceEventKind → TraceEventKind
scrub_kind secrets line = line
scrub_kind secrets (call function) = call (scrub_placeholders function secrets)
scrub_kind secrets (return function) = return (scrub_placeholders function secrets)
scrub_kind secrets (exception message) = exception (scrub_placeholders message secrets)
scrub_kind secrets (callback_start name) = callback_start (scrub_placeholders name secrets)
scrub_kind secrets (callback_end name duration_ms) =
    callback_end (scrub_placeholders name secrets) duration_ms

-- `serde_json`: the text of a value, the parser, a value that is a string, and the string in a field.
module _ {ℓ} {V : Type ℓ} (value_text : V → Text) (from_str : Text → Result V Text)
    (string_value : Text → V) (field : V → Text → Option Text) where
  unfoldable pub scrub_context : HashMap Text SecretConfig → V → V
  scrub_context secrets ctx =
      let ctx_str = value_text ctx in
      let scrubbed = scrub_placeholders ctx_str secrets in
      if text_eq scrubbed ctx_str
      then ctx
      else elim (from_str scrubbed) [ ok value ↦ value | err e ↦ string_value scrubbed ]

  unfoldable pub scrub_trace_event : HashMap Text SecretConfig → TraceEvent V → TraceEvent V
  scrub_trace_event secrets event = if no_secrets secrets then event else record event {
    event = scrub_kind secrets event.event;
    context = elim event.context [ none ↦ none | some ctx ↦ some (scrub_context secrets ctx) ];
  }

  -- The kind that the type of an event names.
  unfoldable pub kind_of : V → Text → TraceEventKind
  kind_of event_data event_type =
      if text_eq event_type (codes "line")
      then line
      else if text_eq event_type (codes "call")
      then call (text_or (codes "<unknown>") (field event_data (codes "function")))
      else if text_eq event_type (codes "return")
      then return (text_or (codes "<unknown>") (field event_data (codes "function")))
      else if text_eq event_type (codes "exception")
      then exception (text_or [] (field event_data (codes "message")))
      else if text_eq event_type (codes "callback_start")
      then callback_start (text_or (codes "<unknown>") (field event_data (codes "name")))
      else if text_eq event_type (codes "callback_end")
      then callback_end (text_or (codes "<unknown>") (field event_data (codes "name"))) 0
      else line

  abbrev parse_context : Text → Option V
  parse_context [] = none
  parse_context (c ∷ cs) = elim (from_str (c ∷ cs)) [ ok value ↦ some value | err e ↦ none ]

  -- The message of an event that does not parse.
  unfoldable pub parse_trace_event : TraceRequest → Result (TraceEvent V) Text
  parse_trace_event request = elim (from_str request.event_json) [
    | err e ↦ err e
    | ok event_data ↦ ok (record {
      lineno = request.lineno;
      event = kind_of event_data (text_or (codes "unknown") (field event_data (codes "type")));
      context = parse_context request.context_json;
    })
  ]

  -- The events that are stored, which a handler is called with too.
  unfoldable pub run_trace_collector :
      HashMap Text SecretConfig → List TraceRequest → List (TraceEvent V)
  run_trace_collector secrets [] = []
  run_trace_collector secrets (request ∷ requests) =
      let rest = run_trace_collector secrets requests in
      elim (parse_trace_event request) [
        | err e ↦ rest
        | ok event ↦ scrub_trace_event secrets event ∷ rest
      ]
