-- ===== src/Handler/Examples.antt =====
-- Runs of the callback handler and the collectors of crates/eryx/src/callback_handler.rs at concrete inputs.
use eryx.Prelude.{
  ℕ, ◌≡◌, refl, true, false, length, Option, none, some, ◌+◌, List, [], ◌∷◌, ◌++◌, Result, ok, err,
  arith,
}
use eryx.Prelude.HashMap.{HashMap, get}
use eryx.Prelude.Text.{Text, codes, starts_with}
use eryx.Net.Config.{SecretConfig, NetConfig, default_config}
use eryx.Net.Connections.{Network}
use eryx.Net.Connections as Connections
use eryx.Handler.Network.{
  NetRequest, request_tcp_connect, request_tcp_write, request_tls_upgrade, request_tls_close,
}
use eryx.Net.Strings.{replace, replace_from}
use eryx.Replay.Journal.{CallbackError, to_string}
use eryx.Sandbox.{ResourceLimits, default_limits}
use eryx.Secrets.{generate_placeholder, scrub_placeholders}
use eryx.Secrets.Redaction.{ArePlain, generate_placeholder-IsPlain}
use eryx.Handler.{
  CallbackHostResult, CallbackRequest, InFlight, HandlerState, new, receive, finish, over_limit,
  prepare, create_callback_future, with_timeout, host_result,
}
use eryx.Handler.Runs.{Runs, starts, receives}
use eryx.Handler.Answers.{requested}
use eryx.Handler.Drain.{drain, reply, drain-IsAnswered}
use eryx.Handler.Answers.{answered, count}
use eryx.Handler.Limit.{admitted, futures, made-admitted}
use eryx.Handler.Output.{OutputRequest, run_output_collector}
use eryx.Handler.Output.Shown.{outputs, errors, run_output_collector-shows}

-- Values are their text here.
abbrev value_text : Text → Text
value_text value = value

abbrev from_str : Text → Result Text Text
from_str [] = err (codes "EOF")
from_str (c ∷ cs) = ok (c ∷ cs)

abbrev callbacks : HashMap Text ℕ
callbacks = (codes "echo", 7) ∷ []

abbrev one_call : ResourceLimits
one_call = record default_limits { max_callback_invocations = some 1; callback_timeout = some 100 }

abbrev placeholder : Text
placeholder = generate_placeholder (codes "0af3")

abbrev secrets : HashMap Text SecretConfig
secrets =
    (codes "key", record { real_value = codes "sk"; placeholder = placeholder; allowed_hosts = [] })
    ∷ []

secrets-ArePlain : ArePlain secrets
secrets-ArePlain =
    (generate_placeholder-IsPlain (codes "0af3") (refl, (refl, (refl, (refl, tt)))), tt)

abbrev echo : CallbackRequest
echo = record { name = codes "echo"; arguments_json = codes "1"; response_tx = 3 }

abbrev again : CallbackRequest
again = record { name = codes "echo"; arguments_json = codes "2"; response_tx = 4 }

abbrev echo_future : InFlight Text
echo_future = record { callback = 7; args = codes "1"; response_tx = 3 }

abbrev requests : List CallbackRequest
requests = echo ∷ again ∷ []

abbrev taken : HandlerState Text
taken = receive from_str callbacks one_call (receive from_str callbacks one_call new echo) again

taken-Runs : Runs value_text from_str callbacks one_call secrets requests taken
taken-Runs =
    receives (echo ∷ []) (receive from_str callbacks one_call new echo) again
      (receives [] new echo starts)

late :
    (finish from_str callbacks one_call value_text secrets taken 0 echo_future 101
      (ok (codes "1"))).sent
    ≡ (4, CallbackHostResult.err_result (codes "Callback limit exceeded (1 invocations)"))
      ∷ (3, CallbackHostResult.err_result (codes "timeout"))
      ∷ []
unfolding finish receive create_callback_future over_limit prepare get new with_timeout host_result
    to_string scrub_placeholders replace replace_from starts_with generate_placeholder
late = refl

abbrev ends : InFlight Text → ℕ × Result Text CallbackError
ends f = (5, ok (codes "1"))

abbrev two_calls : ResourceLimits
two_calls = record default_limits { max_callback_invocations = some 2 }

-- Two futures are in flight.
abbrev waiting_two : HandlerState Text
waiting_two =
    receive from_str callbacks two_calls (receive from_str callbacks two_calls new echo) again

waiting_two-Runs : Runs value_text from_str callbacks two_calls secrets requests waiting_two
waiting_two-Runs =
    receives (echo ∷ []) (receive from_str callbacks two_calls new echo) again
      (receives [] new echo starts)

-- The last that came ends first.
abbrev last_first : HandlerState Text → ℕ
last_first s = length s.in_flight

drain-IsAnswered_example :
    let t = drain value_text from_str callbacks two_calls secrets ends last_first 2 waiting_two in
    Runs value_text from_str callbacks two_calls secrets requests t
    × (t.in_flight ≡ [])
    × ((g : ℕ × CallbackHostResult → ℕ) (k : ℕ)
        → count g k t.sent
          ≡ count g k waiting_two.sent
            + count
                (λ f. g (reply value_text from_str callbacks two_calls secrets ends f))
                k
                waiting_two.in_flight)
    × ((channel : ℕ) → answered channel t ≡ requested channel requests)
unfolding receive create_callback_future prepare get over_limit new
drain-IsAnswered_example =
    drain-IsAnswered value_text from_str callbacks two_calls secrets ends last_first requests
      waiting_two waiting_two-Runs

made-admitted_example :
    taken.made ≡ futures value_text from_str callbacks one_call secrets (admitted (some 1) requests)
made-admitted_example =
    made-admitted value_text from_str callbacks one_call secrets requests taken (omega arith)
      taken-Runs

abbrev writes : List OutputRequest
writes =
    record { stream = 0; text = codes "a" ++ placeholder }
    ∷ record { stream = 1; text = placeholder }
    ∷ []

run_output_collector-shows_example :
    (outputs (run_output_collector secrets true false true writes)
      ≡ scrub_placeholders (codes "a" ++ placeholder) secrets ∷ [])
    × (errors (run_output_collector secrets true false true writes) ≡ placeholder ∷ [])
run_output_collector-shows_example = run_output_collector-shows secrets true false writes

abbrev web : NetConfig
web = record default_config { allowed_hosts = codes "*.example.com" ∷ [] }

abbrev web_server : Network
web_server = record { lookup_host = λ t. ok (7 ∷ []); open_socket = λ address t. ok 5 }

abbrev net_requests : List NetRequest
net_requests =
    request_tcp_connect (codes "api.example.com") web_server 100 3
    ∷ request_tcp_write 1 (codes "GET /") (λ socket bytes t. ok 5) 100 4
    ∷ request_tls_upgrade 1 (λ socket t. ok (socket + 1)) 0 5
    ∷ request_tls_close 2
    ∷ []

abbrev no_length : Text → Option ℕ
no_length t = none
