-- ===== src/Handler/Network/Managed.antt =====
-- What holds of the connection manager, and of the replies, under the requests that run_net_handler of
-- crates/eryx/src/callback_handler.rs serves.
use eryx.Prelude.{ℕ, List, [], ◌∷◌}
use eryx.Prelude.HashMap.{HashMap}
use eryx.Prelude.Text.{Text}
use eryx.Net.Connections.{ConnectionManager}
use eryx.Handler.Network.{
  NetRequest, NetReply, request_tcp_connect, request_tcp_read, request_tcp_write, request_tcp_close,
  request_tls_upgrade, request_tls_read, request_tls_write, request_tls_close,
}

-- The channels on which replies are due, in order.
abbrev pub due : List NetRequest → List ℕ
due [] = []
due (request_tcp_connect host network timeout_ms tx ∷ rs) = tx ∷ due rs
due (request_tcp_read handle network timeout_ms tx ∷ rs) = tx ∷ due rs
due (request_tcp_write handle bytes network timeout_ms tx ∷ rs) = tx ∷ due rs
due (request_tcp_close handle ∷ rs) = due rs
due (request_tls_upgrade handle handshake timeout_ms tx ∷ rs) = tx ∷ due rs
due (request_tls_read handle network timeout_ms tx ∷ rs) = tx ∷ due rs
due (request_tls_write handle bytes network timeout_ms tx ∷ rs) = tx ∷ due rs
due (request_tls_close handle ∷ rs) = due rs

abbrev pub channels : List (ℕ × NetReply) → List ℕ
channels [] = []
channels ((tx, reply) ∷ replies) = tx ∷ channels replies

-- The manager without the parser's states.
abbrev without_states : ConnectionManager → ConnectionManager
without_states m = record m { http_states = [] }
