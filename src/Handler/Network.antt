-- ===== src/Handler/Network.antt =====
-- `run_net_handler` of crates/eryx/src/callback_handler.rs over the requests of crates/eryx/src/wasm.rs. A
-- request comes with what the network does in it; a response channel is a number.
pub mod Managed
use eryx.Prelude.{ℕ, Option, List, [], ◌∷◌, ◌++◌, Result}
use eryx.Prelude.Text.{Text}
use eryx.Net.Config.{TcpError, TlsError}
use eryx.Net.Connections.{
  ConnectionManager, Network, tcp_connect, tcp_read, tcp_close, tls_upgrade, tls_read, tls_close,
}
use eryx.Net.Http.{tcp_write, tls_write}

-- The port of a connect and the length of a read are in what the network does.
pub data NetRequest : Type 0 where
  request_tcp_connect : Text → Network → ℕ → ℕ → NetRequest
  request_tcp_read : ℕ → (ℕ → ℕ → Result Text TcpError) → ℕ → ℕ → NetRequest
  request_tcp_write : ℕ → Text → (ℕ → Text → ℕ → Result ℕ TcpError) → ℕ → ℕ → NetRequest
  request_tcp_close : ℕ → NetRequest
  request_tls_upgrade : ℕ → (ℕ → ℕ → Result ℕ TlsError) → ℕ → ℕ → NetRequest
  request_tls_read : ℕ → (ℕ → ℕ → Result Text TlsError) → ℕ → ℕ → NetRequest
  request_tls_write : ℕ → Text → (ℕ → Text → ℕ → Result ℕ TlsError) → ℕ → ℕ → NetRequest
  request_tls_close : ℕ → NetRequest

pub data NetReply : Type 0 where
  tcp_number : Result ℕ TcpError → NetReply
  tcp_bytes : Result Text TcpError → NetReply
  tls_number : Result ℕ TlsError → NetReply
  tls_bytes : Result Text TlsError → NetReply

module _ (from_utf8_lossy : Text → Text) (parse_length : Text → Option ℕ) where
  -- The manager and the reply on its channel, of which a close has none.
  unfoldable pub serve : ConnectionManager → NetRequest → ConnectionManager × List (ℕ × NetReply)
  serve m (request_tcp_connect host network timeout_ms tx) =
      let (m', r) = tcp_connect m host network timeout_ms in (m', (tx, tcp_number r) ∷ [])
  serve m (request_tcp_read handle network timeout_ms tx) =
      (m, (tx, tcp_bytes (tcp_read m handle network timeout_ms)) ∷ [])
  serve m (request_tcp_write handle bytes network timeout_ms tx) =
      let (m', r) = tcp_write from_utf8_lossy parse_length network m handle bytes timeout_ms in
      (m', (tx, tcp_number r) ∷ [])
  serve m (request_tcp_close handle) = (tcp_close m handle, [])
  serve m (request_tls_upgrade handle handshake timeout_ms tx) =
      let (m', r) = tls_upgrade m handle handshake timeout_ms in (m', (tx, tls_number r) ∷ [])
  serve m (request_tls_read handle network timeout_ms tx) =
      (m, (tx, tls_bytes (tls_read m handle network timeout_ms)) ∷ [])
  serve m (request_tls_write handle bytes network timeout_ms tx) =
      let (m', r) = tls_write from_utf8_lossy parse_length network m handle bytes timeout_ms in
      (m', (tx, tls_number r) ∷ [])
  serve m (request_tls_close handle) = (tls_close m handle, [])

  unfoldable pub run_net_handler :
      ConnectionManager → List NetRequest → ConnectionManager × List (ℕ × NetReply)
  run_net_handler m [] = (m, [])
  run_net_handler m (request ∷ requests) =
      let (m', reply) = serve m request in
      let (m'', replies) = run_net_handler m' requests in (m'', reply ++ replies)
