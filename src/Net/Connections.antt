-- ===== src/Net/Connections.antt =====
-- `ConnectionManager` of crates/eryx/src/net.rs: the connections, their handles and the limits. A
-- socket is a number. What the network does is an argument: the outcome of the lookup and the
-- connect, of the handshake, of a read.
pub mod Invariant
pub mod Timeouts
use eryx.Prelude.{
  ℕ, zero, ◌+◌, ◌%◌, ◌^◌, min, Bool, true, false, ◌&&◌, Option, none, some, List, [], ◌∷◌, Result,
  ok, err, ◌>>=◌, ltb, leb, nat_eq, PartialEq, nat_keys, length, if◌then◌else◌,
}
use eryx.Prelude.HashMap
use eryx.Prelude.HashMap.{HashMap}
use eryx.Prelude.Text.{Text, codes}
use eryx.Net.Config.{NetConfig, TcpError, TlsError, SecretConfig, HttpParsingState}
use eryx.Net.Pattern.{check_host_allowed}

pub record ConnectionManager : Type 0 where
  pub config : NetConfig
  pub tcp_connections : HashMap ℕ ℕ
  pub tls_connections : HashMap ℕ ℕ
  pub next_handle : ℕ
  pub http_states : HashMap ℕ HttpParsingState
  pub connection_hosts : HashMap ℕ Text
  pub secrets : HashMap Text SecretConfig

unfoldable pub new : NetConfig → HashMap Text SecretConfig → ConnectionManager
new config secrets = record {
  config = config;
  tcp_connections = [];
  tls_connections = [];
  next_handle = 1;
  http_states = [];
  connection_hosts = [];
  secrets = secrets;
}

unfoldable pub connection_count : ConnectionManager → ℕ
connection_count m = length m.tcp_connections + length m.tls_connections

unfoldable pub effective_timeout : ℕ → ℕ → ℕ
effective_timeout default_timeout guest_ms =
    if nat_eq guest_ms 0 then default_timeout else min default_timeout guest_ms

-- `next_handle` after `alloc_handle`, which returns the one before.
unfoldable pub wrapping_next : ℕ → ℕ
wrapping_next handle = let next = (handle + 1) % 2 ^ 32 in if nat_eq next 0 then 1 else next

unfoldable pub alloc_handle : ConnectionManager → ConnectionManager × ℕ
unfolding wrapping_next
alloc_handle m = (record m { next_handle = wrapping_next m.next_handle }, m.next_handle)

-- The connection is made: the handle, the socket and the host are entered.
unfoldable pub connected : ConnectionManager → Text → ℕ → ConnectionManager × Result ℕ TcpError
unfolding alloc_handle
connected m host socket =
    let (m', handle) = alloc_handle m in
    (
      record m' {
        tcp_connections = HashMap.insert m'.tcp_connections handle socket;
        connection_hosts = HashMap.insert m'.connection_hosts handle host;
      },
      ok handle,
    )

-- What the lookup of the name and the connect to an address give within a timeout.
pub record Network : Type 0 where
  pub lookup_host : ℕ → Result (List ℕ) TcpError
  pub open_socket : ℕ → ℕ → Result ℕ TcpError

-- The first address is taken.
unfoldable pub first_address : List ℕ → Result ℕ TcpError
first_address [] = err TcpError.host_not_found
first_address (a ∷ as') = ok a

unfoldable pub dial : Network → ℕ → Result ℕ TcpError
unfolding first_address
dial network timeout = do
  addresses ← network.lookup_host timeout
  address ← first_address addresses
  network.open_socket address timeout

unfoldable pub tcp_connect :
    ConnectionManager → Text → Network → ℕ → ConnectionManager × Result ℕ TcpError
unfolding connection_count effective_timeout connected
tcp_connect m host network timeout_ms = elim (check_host_allowed m.config host) [
  | err e ↦ (m, err e)
  | ok _ ↦
      if ltb 0 m.config.max_connections && leb m.config.max_connections (connection_count m)
      then (m, err (TcpError.not_permitted (codes "connection limit reached")))
      else elim (dial network (effective_timeout m.config.connect_timeout timeout_ms)) [
        | err e ↦ (m, err e)
        | ok socket ↦ connected m host socket
      ]
]

unfoldable pub tcp_read :
    ConnectionManager → ℕ → (ℕ → ℕ → Result Text TcpError) → ℕ → Result Text TcpError
unfolding effective_timeout
tcp_read m handle network timeout_ms = elim (HashMap.get m.tcp_connections handle) [
  | none ↦ err TcpError.invalid_handle
  | some socket ↦ network socket (effective_timeout m.config.io_timeout timeout_ms)
]

unfoldable pub tcp_close : ConnectionManager → ℕ → ConnectionManager
tcp_close m handle = record m {
  tcp_connections = HashMap.remove m.tcp_connections handle;
  http_states = HashMap.remove m.http_states handle;
  connection_hosts = HashMap.remove m.connection_hosts handle;
}

-- The host goes over to the new handle.
unfoldable pub carry_host : HashMap ℕ Text → ℕ → ℕ → HashMap ℕ Text
carry_host hosts from to = elim (HashMap.get hosts from) [
  | none ↦ HashMap.remove hosts from
  | some host ↦ HashMap.insert (HashMap.remove hosts from) to host
]

unfoldable pub upgraded : ConnectionManager → ℕ → ℕ → ConnectionManager × Result ℕ TlsError
unfolding alloc_handle carry_host
upgraded m tcp_handle session =
    let (m', handle) = alloc_handle m in
    (
      record m' {
        tls_connections = HashMap.insert m'.tls_connections handle session;
        connection_hosts = carry_host m'.connection_hosts tcp_handle handle;
        http_states = HashMap.remove m'.http_states tcp_handle;
      },
      ok handle,
    )

-- `handshake` takes the socket and the timeout; an invalid name fails in it too.
unfoldable pub tls_upgrade :
    ConnectionManager → ℕ → (ℕ → ℕ → Result ℕ TlsError) → ℕ → ConnectionManager × Result ℕ TlsError
unfolding effective_timeout upgraded
tls_upgrade m tcp_handle handshake timeout_ms = elim (HashMap.get m.tcp_connections tcp_handle) [
  | none ↦ (m, err TlsError.invalid_handle)
  | some socket ↦
      let taken = record m { tcp_connections = HashMap.remove m.tcp_connections tcp_handle } in
      elim (handshake socket (effective_timeout m.config.connect_timeout timeout_ms)) [
        | err e ↦ (taken, err e)
        | ok session ↦ upgraded taken tcp_handle session
      ]
]

unfoldable pub tls_read :
    ConnectionManager → ℕ → (ℕ → ℕ → Result Text TlsError) → ℕ → Result Text TlsError
unfolding effective_timeout
tls_read m handle network timeout_ms = elim (HashMap.get m.tls_connections handle) [
  | none ↦ err TlsError.invalid_handle
  | some socket ↦ network socket (effective_timeout m.config.io_timeout timeout_ms)
]

unfoldable pub tls_close : ConnectionManager → ℕ → ConnectionManager
tls_close m handle = record m {
  tls_connections = HashMap.remove m.tls_connections handle;
  http_states = HashMap.remove m.http_states handle;
  connection_hosts = HashMap.remove m.connection_hosts handle;
}
