-- ===== src/Net/Config.antt =====
-- `NetConfig` of crates/eryx/src/net.rs and its builders, and the errors of connections. Durations
-- are in milliseconds.
use eryx.Prelude.{ℕ, Bool, true, false, ◌&&◌, not, List, [], ◌∷◌, ◌++◌, filter, Option, none}
use eryx.Prelude.Text.{Text, codes, starts_with, contains_text}

pub record NetConfig : Type 0 where
  pub max_connections : ℕ
  pub connect_timeout : ℕ
  pub io_timeout : ℕ
  pub allow_all_hosts : Bool
  pub allowed_hosts : List Text
  pub blocked_hosts : List Text
  pub custom_root_certs : List Text

abbrev pub default_blocked_hosts : List Text
default_blocked_hosts =
    codes "localhost"
    ∷ codes "*.localhost"
    ∷ codes "127.*"
    ∷ codes "10.*"
    ∷ codes "172.16.*"
    ∷ codes "172.17.*"
    ∷ codes "172.18.*"
    ∷ codes "172.19.*"
    ∷ codes "172.20.*"
    ∷ codes "172.21.*"
    ∷ codes "172.22.*"
    ∷ codes "172.23.*"
    ∷ codes "172.24.*"
    ∷ codes "172.25.*"
    ∷ codes "172.26.*"
    ∷ codes "172.27.*"
    ∷ codes "172.28.*"
    ∷ codes "172.29.*"
    ∷ codes "172.30.*"
    ∷ codes "172.31.*"
    ∷ codes "192.168.*"
    ∷ codes "169.254.*"
    ∷ codes "[::1]"
    ∷ []

abbrev pub default_config : NetConfig
default_config = record {
  max_connections = 10;
  connect_timeout = 30_000;
  io_timeout = 60_000;
  allow_all_hosts = false;
  allowed_hosts = [];
  blocked_hosts = default_blocked_hosts;
  custom_root_certs = [];
}

abbrev pub permissive : NetConfig
permissive = record {
  max_connections = 100;
  connect_timeout = 30_000;
  io_timeout = 60_000;
  allow_all_hosts = true;
  allowed_hosts = [];
  blocked_hosts = [];
  custom_root_certs = [];
}

unfoldable pub with_max_connections : NetConfig → ℕ → NetConfig
with_max_connections c max = record c { max_connections = max }

unfoldable pub with_connect_timeout : NetConfig → ℕ → NetConfig
with_connect_timeout c timeout = record c { connect_timeout = timeout }

unfoldable pub with_io_timeout : NetConfig → ℕ → NetConfig
with_io_timeout c timeout = record c { io_timeout = timeout }

unfoldable pub allow_host : NetConfig → Text → NetConfig
allow_host c pattern = record c { allowed_hosts = c.allowed_hosts ++ pattern ∷ [] }

unfoldable pub block_host : NetConfig → Text → NetConfig
block_host c pattern = record c { blocked_hosts = c.blocked_hosts ++ pattern ∷ [] }

-- The patterns that `allow_localhost` keeps.
abbrev pub is_not_local : Text → Bool
is_not_local p =
    not (contains_text p (codes "localhost"))
    && (not (starts_with p (codes "127.")) && not (contains_text p (codes "::1")))

unfoldable pub allow_localhost : NetConfig → NetConfig
allow_localhost c = record c { blocked_hosts = filter is_not_local c.blocked_hosts }

unfoldable pub with_root_cert : NetConfig → Text → NetConfig
with_root_cert c cert_der = record c { custom_root_certs = c.custom_root_certs ++ cert_der ∷ [] }

pub data TcpError : Type 0 where
  connection_refused : TcpError
  connection_reset : TcpError
  timed_out : TcpError
  host_not_found : TcpError
  io_error : Text → TcpError
  not_permitted : Text → TcpError
  invalid_handle : TcpError

pub data TlsError : Type 0 where
  tcp : TcpError → TlsError
  handshake_failed : Text → TlsError
  certificate_error : Text → TlsError
  invalid_handle : TlsError

-- `SecretConfig` of crates/eryx/src/secrets.rs
pub record SecretConfig : Type 0 where
  pub real_value : Text
  pub placeholder : Text
  pub allowed_hosts : List Text

pub record HttpParsingState : Type 0 where
  pub buffer : Text
  pub headers_complete : Bool
  pub body_bytes_sent : ℕ
  pub content_length : Option ℕ

abbrev pub default_http_state : HttpParsingState
default_http_state = record {
  buffer = [];
  headers_complete = false;
  body_bytes_sent = 0;
  content_length = none;
}
