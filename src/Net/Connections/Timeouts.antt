-- ===== src/Net/Connections/Timeouts.antt =====
-- The ceiling on the timeouts of crates/eryx/src/net.rs.
use eryx.Prelude.{ℕ, ◌≤◌, ◌≡◌, inl, inr, nat_keys, Result, Option-cases, arith}
use eryx.Prelude.HashMap
use eryx.Prelude.Text.{Text}
use eryx.Net.Config.{TcpError, TlsError}
use eryx.Net.Connections.{
  ConnectionManager, Network, dial, effective_timeout, tcp_connect, tcp_read, tls_upgrade, tls_read,
}

effective_timeout-le :
    (default_timeout guest_ms : ℕ) → effective_timeout default_timeout guest_ms ≤ default_timeout
unfolding effective_timeout
effective_timeout-le default_timeout guest_ms = ground arith

-- Two behaviours of the network that cannot be told apart within a time.
abbrev pub SameWithin : {A : Type 0} → ℕ → (ℕ → A) → (ℕ → A) → Type 0
SameWithin ceiling f g = (timeout : ℕ) → timeout ≤ ceiling → f timeout ≡ g timeout

-- What the guest gets depends on the network only within the host's timeouts, whatever timeout the
-- guest asks for.
pub record IsCapped (m : ConnectionManager) (timeout_ms : ℕ) : Type 0 where
  pub connects :
      (host : Text) (f g : Network)
      → SameWithin m.config.connect_timeout (dial f) (dial g)
      → tcp_connect m host f timeout_ms ≡ tcp_connect m host g timeout_ms
  pub upgrades :
      (handle : ℕ) (f g : ℕ → ℕ → Result ℕ TlsError)
      → ((socket : ℕ) → SameWithin m.config.connect_timeout (f socket) (g socket))
      → tls_upgrade m handle f timeout_ms ≡ tls_upgrade m handle g timeout_ms
  pub reads_tcp :
      (handle : ℕ) (f g : ℕ → ℕ → Result Text TcpError)
      → ((socket : ℕ) → SameWithin m.config.io_timeout (f socket) (g socket))
      → tcp_read m handle f timeout_ms ≡ tcp_read m handle g timeout_ms
  pub reads_tls :
      (handle : ℕ) (f g : ℕ → ℕ → Result Text TlsError)
      → ((socket : ℕ) → SameWithin m.config.io_timeout (f socket) (g socket))
      → tls_read m handle f timeout_ms ≡ tls_read m handle g timeout_ms

module _ (m : ConnectionManager) (timeout_ms : ℕ) where
  connects_lem :
      (host : Text) (f g : Network)
      → SameWithin m.config.connect_timeout (dial f) (dial g)
      → tcp_connect m host f timeout_ms ≡ tcp_connect m host g timeout_ms
  unfolding tcp_connect
  connects_lem host f g same =
      let t = effective_timeout m.config.connect_timeout timeout_ms in
      ground (arith, same t (effective_timeout-le m.config.connect_timeout timeout_ms))

  upgrades_lem :
      (handle : ℕ) (f g : ℕ → ℕ → Result ℕ TlsError)
      → ((socket : ℕ) → SameWithin m.config.connect_timeout (f socket) (g socket))
      → tls_upgrade m handle f timeout_ms ≡ tls_upgrade m handle g timeout_ms
  unfolding tls_upgrade
  upgrades_lem handle f g same = elim (Option-cases (HashMap.get m.tcp_connections handle)) [
    | inl e ↦ ground arith
    | inr (socket, e) ↦ ground (
      arith,
      same socket (effective_timeout m.config.connect_timeout timeout_ms)
          (effective_timeout-le m.config.connect_timeout timeout_ms),
    )
  ]

  reads_tcp_lem :
      (handle : ℕ) (f g : ℕ → ℕ → Result Text TcpError)
      → ((socket : ℕ) → SameWithin m.config.io_timeout (f socket) (g socket))
      → tcp_read m handle f timeout_ms ≡ tcp_read m handle g timeout_ms
  unfolding tcp_read
  reads_tcp_lem handle f g same = elim (Option-cases (HashMap.get m.tcp_connections handle)) [
    | inl e ↦ ground arith
    | inr (socket, e) ↦ ground (
      arith,
      same socket (effective_timeout m.config.io_timeout timeout_ms)
          (effective_timeout-le m.config.io_timeout timeout_ms),
    )
  ]

  reads_tls_lem :
      (handle : ℕ) (f g : ℕ → ℕ → Result Text TlsError)
      → ((socket : ℕ) → SameWithin m.config.io_timeout (f socket) (g socket))
      → tls_read m handle f timeout_ms ≡ tls_read m handle g timeout_ms
  unfolding tls_read
  reads_tls_lem handle f g same = elim (Option-cases (HashMap.get m.tls_connections handle)) [
    | inl e ↦ ground arith
    | inr (socket, e) ↦ ground (
      arith,
      same socket (effective_timeout m.config.io_timeout timeout_ms)
          (effective_timeout-le m.config.io_timeout timeout_ms),
    )
  ]

  -- Whatever timeout a guest asks for, the result of a connect or an upgrade depends on the network
  -- only as it behaves within the configured connect timeout, and that of a read only within the
  -- configured I/O timeout. Writes are not covered.
  pub timeouts-IsCapped : IsCapped m timeout_ms
  timeouts-IsCapped = record {
    connects = connects_lem;
    upgrades = upgrades_lem;
    reads_tcp = reads_tcp_lem;
    reads_tls = reads_tls_lem;
  }
