-- ===== src/Net/Connections/Invariant.antt =====
-- What holds of a connection manager of crates/eryx/src/net.rs under every sequence of calls.
use eryx.Prelude.{
  ℕ, suc, ◌^◌, ◌<◌, ◌≤◌, ◌≡◌, refl, inl, inr, ◌&&◌, some, List, [], ◌∷◌, Result, ok, nat_keys, ltb,
  leb, length, if_rule, Option-cases, Result-cases, arith,
}
use eryx.Prelude.HashMap
use eryx.Prelude.HashMap.{HashMap, get-insert, get-remove}
use eryx.Prelude.Text.{Text}
use eryx.Net.Config.{NetConfig, TcpError, TlsError, SecretConfig}
use eryx.Net.Pattern.{check_host_allowed}
use eryx.Net.Connections.{
  ConnectionManager, Network, dial, new, connection_count, effective_timeout, wrapping_next,
  connected, tcp_connect, tcp_close, carry_host, upgraded, tls_upgrade, tls_close,
}

pub record IsManaged (config : NetConfig) (m : ConnectionManager) : Type 0 where
  pub same_config : m.config ≡ config
  pub bounded : 0 < config.max_connections → connection_count m ≤ config.max_connections
  pub handle_above : 0 < m.next_handle
  pub handle_below : m.next_handle < 2 ^ 32
  pub permitted :
      (handle : ℕ) (host : Text)
      → HashMap.get m.connection_hosts handle ≡ some host
      → check_host_allowed config host ≡ ok tt

module _ {V : Type 0} where
  length-remove-le : (m : HashMap ℕ V) (k : ℕ) → length (HashMap.remove m k) ≤ length m
  unfolding HashMap.remove
  length-remove-le [] k = omega arith
  length-remove-le ((j, v) ∷ m) k = ground (arith, length-remove-le m k)

  length-remove-lt :
      (m : HashMap ℕ V) (k : ℕ) (v : V)
      → HashMap.get m k ≡ some v
      → length (HashMap.remove m k) < length m
  unfolding HashMap.remove HashMap.get
  length-remove-lt [] k v h = ground arith
  length-remove-lt ((j, w) ∷ m) k v h = ground (arith, length-remove-le m k, length-remove-lt m k v)

  length-insert-le :
      (m : HashMap ℕ V) (k : ℕ) (v : V) → length (HashMap.insert m k v) ≤ suc (length m)
  unfolding HashMap.insert
  length-insert-le m k v = omega (arith, length-remove-le m k)

wrapping_next_above : (h : ℕ) → 0 < wrapping_next h
unfolding wrapping_next
wrapping_next_above h = ground arith

wrapping_next_below : (h : ℕ) → wrapping_next h < 2 ^ 32
unfolding wrapping_next
wrapping_next_below h = ground arith

module _ (config : NetConfig) (m : ConnectionManager) (i : IsManaged config m) where
  connected-IsManaged :
      (host : Text) (socket : ℕ)
      → check_host_allowed config host ≡ ok tt
      → (0 < config.max_connections → connection_count m < config.max_connections)
      → IsManaged config (connected m host socket).0
  unfolding connected connection_count
  connected-IsManaged host socket allowed room = record {
    same_config = i.same_config;
    bounded = λ h. omega (arith, length-insert-le m.tcp_connections m.next_handle socket, room h);
    handle_above = wrapping_next_above m.next_handle;
    handle_below = wrapping_next_below m.next_handle;
    permitted = λ handle other h. ground (
      arith,
      get-insert m.connection_hosts m.next_handle handle host,
      i.permitted handle other,
      allowed,
    );
  }

  pub tcp_connect-IsManaged :
      (host : Text) (network : Network) (timeout_ms : ℕ)
      → IsManaged config (tcp_connect m host network timeout_ms).0
  unfolding tcp_connect
  tcp_connect-IsManaged host network timeout_ms =
      elim (Result-cases (check_host_allowed m.config host)) [
        | inl (done, e) ↦
            rw (e, tcp_connect)
              (if_rule (λ (r : ConnectionManager × Result ℕ TcpError). IsManaged config r.0)
                (ltb 0 m.config.max_connections
                  && leb m.config.max_connections (connection_count m))
                _ _ (λ _. i)
                (λ room.
                  elim (Result-cases
                    (dial network (effective_timeout m.config.connect_timeout timeout_ms))) [
                      | inl (socket, f) ↦ rw f (
                          connected-IsManaged host socket (ground (arith, i.same_config))
                            (λ h. ground (arith, i.same_config)))
                      | inr (x, f) ↦ rw f i
                    ]))
        | inr (x, e) ↦ rw (e, tcp_connect) i
      ]

  pub tcp_close-IsManaged : (handle : ℕ) → IsManaged config (tcp_close m handle)
  unfolding tcp_close connection_count
  tcp_close-IsManaged handle = record {
    same_config = i.same_config;
    bounded = λ h. omega (arith, i.bounded h, length-remove-le m.tcp_connections handle);
    handle_above = i.handle_above;
    handle_below = i.handle_below;
    permitted =
        λ k host h. ground (arith, get-remove m.connection_hosts handle k, i.permitted k host);
  }

  pub tls_close-IsManaged : (handle : ℕ) → IsManaged config (tls_close m handle)
  unfolding tls_close connection_count
  tls_close-IsManaged handle = record {
    same_config = i.same_config;
    bounded = λ h. omega (arith, i.bounded h, length-remove-le m.tls_connections handle);
    handle_above = i.handle_above;
    handle_below = i.handle_below;
    permitted =
        λ k host h. ground (arith, get-remove m.connection_hosts handle k, i.permitted k host);
  }

  carry_host-permitted :
      (from to k : ℕ) (host : Text)
      → HashMap.get (carry_host m.connection_hosts from to) k ≡ some host
      → check_host_allowed config host ≡ ok tt
  unfolding carry_host
  carry_host-permitted from to k host h =
      elim (Option-cases (HashMap.get m.connection_hosts from)) [
        | inl e ↦ ground (arith, get-remove m.connection_hosts from k, i.permitted k host)
        | inr (other, e) ↦ ground (
          arith,
          get-insert (HashMap.remove m.connection_hosts from) to k other,
          get-remove m.connection_hosts from k,
          i.permitted k host,
          i.permitted from other,
        )
      ]

  abbrev taken : ℕ → ConnectionManager
  taken handle = record m { tcp_connections = HashMap.remove m.tcp_connections handle }

  taken-IsManaged : (handle : ℕ) → IsManaged config (taken handle)
  unfolding connection_count
  taken-IsManaged handle = record {
    same_config = i.same_config;
    bounded = λ h. omega (arith, i.bounded h, length-remove-le m.tcp_connections handle);
    handle_above = i.handle_above;
    handle_below = i.handle_below;
    permitted = i.permitted;
  }

  upgraded-IsManaged :
      (handle socket session : ℕ)
      → HashMap.get m.tcp_connections handle ≡ some socket
      → IsManaged config (upgraded (taken handle) handle session).0
  unfolding upgraded connection_count
  upgraded-IsManaged handle socket session e = record {
    same_config = i.same_config;
    bounded = λ h. omega (
      arith,
      i.bounded h,
      length-remove-lt m.tcp_connections handle socket e,
      length-insert-le m.tls_connections m.next_handle session,
    );
    handle_above = wrapping_next_above m.next_handle;
    handle_below = wrapping_next_below m.next_handle;
    permitted = carry_host-permitted handle m.next_handle;
  }

  pub tls_upgrade-IsManaged :
      (handle : ℕ) (handshake : ℕ → ℕ → Result ℕ TlsError) (timeout_ms : ℕ)
      → IsManaged config (tls_upgrade m handle handshake timeout_ms).0
  unfolding tls_upgrade
  tls_upgrade-IsManaged handle handshake timeout_ms =
      elim (Option-cases (HashMap.get m.tcp_connections handle)) [
        | inl e ↦ rw (e, tls_upgrade) i
        | inr (socket, e) ↦
            elim (Result-cases
              (handshake socket (effective_timeout m.config.connect_timeout timeout_ms))) [
                | inl (session, f) ↦
                    rw (e, tls_upgrade) (rw f (upgraded-IsManaged handle socket session e))
                | inr (x, f) ↦ rw (e, tls_upgrade) (rw f (taken-IsManaged handle))
              ]
      ]

-- The calls that a sandbox makes, each with what the network does in it.
pub data Call : Type 0 where
  connect : Text → Network → ℕ → Call
  upgrade : ℕ → (ℕ → ℕ → Result ℕ TlsError) → ℕ → Call
  close_tcp : ℕ → Call
  close_tls : ℕ → Call

unfoldable pub run : List Call → ConnectionManager → ConnectionManager
run [] m = m
run (connect host network timeout_ms ∷ calls) m =
    run calls (tcp_connect m host network timeout_ms).0
run (upgrade handle handshake timeout_ms ∷ calls) m =
    run calls (tls_upgrade m handle handshake timeout_ms).0
run (close_tcp handle ∷ calls) m = run calls (tcp_close m handle)
run (close_tls handle ∷ calls) m = run calls (tls_close m handle)

run-IsManaged :
    (config : NetConfig) (calls : List Call) (m : ConnectionManager)
    → IsManaged config m
    → IsManaged config (run calls m)
unfolding run
run-IsManaged config [] m i = i
run-IsManaged config (connect host network timeout_ms ∷ calls) m i =
    run-IsManaged config calls (tcp_connect m host network timeout_ms).0
      (tcp_connect-IsManaged config m i host network timeout_ms)
run-IsManaged config (upgrade handle handshake timeout_ms ∷ calls) m i =
    run-IsManaged config calls (tls_upgrade m handle handshake timeout_ms).0
      (tls_upgrade-IsManaged config m i handle handshake timeout_ms)
run-IsManaged config (close_tcp handle ∷ calls) m i =
    run-IsManaged config calls (tcp_close m handle) (tcp_close-IsManaged config m i handle)
run-IsManaged config (close_tls handle ∷ calls) m i =
    run-IsManaged config calls (tls_close m handle) (tls_close-IsManaged config m i handle)

pub new-IsManaged :
    (config : NetConfig) (secrets : HashMap Text SecretConfig)
    → IsManaged config (new config secrets)
unfolding new connection_count HashMap.get
new-IsManaged config secrets = record {
  same_config = refl;
  bounded = λ h. omega arith;
  handle_above = omega arith;
  handle_below = omega arith;
  permitted = λ handle host h. absurd (ground arith);
}

-- After every sequence of connects, upgrades and closes, whatever the network does: the
-- configuration is the one at the start; there are at most `max_connections` TCP and TLS connections
-- together, where that is not 0; the next handle is a 32-bit number other than 0; and each host that
-- is kept for a handle, by which secrets are released, passes the policy.
pub manager-IsManaged :
    (config : NetConfig) (secrets : HashMap Text SecretConfig) (calls : List Call)
    → IsManaged config (run calls (new config secrets))
manager-IsManaged config secrets calls =
    run-IsManaged config calls (new config secrets) (new-IsManaged config secrets)
