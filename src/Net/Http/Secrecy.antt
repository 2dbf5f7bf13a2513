-- ===== src/Net/Http/Secrecy.antt =====
-- Which secrets a write can carry to a host, in crates/eryx/src/net.rs.
use eryx.Prelude.{
  ℕ, ◌+◌, drop, take, ◌≡◌, refl, inl, inr, true, Option, some, List, [], ◌∷◌, nat_keys,
  Option-cases, Result-cases, Bool-cases, arith,
}
use eryx.Prelude.HashMap
use eryx.Prelude.HashMap.{HashMap}
use eryx.Prelude.Text.{Text, codes, find}
use eryx.Net.Config.{NetConfig, SecretConfig, HttpParsingState}
use eryx.Net.Connections.{ConnectionManager}
use eryx.Net.Strings.{replace, lines, trim_start}
use eryx.Net.Substitution.{
  host_allowed, substitute_all, substitute_secrets_in_text, substitute_line, substitute_lines,
}
use eryx.Net.Requests.{find_header_end}
use eryx.Net.Http.{
  substitute_http_headers, process_headers, process_write_data, process_body, process_entered,
  ensure_state, state_of, extended,
}

-- The same secrets, but for the real values of those that the host may not get.
abbrev pub SameFor :
    NetConfig → Text → HashMap Text SecretConfig → HashMap Text SecretConfig → Type 0
SameFor config host [] [] = Unit {0}
SameFor config host [] (q ∷ b) = ⊥
SameFor config host (p ∷ a) [] = ⊥
SameFor config host ((n, s) ∷ a) ((k, t) ∷ b) =
    (s.placeholder ≡ t.placeholder)
    × (s.allowed_hosts ≡ t.allowed_hosts)
    × (host_allowed config s host ≡ true → s.real_value ≡ t.real_value)
    × SameFor config host a b

host_allowed-same :
    (config : NetConfig) (host : Text) (s t : SecretConfig)
    → s.allowed_hosts ≡ t.allowed_hosts
    → host_allowed config s host ≡ host_allowed config t host
host_allowed-same config host s t e = rw e

module _ (config : NetConfig) (host : Text) where
  substitute_all-SameFor :
      (text result : Text) (a b : HashMap Text SecretConfig)
      → SameFor config host a b
      → substitute_all config text host result a ≡ substitute_all config text host result b
  unfolding substitute_all
  substitute_all-SameFor text result [] [] same = refl
  substitute_all-SameFor text result [] (q ∷ b) same = absurd same
  substitute_all-SameFor text result (p ∷ a) [] same = absurd same
  substitute_all-SameFor text result ((n, s) ∷ a) ((k, t) ∷ b) same =
      elim (Bool-cases (host_allowed config s host)) [
        | inl e ↦ ground (
          arith,
          same.2 e,
          host_allowed-same config host s t same.1,
          substitute_all-SameFor text result a b same.3,
          substitute_all-SameFor text (replace result s.placeholder s.real_value) a b same.3,
        )
        | inr e ↦ ground (
          arith,
          host_allowed-same config host s t same.1,
          substitute_all-SameFor text result a b same.3,
        )
      ]

  substitute_line-SameFor :
      (a b : HashMap Text SecretConfig) (line : Text)
      → SameFor config host a b
      → substitute_line config a host line ≡ substitute_line config b host line
  unfolding substitute_line substitute_secrets_in_text
  substitute_line-SameFor a b line same = elim (Option-cases (find line (codes ":"))) [
    | inl e ↦ ground arith
    | inr (pos, e) ↦
        let value = trim_start (drop (pos + 1) line) in
        ground (arith, substitute_all-SameFor value value a b same)
  ]

  substitute_lines-SameFor :
      (a b : HashMap Text SecretConfig) (ls : List Text)
      → SameFor config host a b
      → substitute_lines config a host ls ≡ substitute_lines config b host ls
  unfolding substitute_lines
  substitute_lines-SameFor a b [] same = refl
  substitute_lines-SameFor a b (line ∷ ls) same =
      ground (arith, substitute_line-SameFor a b line same, substitute_lines-SameFor a b ls same)

-- A manager with other secrets.
abbrev pub with_secrets : ConnectionManager → HashMap Text SecretConfig → ConnectionManager
with_secrets m secrets = record m { secrets = secrets }

-- The secrets agree for the host that the handle is connected to.
abbrev pub SameForHandle : ConnectionManager → ℕ → HashMap Text SecretConfig → Type 0
SameForHandle m handle secrets =
    (host : Text)
    → HashMap.get m.connection_hosts handle ≡ some host
    → SameFor m.config host m.secrets secrets

module _ (from_utf8_lossy : Text → Text) (parse_length : Text → Option ℕ) (m : ConnectionManager)
    (handle : ℕ) (secrets : HashMap Text SecretConfig) (same : SameForHandle m handle secrets) where
  headers-SameFor :
      (headers : Text)
      → substitute_http_headers from_utf8_lossy parse_length (with_secrets m secrets) headers handle
        ≡ substitute_http_headers from_utf8_lossy parse_length m headers handle
  unfolding substitute_http_headers
  headers-SameFor headers = elim (Option-cases (HashMap.get m.connection_hosts handle)) [
    | inl e ↦ ground arith
    | inr (host, e) ↦ ground (
      arith,
      substitute_lines-SameFor m.config host m.secrets secrets (lines (from_utf8_lossy headers))
          (same host e),
    )
  ]

  process_headers-SameFor :
      (state : HttpParsingState) (header_end : ℕ)
      → process_headers from_utf8_lossy parse_length
          (with_secrets m secrets)
          handle
          state
          header_end
        ≡ (
          with_secrets
              (process_headers from_utf8_lossy parse_length m handle state header_end).0
              secrets,
          (process_headers from_utf8_lossy parse_length m handle state header_end).1,
        )
  unfolding process_headers
  process_headers-SameFor state header_end =
      let headers = take header_end state.buffer in
      elim (Result-cases (substitute_http_headers from_utf8_lossy parse_length m headers handle)) [
        | inl (substituted, e) ↦ ground (arith, headers-SameFor headers)
        | inr (x, e) ↦ ground (arith, headers-SameFor headers)
      ]

  process_body-SameFor :
      (state : HttpParsingState) (bytes : Text)
      → process_body from_utf8_lossy parse_length (with_secrets m secrets) handle state bytes ≡ (
        with_secrets (process_body from_utf8_lossy parse_length m handle state bytes).0 secrets,
        (process_body from_utf8_lossy parse_length m handle state bytes).1,
      )
  unfolding process_body
  process_body-SameFor state bytes = refl

  process_entered-SameFor :
      (state : HttpParsingState) (bytes : Text)
      → process_entered from_utf8_lossy parse_length (with_secrets m secrets) handle state bytes ≡ (
        with_secrets (process_entered from_utf8_lossy parse_length m handle state bytes).0 secrets,
        (process_entered from_utf8_lossy parse_length m handle state bytes).1,
      )
  unfolding process_entered
  process_entered-SameFor state bytes = elim (Bool-cases state.headers_complete) [
    | inl e ↦ ground (arith, process_body-SameFor state bytes)
    | inr e ↦ elim (Option-cases (find_header_end state.buffer)) [
      | inl f ↦ ground arith
      | inr (header_end, f) ↦ ground (arith, process_headers-SameFor state header_end)
    ]
  ]

ensure_state-with_secrets :
    (from_utf8_lossy : Text → Text) (parse_length : Text → Option ℕ) (m : ConnectionManager)
    (handle : ℕ) (secrets : HashMap Text SecretConfig)
    → ensure_state from_utf8_lossy parse_length (with_secrets m secrets) handle
      ≡ with_secrets (ensure_state from_utf8_lossy parse_length m handle) secrets
unfolding ensure_state
ensure_state-with_secrets from_utf8_lossy parse_length m handle secrets =
    elim (Option-cases (HashMap.get m.http_states handle)) [
      | inl e ↦ ground arith
      | inr (old, e) ↦ ground arith
    ]

ensure_state-SameForHandle :
    (from_utf8_lossy : Text → Text) (parse_length : Text → Option ℕ) (m : ConnectionManager)
    (handle : ℕ) (secrets : HashMap Text SecretConfig)
    → SameForHandle m handle secrets
    → SameForHandle (ensure_state from_utf8_lossy parse_length m handle) handle secrets
unfolding ensure_state
ensure_state-SameForHandle from_utf8_lossy parse_length m handle secrets same =
    elim (Option-cases (HashMap.get m.http_states handle)) [
      | inl e ↦ rw (e, ensure_state) same
      | inr (old, e) ↦ rw (e, ensure_state) same
    ]

-- What a write does with its data does not depend on the real value of a secret whose allowed hosts do
-- not include the host of the connection: with any other value of it, the bytes that go out, the
-- error and the state of the parsers are the same.
pub process_write_data-SameFor :
    (from_utf8_lossy : Text → Text) (parse_length : Text → Option ℕ) (m : ConnectionManager)
    (handle : ℕ) (bytes : Text) (secrets : HashMap Text SecretConfig)
    → SameForHandle m handle secrets
    → process_write_data from_utf8_lossy parse_length (with_secrets m secrets) handle bytes ≡ (
      with_secrets (process_write_data from_utf8_lossy parse_length m handle bytes).0 secrets,
      (process_write_data from_utf8_lossy parse_length m handle bytes).1,
    )
unfolding process_write_data
process_write_data-SameFor from_utf8_lossy parse_length m handle bytes secrets same =
    let ensured = ensure_state from_utf8_lossy parse_length m handle in
    let state =
      extended from_utf8_lossy parse_length (state_of from_utf8_lossy parse_length m handle)
        bytes in
    rw (ensure_state-with_secrets from_utf8_lossy parse_length m handle secrets) (
      process_entered-SameFor from_utf8_lossy parse_length ensured handle secrets
        (ensure_state-SameForHandle from_utf8_lossy parse_length m handle secrets same) state bytes)
