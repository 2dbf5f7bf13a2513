-- ===== src/Net/Http.antt =====
-- The HTTP parser on writes and the substitution of secrets in crates/eryx/src/net.rs. Two functions
-- of Rust are arguments: `from_utf8_lossy`, and `parse_length` for `trim().parse().ok()`.
pub mod Secrecy
pub mod Passage
pub mod HeaderEnd
use eryx.Prelude.{
  ℕ, zero, suc, ◌+◌, ◌%◌, ◌^◌, Bool, true, false, ◌&&◌, ◌||◌, not, Option, none, some, List, [],
  ◌∷◌, ◌++◌, Result, ok, err, ◌>>=◌, ltb, leb, nat_eq, PartialEq, nat_keys, length, take, drop,
  if◌then◌else◌, or_default,
}
use eryx.Prelude.HashMap
use eryx.Prelude.HashMap.{HashMap}
use eryx.Prelude.Text.{Text, codes, starts_with, find, contains_text, to_ascii_lowercase}
use eryx.Net.Config.{
  NetConfig, TcpError, TlsError, SecretConfig, HttpParsingState, default_http_state,
}
use eryx.Net.Pattern.{any_matches}
use eryx.Net.Connections.{ConnectionManager, effective_timeout}
use eryx.Net.Requests.{find_header_end, is_http_request, is_http2}
use eryx.Net.Substitution.{substitute_lines}
use eryx.Net.Strings.{crlf, lines, replace, trim_start}

pub data WriteAction : Type 0 where
  passthrough : Text → WriteAction
  segments : List Text → WriteAction
  buffering : WriteAction

-- `network` says how many of the bytes a socket takes within a timeout.
unfoldable pub tcp_write_raw :
    (ℕ → Text → ℕ → Result ℕ TcpError) → ConnectionManager → ℕ → Text → ℕ → Result ℕ TcpError
unfolding effective_timeout
tcp_write_raw network m handle bytes timeout_ms = elim (HashMap.get m.tcp_connections handle) [
  | none ↦ err TcpError.invalid_handle
  | some socket ↦ network socket bytes (effective_timeout m.config.io_timeout timeout_ms) >>= λ n.
      ok (n % 2 ^ 32)
]

-- `network` says how many of the bytes a socket takes within a timeout.
unfoldable pub tls_write_raw :
    (ℕ → Text → ℕ → Result ℕ TlsError) → ConnectionManager → ℕ → Text → ℕ → Result ℕ TlsError
unfolding effective_timeout
tls_write_raw network m handle bytes timeout_ms = elim (HashMap.get m.tls_connections handle) [
  | none ↦ err TlsError.invalid_handle
  | some socket ↦ network socket bytes (effective_timeout m.config.io_timeout timeout_ms) >>= λ n.
      ok (n % 2 ^ 32)
]

module _ (from_utf8_lossy : Text → Text) (parse_length : Text → Option ℕ) where
  unfoldable pub substitute_http_headers : ConnectionManager → Text → ℕ → Result Text TcpError
  unfolding substitute_lines lines
  substitute_http_headers m headers handle = elim (HashMap.get m.connection_hosts handle) [
    | none ↦ err TcpError.invalid_handle
    | some host ↦ substitute_lines m.config m.secrets host (lines (from_utf8_lossy headers))
  ]

  -- Between the first and the second colon.
  abbrev second_field : Text → Text
  second_field line = elim (find line (codes ":")) [
    | none ↦ []
    | some i ↦ elim (find (drop (i + 1) line) (codes ":")) [
      | none ↦ drop (i + 1) line
      | some j ↦ take j (drop (i + 1) line)
    ]
  ]

  unfoldable pub content_length_of : List Text → Option ℕ
  unfolding find starts_with
  content_length_of [] = none
  content_length_of (line ∷ rest) =
      let later = content_length_of rest in
      if starts_with (to_ascii_lowercase line) (codes "content-length:")
      then parse_length (second_field line)
      else later

  unfoldable pub extract_content_length : Text → Option ℕ
  unfolding content_length_of lines
  extract_content_length headers = content_length_of (lines (from_utf8_lossy headers))

  abbrev body_sent : HttpParsingState → Option ℕ → HttpParsingState
  body_sent state none = state
  body_sent state (some cl) = if leb cl state.body_bytes_sent then default_http_state else state

  unfoldable pub any_chunked : List Text → Bool
  unfolding find starts_with
  any_chunked [] = false
  any_chunked (line ∷ rest) =
      (contains_text (to_ascii_lowercase line) (codes "transfer-encoding")
        && contains_text (to_ascii_lowercase line) (codes "chunked"))
      || any_chunked rest

  unfoldable pub is_chunked : Text → Bool
  unfolding any_chunked lines
  is_chunked headers = any_chunked (lines (from_utf8_lossy headers))

  abbrev pub state_of : ConnectionManager → ℕ → HttpParsingState
  state_of m handle = elim (HashMap.get m.http_states handle) [
    | none ↦ default_http_state
    | some st ↦ st
  ]

  -- `http_states.insert(handle, state)`
  abbrev pub put_state : ConnectionManager → ℕ → HttpParsingState → ConnectionManager
  put_state m handle state = record m { http_states = HashMap.insert m.http_states handle state }

  -- `http_states.entry(handle).or_default()`
  unfoldable pub ensure_state : ConnectionManager → ℕ → ConnectionManager
  ensure_state m handle = elim (HashMap.get m.http_states handle) [
    | none ↦ put_state m handle default_http_state
    | some st ↦ m
  ]

  -- The state behind the headers of a request.
  unfoldable pub state_after_headers : HttpParsingState → Text → Text → HttpParsingState
  state_after_headers state substituted remaining =
      let sent = state.body_bytes_sent + length remaining in
      let content_length = extract_content_length substituted in
      let parsed = record state {
        headers_complete = true;
        body_bytes_sent = sent;
        content_length = content_length;
      } in
      elim content_length [
        | some cl ↦ if leb cl sent then default_http_state else parsed
        | none ↦ if is_chunked substituted then parsed else record parsed { buffer = [] }
      ]

  abbrev pub with_body : Text → Text → List Text
  with_body substituted [] = substituted ∷ []
  with_body substituted (b ∷ body) = substituted ∷ (b ∷ body) ∷ []

  abbrev http2_refused : TcpError
  http2_refused = TcpError.not_permitted (codes "HTTP/2 with secrets not supported. Use HTTP/1.1.")

  -- The headers are complete in the buffer, and end before `header_end`.
  unfoldable pub process_headers :
      ConnectionManager → ℕ → HttpParsingState → ℕ → ConnectionManager × Result WriteAction TcpError
  process_headers m handle state header_end =
      let headers = take header_end state.buffer in
      let remaining = drop header_end state.buffer in
      if not (is_http_request headers)
      then (put_state m handle (record state { buffer = [] }), ok (passthrough state.buffer))
      else if is_http2 headers
      then (m, err http2_refused)
      else elim (substitute_http_headers m headers handle) [
        | err e ↦ (m, err e)
        | ok substituted ↦ (
          put_state m handle (state_after_headers state substituted remaining),
          ok (segments (with_body substituted remaining)),
        )
      ]

  -- Data behind the headers of a request.
  unfoldable pub process_body :
      ConnectionManager
      → ℕ
      → HttpParsingState
      → Text
      → ConnectionManager × Result WriteAction TcpError
  process_body m handle state bytes =
      let sent = record state { body_bytes_sent = state.body_bytes_sent + length bytes } in
      (put_state m handle (body_sent sent sent.content_length), ok (passthrough bytes))

  -- With the entry of the handle in the table, and the state that has the new data in its buffer.
  unfoldable pub process_entered :
      ConnectionManager
      → ℕ
      → HttpParsingState
      → Text
      → ConnectionManager × Result WriteAction TcpError
  process_entered m handle state bytes =
      if state.headers_complete
      then process_body m handle state bytes
      else elim (find_header_end state.buffer) [
        | some header_end ↦ process_headers m handle state header_end
        | none ↦ (put_state m handle state, ok buffering)
      ]

  abbrev pub extended : HttpParsingState → Text → HttpParsingState
  extended state bytes = record state { buffer = state.buffer ++ bytes }

  unfoldable pub process_write_data :
      ConnectionManager → ℕ → Text → ConnectionManager × Result WriteAction TcpError
  process_write_data m handle bytes =
      process_entered (ensure_state m handle) handle (extended (state_of m handle) bytes) bytes

  -- The segments go out one by one, up to the first error.
  unfoldable pub write_segments :
      {E : Type 0} → (Text → Result ℕ E) → List Text → Result (Unit {0}) E
  write_segments raw [] = ok tt
  write_segments raw (segment ∷ rest) = raw segment >>= λ _. write_segments raw rest

  unfoldable pub act : {E : Type 0} → (Text → Result ℕ E) → Text → WriteAction → Result ℕ E
  unfolding write_segments
  act raw bytes (passthrough out) = raw out
  act raw bytes (segments parts) = write_segments raw parts >>= λ _. ok (length bytes % 2 ^ 32)
  act raw bytes buffering = ok (length bytes % 2 ^ 32)

  -- `tcp_write` and `tls_write` over their raw writes and error types.
  unfoldable pub write_with :
      {E : Type 0}
      → (Text → Result ℕ E)
      → (TcpError → E)
      → ConnectionManager
      → ℕ
      → Text
      → ConnectionManager × Result ℕ E
  unfolding act
  write_with raw wrap m handle bytes = elim m.secrets [
    | [] ↦ (m, raw bytes)
    | secret ∷ others ↦
        let (m', processed) = process_write_data m handle bytes in
        elim processed [ err e ↦ (m', err (wrap e)) | ok action ↦ (m', act raw bytes action) ]
  ]

  unfoldable pub tcp_write :
      (ℕ → Text → ℕ → Result ℕ TcpError)
      → ConnectionManager
      → ℕ
      → Text
      → ℕ
      → ConnectionManager × Result ℕ TcpError
  unfolding write_with tcp_write_raw
  tcp_write network m handle bytes timeout_ms =
      write_with (λ out. tcp_write_raw network m handle out timeout_ms) (λ e. e) m handle bytes

  unfoldable pub tls_write :
      (ℕ → Text → ℕ → Result ℕ TlsError)
      → ConnectionManager
      → ℕ
      → Text
      → ℕ
      → ConnectionManager × Result ℕ TlsError
  unfolding write_with tls_write_raw
  tls_write network m handle bytes timeout_ms =
      write_with (λ out. tls_write_raw network m handle out timeout_ms) TlsError.tcp m handle bytes
