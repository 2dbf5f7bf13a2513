-- ===== src/Net/Http/Passage.antt =====
-- Writes that pass the HTTP parser of crates/eryx/src/net.rs without a substitution.
use eryx.Prelude.{
  ℕ, ◌+◌, ◌≡◌, refl, true, false, ◌&&◌, ap, ap₂, Option, none, some, List, [], ◌∷◌, ◌++◌, Result,
  ok, nat_eq, nat_keys, eq_self, length, take, drop, map, arith,
}
use eryx.Prelude.HashMap
use eryx.Prelude.HashMap.{get-insert}
use eryx.Prelude.Text.{Text, codes, starts_with}
use eryx.Net.Config.{TcpError, HttpParsingState, default_http_state}
use eryx.Net.Connections.{ConnectionManager}
use eryx.Net.Requests.{find_header_end, is_http_request, is_http2}
use eryx.Net.Http.{
  WriteAction, passthrough, ensure_state, segments, state_of, extended, put_state, with_body,
  substitute_http_headers, extract_content_length, state_after_headers, process_headers,
  process_body, process_entered, process_write_data,
}

-- Two prefixes of one text agree in their first two bytes.
starts_with-two :
    (s : Text) (c d e f : ℕ) (p q : Text)
    → starts_with s (c ∷ d ∷ p) ≡ true
    → (nat_eq c e && nat_eq d f) ≡ false
    → starts_with s (e ∷ f ∷ q) ≡ false
unfolding starts_with
starts_with-two [] c d e f p q h ne = refl
starts_with-two (a ∷ []) c d e f p q h ne = ground arith
starts_with-two (a ∷ b ∷ s) c d e f p q h ne = ground arith

-- The preface of HTTP/2 is no request.
is_http2-is_http_request : (s : Text) → is_http2 s ≡ true → is_http_request s ≡ false
unfolding is_http2 is_http_request
is_http2-is_http_request s h =
    let differs = λ (e f : ℕ) (q : Text) (ne : (nat_eq b'P' e && nat_eq b'R' f) ≡ false).
      starts_with-two s b'P' b'R' e f (codes "I * HTTP/2") q h ne in
    ground (
      arith,
      differs b'G' b'E' (codes "T ") refl,
      differs b'P' b'O' (codes "ST ") refl,
      differs b'P' b'U' (codes "T ") refl,
      differs b'D' b'E' (codes "LETE ") refl,
      differs b'P' b'A' (codes "TCH ") refl,
      differs b'H' b'E' (codes "AD ") refl,
      differs b'O' b'P' (codes "TIONS ") refl,
      differs b'C' b'O' (codes "NNECT ") refl,
      differs b'T' b'R' (codes "ACE ") refl,
    )

module _ (from_utf8_lossy : Text → Text) (parse_length : Text → Option ℕ) where
  -- Where the parser has not seen the headers of a request, a write that completes headers which
  -- start like HTTP/2 is not refused: all that is buffered goes out as it is.
  pub http2_passes :
      (m : ConnectionManager) (handle : ℕ) (bytes : Text) (header_end : ℕ)
      → (state_of from_utf8_lossy parse_length m handle).headers_complete ≡ false
      → find_header_end ((state_of from_utf8_lossy parse_length m handle).buffer ++ bytes)
        ≡ some header_end
      → is_http2
          (take header_end ((state_of from_utf8_lossy parse_length m handle).buffer ++ bytes))
        ≡ true
      → (process_write_data from_utf8_lossy parse_length m handle bytes).1
        ≡ ok (passthrough ((state_of from_utf8_lossy parse_length m handle).buffer ++ bytes))
  unfolding process_write_data process_entered process_headers
  http2_passes m handle bytes header_end fresh found preface =
      let buffer = (state_of from_utf8_lossy parse_length m handle).buffer ++ bytes in
      ground (arith, is_http2-is_http_request (take header_end buffer))

  -- The headers of a request without a length are through.
  pub record IsOpenEnded (m : ConnectionManager) (handle : ℕ) : Type 0 where
    pub complete : (state_of from_utf8_lossy parse_length m handle).headers_complete ≡ true
    pub unbounded : (state_of from_utf8_lossy parse_length m handle).content_length ≡ none

  -- The actions of a sequence of writes on a handle.
  abbrev pub actions : ConnectionManager → ℕ → List Text → List (Result WriteAction TcpError)
  actions m handle [] = []
  actions m handle (bytes ∷ rest) =
      (process_write_data from_utf8_lossy parse_length m handle bytes).1
      ∷ actions (process_write_data from_utf8_lossy parse_length m handle bytes).0 handle rest

  process_body-IsOpenEnded :
      (m : ConnectionManager) (handle : ℕ) (state : HttpParsingState) (bytes : Text)
      → state.headers_complete ≡ true
      → state.content_length ≡ none
      → IsOpenEnded (process_body from_utf8_lossy parse_length m handle state bytes).0 handle
  unfolding process_body
  process_body-IsOpenEnded m handle state bytes complete unbounded =
      let sent = record state { body_bytes_sent = state.body_bytes_sent + length bytes } in
      record {
        complete = ground (arith, get-insert m.http_states handle handle sent, eq_self handle);
        unbounded = ground (arith, get-insert m.http_states handle handle sent, eq_self handle);
      }

  process_complete :
      (m : ConnectionManager) (handle : ℕ) (bytes : Text)
      → (state_of from_utf8_lossy parse_length m handle).headers_complete ≡ true
      → process_write_data from_utf8_lossy parse_length m handle bytes
        ≡ process_body from_utf8_lossy parse_length
            (ensure_state from_utf8_lossy parse_length m handle)
            handle
            (extended from_utf8_lossy parse_length
              (state_of from_utf8_lossy parse_length m handle)
              bytes)
            bytes
  unfolding process_write_data process_entered
  process_complete m handle bytes complete = ground arith

  process_body-passthrough :
      (m : ConnectionManager) (handle : ℕ) (state : HttpParsingState) (bytes : Text)
      → (process_body from_utf8_lossy parse_length m handle state bytes).1 ≡ ok (passthrough bytes)
  unfolding process_body
  process_body-passthrough m handle state bytes = refl

  write-IsOpenEnded :
      (m : ConnectionManager) (handle : ℕ) (bytes : Text)
      → IsOpenEnded m handle
      → ((process_write_data from_utf8_lossy parse_length m handle bytes).1
          ≡ ok (passthrough bytes))
        × IsOpenEnded (process_write_data from_utf8_lossy parse_length m handle bytes).0 handle
  write-IsOpenEnded m handle bytes o =
      let state = state_of from_utf8_lossy parse_length m handle in
      let ensured = ensure_state from_utf8_lossy parse_length m handle in
      let next = extended from_utf8_lossy parse_length state bytes in
      rw (process_complete m handle bytes o.complete) (
        process_body-passthrough ensured handle next bytes,
        process_body-IsOpenEnded ensured handle next bytes o.complete o.unbounded,
      )

  open_ended-passes :
      (m : ConnectionManager) (handle : ℕ) (writes : List Text)
      → IsOpenEnded m handle
      → actions m handle writes ≡ map (λ bytes. ok (passthrough bytes)) writes
  open_ended-passes m handle [] o = refl
  open_ended-passes m handle (bytes ∷ rest) o =
      let w = write-IsOpenEnded m handle bytes o in
      rw w.0 (
        ap (◌∷◌ (ok (passthrough bytes))) (
          open_ended-passes (process_write_data from_utf8_lossy parse_length m handle bytes).0
            handle rest w.1))

  -- A write with which a connection begins, whose headers are those of a request without a length.
  module _ (m : ConnectionManager) (handle : ℕ) (bytes : Text) (header_end : ℕ) (substituted : Text)
      (fresh : HashMap.get m.http_states handle ≡ none)
      (found : find_header_end bytes ≡ some header_end)
      (request : is_http_request (take header_end bytes) ≡ true)
      (out : substitute_http_headers from_utf8_lossy parse_length m (take header_end bytes) handle
        ≡ ok substituted)
      (unbounded : extract_content_length from_utf8_lossy parse_length substituted ≡ none) where
    abbrev first_state : HttpParsingState
    first_state =
        state_after_headers from_utf8_lossy parse_length
          (extended from_utf8_lossy parse_length default_http_state bytes) substituted
          (drop header_end bytes)

    ensured :
        ensure_state from_utf8_lossy parse_length m handle
        ≡ put_state from_utf8_lossy parse_length m handle default_http_state
    unfolding ensure_state
    ensured = ground arith

    out_entered :
        substitute_http_headers from_utf8_lossy parse_length
          (ensure_state from_utf8_lossy parse_length m handle)
          (take header_end bytes)
          handle
        ≡ ok substituted
    unfolding substitute_http_headers
    out_entered = rw ensured out

    first_write : process_write_data from_utf8_lossy parse_length m handle bytes ≡ (
      put_state from_utf8_lossy parse_length
          (ensure_state from_utf8_lossy parse_length m handle)
          handle
          first_state,
      ok (segments (with_body from_utf8_lossy parse_length substituted (drop header_end bytes))),
    )
    unfolding process_write_data process_entered process_headers
    first_write = ground (arith, out_entered, is_http2-is_http_request (take header_end bytes))

    first_write-IsOpenEnded :
        IsOpenEnded (process_write_data from_utf8_lossy parse_length m handle bytes).0 handle
    unfolding state_after_headers
    first_write-IsOpenEnded = rw first_write (
        let stored =
          get-insert (ensure_state from_utf8_lossy parse_length m handle).http_states handle handle
            first_state in
        record {
          complete = ground (arith, stored, eq_self handle);
          unbounded = ground (arith, stored, eq_self handle);
        })

    -- On a connection that nothing was written to, a first write with the headers of a request whose
    -- substituted headers tell no length: they go out substituted, and every later write passes through
    -- as it is, that of a next request with its placeholders too.
    pub open_ended_passes :
        (writes : List Text)
        → actions m handle (bytes ∷ writes)
          ≡ ok (
              segments (with_body from_utf8_lossy parse_length substituted (drop header_end bytes)))
            ∷ map (λ later. ok (passthrough later)) writes
    open_ended_passes writes = ap₂ (◌∷◌) (ap (λ p. p.1) first_write) (
        open_ended-passes (process_write_data from_utf8_lossy parse_length m handle bytes).0 handle
          writes first_write-IsOpenEnded)
