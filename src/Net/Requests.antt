-- ===== src/Net/Requests.antt =====
-- What the parser of crates/eryx/src/net.rs looks for at the start of a request.
use eryx.Prelude.{
  ℕ, ◌+◌, Bool, false, ◌||◌, Option, none, some, ◌++◌, ltb, nat_keys, length, if◌then◌else◌,
}
use eryx.Prelude.Text.{Text, codes, starts_with, find}
use eryx.Net.Strings.{crlf}

unfoldable pub find_header_end : Text → Option ℕ
unfolding find starts_with
find_header_end bytes = elim (find bytes (crlf ++ crlf)) [ none ↦ none | some pos ↦ some (pos + 4) ]

unfoldable pub is_http_request : Text → Bool
unfolding starts_with
is_http_request bytes =
    if ltb (length bytes) 4
    then false
    else starts_with bytes (codes "GET ")
      || (starts_with bytes (codes "POST ")
          || (starts_with bytes (codes "PUT ")
              || (starts_with bytes (codes "DELETE ")
                  || (starts_with bytes (codes "PATCH ")
                      || (starts_with bytes (codes "HEAD ")
                          || (starts_with bytes (codes "OPTIONS ")
                              || (starts_with bytes (codes "CONNECT ")
                                  || starts_with bytes (codes "TRACE "))))))))

unfoldable pub is_http2 : Text → Bool
unfolding starts_with
is_http2 bytes = starts_with bytes (codes "PRI * HTTP/2")
