-- ===== src/Net/Examples.antt =====
-- The host policy, the connections and the HTTP parser of crates/eryx/src/net.rs at concrete inputs.
use eryx.Prelude.{
  ◌>>=◌, ℕ, subst, Option, none, some, take, ◌++◌, arith, ◌≡◌, refl, true, false, [], ◌∷◌, ok,
  nat_keys, text_keys,
}
use eryx.Prelude.HashMap
use eryx.Prelude.Text.{Text, codes, find, starts_with, to_ascii_lowercase}
use eryx.Net.Config.{NetConfig, SecretConfig, default_config}
use eryx.Net.Pattern.{
  split_star, match_parts, glob_matches, host_matches_pattern, any_matches, check_host_allowed,
}
use eryx.Net.Pattern.Glob.{Glob, host_matches_pattern-Glob}
use eryx.Net.Connections.{ConnectionManager, new}
use eryx.Net.Requests.{find_header_end, is_http_request}
use eryx.Net.Strings.{crlf, lines, trim_start, replace, replace_from}
use eryx.Net.Substitution.{
  host_allowed, substitute_lines, substitute_line, substitute_secrets_in_text,
}
use eryx.Net.Http.{
  process_write_data, passthrough, segments, extract_content_length, content_length_of,
  substitute_http_headers,
}
use eryx.Net.Http.HeaderEnd.{each_line, substitute_http_headers-crlf}
use eryx.Net.Http.Passage.{actions, open_ended_passes}
use eryx.Net.Http.Secrecy.{SameFor, SameForHandle, with_secrets, process_write_data-SameFor}
use eryx.Net.Connections.Timeouts.{IsCapped, timeouts-IsCapped}

matches : host_matches_pattern (codes "v1.API.example.com") (codes "*.api.*.com") ≡ true
unfolding host_matches_pattern glob_matches match_parts split_star find starts_with
matches = refl

-- The first place of a part is taken, so a name that repeats it is missed.
misses : host_matches_pattern (codes "a.localhost.localhost") (codes "*.localhost") ≡ false
unfolding host_matches_pattern glob_matches match_parts split_star find starts_with
misses = refl

host_matches_pattern-Glob_example :
    Glob
      (to_ascii_lowercase (codes "*.api.*.com"))
      (to_ascii_lowercase (codes "v1.API.example.com"))
host_matches_pattern-Glob_example =
    host_matches_pattern-Glob (codes "v1.API.example.com") (codes "*.api.*.com") matches

abbrev web : NetConfig
web = record default_config { allowed_hosts = codes "*.example.com" ∷ [] }

allows : check_host_allowed web (codes "api.example.com") ≡ ok tt
unfolding check_host_allowed any_matches host_matches_pattern glob_matches match_parts split_star
    find starts_with
allows = refl

timeouts-IsCapped_example : IsCapped (new web []) 90_000
timeouts-IsCapped_example = timeouts-IsCapped (new web []) 90_000

-- Text that is UTF-8 already, and no length that can be read.
abbrev as_is : Text → Text
as_is s = s

abbrev no_length : Text → Option ℕ
no_length s = none

abbrev with_hosts : Text → SecretConfig
with_hosts real_value = record {
  real_value = real_value;
  placeholder = codes "KEY";
  allowed_hosts = codes "api.example.com" ∷ [];
}

-- Handle 1 is connected to a host that may not get the secret.
abbrev connected_to : Text → ConnectionManager
connected_to real_value = record (new web ((codes "k", with_hosts real_value) ∷ [])) {
  connection_hosts = (1, codes "evil.example.com") ∷ [];
}

forbidden : host_allowed web (with_hosts (codes "s3cr3t")) (codes "evil.example.com") ≡ false
unfolding any_matches host_matches_pattern
forbidden = refl

same_for :
    SameForHandle (connected_to (codes "s3cr3t")) 1 ((codes "k", with_hosts (codes "other")) ∷ [])
unfolding HashMap.get any_matches host_matches_pattern new
same_for host e =
    let there : codes "evil.example.com" ≡ host = ground arith in
    subst
      (λ h.
        SameFor web h ((codes "k", with_hosts (codes "s3cr3t")) ∷ [])
          ((codes "k", with_hosts (codes "other")) ∷ []))
      there (refl, refl, (λ allowed. absurd (ground arith)), tt)

abbrev request : Text
request = codes "GET / HTTP/1.1" ++ (crlf ++ (codes "X-Key: KEY" ++ (crlf ++ crlf)))

process_write_data-SameFor_example :
    process_write_data as_is no_length
      (with_secrets (connected_to (codes "s3cr3t")) ((codes "k", with_hosts (codes "other")) ∷ []))
      1
      request
    ≡ (
      with_secrets
          (process_write_data as_is no_length (connected_to (codes "s3cr3t")) 1 request).0
          ((codes "k", with_hosts (codes "other")) ∷ []),
      (process_write_data as_is no_length (connected_to (codes "s3cr3t")) 1 request).1,
    )
process_write_data-SameFor_example =
    process_write_data-SameFor as_is no_length (connected_to (codes "s3cr3t")) 1 request
      ((codes "k", with_hosts (codes "other")) ∷ []) same_for

-- Handle 1 is connected to a host that may get the secret, and nothing was written to it.
abbrev allowed : ConnectionManager
allowed = record (connected_to (codes "s3cr3t")) {
  connection_hosts = (1, codes "api.example.com") ∷ [];
}

abbrev request_out : Text
request_out =
    codes "GET / HTTP/1.1" ++ (crlf ++ (codes "X-Key: s3cr3t" ++ (crlf ++ (crlf ++ crlf))))

header_end_found : find_header_end request ≡ some 30
unfolding find_header_end find starts_with
header_end_found = refl

request_starts : is_http_request (take 30 request) ≡ true
unfolding is_http_request starts_with
request_starts = refl

request_substituted :
    substitute_http_headers as_is no_length allowed (take 30 request) 1 ≡ ok request_out
unfolding substitute_http_headers substitute_lines substitute_line substitute_secrets_in_text lines
    trim_start find starts_with replace replace_from new HashMap.get any_matches
    host_matches_pattern
request_substituted = refl

no_length_told : extract_content_length as_is no_length request_out ≡ none
unfolding extract_content_length content_length_of lines starts_with
no_length_told = refl

-- The second request is the first again, with its placeholder.
open_ended_passes_example :
    actions as_is no_length allowed 1 (request ∷ request ∷ [])
    ≡ ok (segments (request_out ∷ [])) ∷ ok (passthrough request) ∷ []
unfolding new HashMap.get
open_ended_passes_example =
    open_ended_passes as_is no_length allowed 1 request 30 request_out refl header_end_found
      request_starts request_substituted no_length_told (request ∷ [])

-- The empty line that ends the headers goes out twice.
doubled_end :
    substitute_lines web [] (codes "api.example.com") (lines request) ≡ ok (request ++ crlf)
unfolding substitute_lines lines trim_start find starts_with
doubled_end = refl

substitute_http_headers-crlf_example :
    substitute_http_headers as_is no_length allowed
      ((codes "GET / HTTP/1.1" ++ (crlf ++ codes "X-Key: KEY")) ++ (crlf ++ crlf))
      1
    ≡ (each_line web allowed.secrets
          (codes "api.example.com")
          (lines ((codes "GET / HTTP/1.1" ++ (crlf ++ codes "X-Key: KEY")) ++ crlf))
        >>= λ out. ok (out ++ (crlf ++ crlf)))
unfolding new HashMap.get
substitute_http_headers-crlf_example =
    substitute_http_headers-crlf as_is no_length allowed 1 (codes "api.example.com")
      (codes "GET / HTTP/1.1" ++ (crlf ++ codes "X-Key: KEY")) refl refl
