-- ===== src/Net/Substitution.antt =====
-- The substitution of secrets in the header lines of a request, in crates/eryx/src/net.rs.
use eryx.Prelude.{
  ◌+◌, Bool, true, not, none, some, List, [], ◌∷◌, ◌++◌, Result, ok, err, ◌>>=◌, nat_keys, take,
  drop, if◌then◌else◌,
}
use eryx.Prelude.HashMap.{HashMap}
use eryx.Prelude.Text.{Text, codes, starts_with, find, contains_text}
use eryx.Net.Config.{NetConfig, TcpError, SecretConfig}
use eryx.Net.Pattern.{any_matches}
use eryx.Net.Strings.{crlf, replace, trim_start}

-- `secret.allowed_hosts`, or the configuration's where it is empty; an empty list allows every host.
abbrev allows_host : List Text → Text → Bool
allows_host [] host = true
allows_host (p ∷ ps) host = any_matches host (p ∷ ps)

abbrev first_nonempty : List Text → List Text → List Text
first_nonempty [] other = other
first_nonempty (p ∷ ps) other = p ∷ ps

abbrev pub host_allowed : NetConfig → SecretConfig → Text → Bool
host_allowed config secret host =
    allows_host (first_nonempty secret.allowed_hosts config.allowed_hosts) host

-- The loop over the secrets; `text` is the original, `result` what is substituted so far.
unfoldable pub substitute_all :
    NetConfig → Text → Text → Text → HashMap Text SecretConfig → Result Text TcpError
unfolding replace
substitute_all config text host result [] = ok result
substitute_all config text host result ((name, secret) ∷ secrets) =
    let skipped = substitute_all config text host result secrets in
    let next =
      substitute_all config text host (replace result secret.placeholder secret.real_value)
        secrets in
    if not (contains_text text secret.placeholder)
    then skipped
    else if not (host_allowed config secret host)
    then err (TcpError.not_permitted (codes "Secret not allowed for the target host"))
    else next

unfoldable pub substitute_secrets_in_text :
    NetConfig → HashMap Text SecretConfig → Text → Text → Result Text TcpError
unfolding substitute_all
substitute_secrets_in_text config secrets text host = substitute_all config text host text secrets

-- A header line with its value substituted, any other line as it is.
unfoldable pub substitute_line :
    NetConfig → HashMap Text SecretConfig → Text → Text → Result Text TcpError
unfolding substitute_secrets_in_text trim_start find starts_with
substitute_line config secrets host line = elim (find line (codes ":")) [
  | none ↦ ok (line ++ crlf)
  | some colon_pos ↦
      substitute_secrets_in_text config secrets (trim_start (drop (colon_pos + 1) line)) host
      >>= λ value. ok (take colon_pos line ++ (codes ": " ++ (value ++ crlf)))
]

unfoldable pub substitute_lines :
    NetConfig → HashMap Text SecretConfig → Text → List Text → Result Text TcpError
unfolding substitute_line
substitute_lines config secrets host [] = ok crlf
substitute_lines config secrets host (line ∷ rest) =
    substitute_line config secrets host line >>= λ done.
    substitute_lines config secrets host rest >>= λ others. ok (done ++ others)
