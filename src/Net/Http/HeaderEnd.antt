-- ===== src/Net/Http/HeaderEnd.antt =====
-- The end of the headers that the substitution of crates/eryx/src/net.rs writes.
use eryx.Prelude.{
  ℕ, ◌≡◌, ◌≢◌, refl, inl, inr, Option, some, List, [], ◌∷◌, ◌++◌, Result, ok, err, ap, ◌>>=◌,
  nat_keys, Result-cases, arith,
}
use mathlib.Core.List.{append_assoc}
use eryx.Prelude.HashMap
use eryx.Prelude.HashMap.{HashMap}
use eryx.Prelude.Text.{Text, starts_with, find}
use eryx.Net.Config.{NetConfig, TcpError, SecretConfig}
use eryx.Net.Connections.{ConnectionManager}
use eryx.Net.Strings.{crlf, lines, cons_line}
use eryx.Net.Substitution.{substitute_line, substitute_lines}
use eryx.Net.Http.{substitute_http_headers}

starts_with-crlf :
    (h : Text) → starts_with (h ++ (crlf ++ crlf)) (10 ∷ []) ≡ starts_with (h ++ crlf) (10 ∷ [])
unfolding starts_with
starts_with-crlf [] = refl
starts_with-crlf (c ∷ h) = refl

cons_line-append :
    (c : ℕ) (ls : List Text) → ls ≢ [] → cons_line c (ls ++ [] ∷ []) ≡ cons_line c ls ++ [] ∷ []
cons_line-append c [] h = absurd (h refl)
cons_line-append c (l ∷ ls) h = refl

cons_line-ne-nil : (c : ℕ) (ls : List Text) → cons_line c ls ≢ []
cons_line-ne-nil c [] h = ground arith
cons_line-ne-nil c (l ∷ ls) h = ground arith

lines-ne-nil : (h : Text) → lines (h ++ crlf) ≢ []
unfolding lines starts_with
lines-ne-nil [] e = ground arith
lines-ne-nil (c ∷ h) e = ground (arith, lines-ne-nil h, cons_line-ne-nil c (lines (h ++ crlf)))

-- The empty line behind the headers is a line.
lines-crlf : (h : Text) → lines (h ++ (crlf ++ crlf)) ≡ lines (h ++ crlf) ++ [] ∷ []
unfolding lines
lines-crlf [] = refl
lines-crlf (c ∷ h) = ground (
  arith,
  lines-crlf h,
  starts_with-crlf h,
  cons_line-append c (lines (h ++ crlf)),
  lines-ne-nil h,
)

module _ (config : NetConfig) (secrets : HashMap Text SecretConfig) (host : Text) where
  -- With one line end more.
  abbrev and_crlf : Result Text TcpError → Result Text TcpError
  and_crlf r = r >>= λ out. ok (out ++ crlf)

  -- Each line with its secrets and its line end, and nothing else.
  abbrev pub each_line : List Text → Result Text TcpError
  each_line [] = ok []
  each_line (line ∷ ls) = substitute_line config secrets host line >>= λ done.
      each_line ls >>= λ others. ok (done ++ others)

  substitute_lines-each_line :
      (ls : List Text) → substitute_lines config secrets host ls ≡ and_crlf (each_line ls)
  unfolding substitute_lines
  substitute_lines-each_line [] = refl
  substitute_lines-each_line (line ∷ ls) =
      elim (Result-cases (substitute_line config secrets host line)) [
        | inl (done, e) ↦ elim (Result-cases (each_line ls)) [
          | inl (others, f) ↦
              ground (arith, substitute_lines-each_line ls, append_assoc done others crlf)
          | inr (x, f) ↦ ground (arith, substitute_lines-each_line ls)
        ]
        | inr (x, e) ↦ ground arith
      ]

  twice_crlf :
      (r : Result Text TcpError) → and_crlf (and_crlf r) ≡ (r >>= λ out. ok (out ++ (crlf ++ crlf)))
  twice_crlf (ok out) = ap ok (append_assoc out crlf crlf)
  twice_crlf (err e) = refl

  substitute_line_empty : substitute_line config secrets host [] ≡ ok crlf
  unfolding substitute_line find starts_with
  substitute_line_empty = refl

  substitute_lines-empty :
      (ls : List Text)
      → substitute_lines config secrets host (ls ++ [] ∷ [])
        ≡ and_crlf (substitute_lines config secrets host ls)
  unfolding substitute_lines
  substitute_lines-empty [] = ground (arith, substitute_line_empty)
  substitute_lines-empty (line ∷ ls) =
      elim (Result-cases (substitute_line config secrets host line)) [
        | inl (done, e) ↦ elim (Result-cases (substitute_lines config secrets host ls)) [
          | inl (others, f) ↦
              ground (arith, substitute_lines-empty ls, append_assoc done others crlf)
          | inr (x, f) ↦ ground (arith, substitute_lines-empty ls)
        ]
        | inr (x, e) ↦ ground arith
      ]

-- For headers that are UTF-8 text and end with an empty line, what is written is each header line with
-- its secrets and one line end, and then two line ends, of which the first is the empty line and the second
-- is read by the receiver as the first two bytes of the body.
pub substitute_http_headers-crlf :
    (from_utf8_lossy : Text → Text) (parse_length : Text → Option ℕ) (m : ConnectionManager)
    (handle : ℕ) (host h : Text)
    → HashMap.get m.connection_hosts handle ≡ some host
    → from_utf8_lossy (h ++ (crlf ++ crlf)) ≡ h ++ (crlf ++ crlf)
    → substitute_http_headers from_utf8_lossy parse_length m (h ++ (crlf ++ crlf)) handle ≡ (
        each_line m.config m.secrets host (lines (h ++ crlf)) >>= λ out. ok (out ++ (crlf ++ crlf)))
unfolding substitute_http_headers
substitute_http_headers-crlf from_utf8_lossy parse_length m handle host h e valid =
    let ls = lines (h ++ crlf) in
    ground (
      arith,
      lines-crlf h,
      substitute_lines-empty m.config m.secrets host ls,
      substitute_lines-each_line m.config m.secrets host ls,
      twice_crlf m.config m.secrets host (each_line m.config m.secrets host ls),
    )
