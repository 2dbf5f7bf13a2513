-- ===== src/Net/Pattern.antt =====
-- Host patterns and the host policy of crates/eryx/src/net.rs. Host names are lists of bytes.
mod Parts
pub mod Glob
use eryx.Prelude.{
  ℕ, zero, suc, ◌+◌, Bool, true, false, ◌&&◌, ◌||◌, not, Option, none, some, List, [], ◌∷◌, ◌++◌,
  Result, ok, err, ◌==◌, PartialEq, nat_eq, text_keys, length, drop, if◌then◌else◌,
}
use eryx.Prelude.Text.{Text, codes, find, to_ascii_lowercase}
use eryx.Net.Config.{NetConfig, TcpError}

abbrev pub star : ℕ
star = b'*'

-- `pattern.contains('*')`
abbrev pub has_star : Text → Bool
has_star [] = false
has_star (c ∷ cs) = nat_eq c star || has_star cs

-- `pattern.split('*')`
abbrev pub cons_part : ℕ → List Text → List Text
cons_part c [] = (c ∷ []) ∷ []
cons_part c (p ∷ ps) = (c ∷ p) ∷ ps

unfoldable pub split_star : Text → List Text
split_star [] = [] ∷ []
split_star (c ∷ cs) =
    let rest = split_star cs in if nat_eq c star then [] ∷ rest else cons_part c rest

abbrev pub is_nil : Text → Bool
is_nil [] = true
is_nil (c ∷ cs) = false

-- The loop over the parts: `none` for its `return false`, else the final `pos`; `i` counts the parts.
unfoldable pub match_parts : Text → ℕ → ℕ → List Text → Option ℕ
match_parts host_lower i pos [] = some pos
match_parts host_lower i pos (part ∷ parts) =
    let skip = match_parts host_lower (suc i) pos parts in
    let found : Option ℕ = elim (find (drop pos host_lower) (to_ascii_lowercase part)) [
      | none ↦ none
      | some idx ↦
          let next = match_parts host_lower (suc i) (pos + idx + length part) parts in
          if nat_eq i zero && not (nat_eq idx zero) then none else next
    ] in
    if is_nil part then skip else found

-- `parts.last()` is a literal.
abbrev pub ends_literal : List Text → Bool
ends_literal [] = false
ends_literal (p ∷ []) = not (is_nil p)
ends_literal (p ∷ q ∷ ps) = ends_literal (q ∷ ps)

unfoldable pub glob_matches : Text → List Text → Bool
glob_matches host parts = elim (match_parts (to_ascii_lowercase host) zero zero parts) [
  | none ↦ false
  | some pos ↦ if ends_literal parts && not (nat_eq pos (length host)) then false else true
]

-- `eq_ignore_ascii_case` compares the texts in lower case.
unfoldable pub host_matches_pattern : Text → Text → Bool
host_matches_pattern host pattern =
    if pattern == codes "*"
    then true
    else if not (has_star pattern)
    then to_ascii_lowercase host == to_ascii_lowercase pattern
    else glob_matches host (split_star pattern)

-- `patterns.iter().any(|p| host_matches_pattern(host, p))`
unfoldable pub any_matches : Text → List Text → Bool
any_matches host [] = false
any_matches host (p ∷ ps) = host_matches_pattern host p || any_matches host ps

unfoldable pub check_host_allowed : NetConfig → Text → Result (Unit {0}) TcpError
check_host_allowed config host =
    if any_matches host config.blocked_hosts
    then err (TcpError.not_permitted (codes "host '" ++ (host ++ codes "' is blocked")))
    else if config.allow_all_hosts
    then ok tt
    else if any_matches host config.allowed_hosts
    then ok tt
    else err (TcpError.not_permitted (codes "host '" ++ (host ++ codes "' not in allowed list")))
