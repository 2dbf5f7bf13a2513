-- ===== src/Scrubbing.antt =====
-- `ScrubbingStorage` of crates/eryx-vfs/src/scrubbing.rs over the storage in memory. Whether bytes are
-- UTF-8 is an argument. A scrub that never ends is `none`.
pub mod Termination
pub mod Split
pub mod Clean
mod Examples
use eryx.Prelude.{
  ℕ, zero, suc, Bool, true, false, ◌||◌, not, Option, none, some, List, [], ◌∷◌, ◌++◌, length, drop,
  if◌then◌else◌,
}
use eryx.Prelude.HashMap.{HashMap}
use eryx.Prelude.Text.{Text, codes, starts_with}
use eryx.Vfs.Path.{VfsResult}
use eryx.Vfs.Storage.{Outcome, StorageState}
use eryx.Vfs.Storage as Storage
use eryx.Net.Strings.{replace}

pub record SecretConfig : Type 0 where
  pub placeholder : Text

pub data FileScrubPolicy : Type 0 where
  all : FileScrubPolicy
  keep : FileScrubPolicy
  except : List Text → FileScrubPolicy
  only : List Text → FileScrubPolicy

unfoldable pub should_scrub : FileScrubPolicy → Text → Bool
should_scrub all path = true
should_scrub keep path = false
should_scrub (except patterns) path = true
should_scrub (only patterns) path = true

abbrev pub redacted : Text
redacted = codes "[REDACTED]"

abbrev then_all : Text → Option Text → Option Text
then_all front none = none
then_all front (some rest) = some (front ++ rest)

-- The `while` loop over what is left of the haystack; a round for each step of `i`.
unfoldable pub replace_loop : ℕ → Text → Text → Text → Option Text
replace_loop zero needle replacement haystack = none
replace_loop (suc fuel) needle replacement [] = some []
replace_loop (suc fuel) needle replacement (c ∷ cs) =
    let found =
      then_all replacement (replace_loop fuel needle replacement (drop (length needle) (c ∷ cs))) in
    let kept = then_all (c ∷ []) (replace_loop fuel needle replacement cs) in
    if starts_with (c ∷ cs) needle then found else kept

-- Each round but one on an empty needle takes a byte, so a round for each byte and one more suffice.
unfoldable pub replace_bytes : Text → Text → Text → Option Text
replace_bytes haystack needle replacement =
    replace_loop (suc (length haystack)) needle replacement haystack

unfoldable pub scrub_text : HashMap Text SecretConfig → Text → Text
scrub_text [] text = text
scrub_text ((name, secret) ∷ secrets) text =
    scrub_text secrets (replace text secret.placeholder redacted)

unfoldable pub scrub_binary : HashMap Text SecretConfig → Text → Option Text
scrub_binary [] bytes = some bytes
scrub_binary ((name, secret) ∷ secrets) bytes =
    elim (replace_bytes bytes secret.placeholder redacted) [
      | none ↦ none
      | some scrubbed ↦ scrub_binary secrets scrubbed
    ]

abbrev pub no_secrets : HashMap Text SecretConfig → Bool
no_secrets [] = true
no_secrets (secret ∷ secrets) = false

pub record ScrubbingStorage : Type 0 where
  pub inner : StorageState
  pub secrets : HashMap Text SecretConfig
  pub policy : FileScrubPolicy

module _ (is_utf8 : Text → Bool) where
  unfoldable pub scrub_if_needed : ScrubbingStorage → Text → Text → Option Text
  scrub_if_needed s path bytes =
      if not (should_scrub s.policy path) || no_secrets s.secrets
      then some bytes
      else if is_utf8 bytes
      then some (scrub_text s.secrets bytes)
      else scrub_binary s.secrets bytes

  unfoldable pub write :
      ℕ → ScrubbingStorage → Text → Text → Option (ScrubbingStorage × VfsResult (Unit {0}))
  write now s path bytes = elim (scrub_if_needed s path bytes) [
    | none ↦ none
    | some scrubbed ↦
        let (inner, r) = Storage.write now s.inner path scrubbed in
        some (record s { inner = inner }, r)
  ]

  unfoldable pub write_at :
      ℕ
      → ScrubbingStorage
      → Text
      → ℕ
      → Text
      → Option (ScrubbingStorage × Outcome (VfsResult (Unit {0})))
  write_at now s path offset bytes = elim (scrub_if_needed s path bytes) [
    | none ↦ none
    | some scrubbed ↦
        let (inner, r) = Storage.write_at now s.inner path offset scrubbed in
        some (record s { inner = inner }, r)
  ]
