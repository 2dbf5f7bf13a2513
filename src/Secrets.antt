-- ===== src/Secrets.antt =====
-- The placeholders of secrets in crates/eryx/src/secrets.rs: how they are made, the scrub policies, and
-- the scrub of text. The hex digits of the random bytes are an argument.
pub mod Redaction
mod Examples
use eryx.Prelude.{Bool, true, false, List, [], ◌∷◌, ◌++◌}
use eryx.Prelude.HashMap.{HashMap}
use eryx.Prelude.Text.{Text, codes}
use eryx.Net.Config.{SecretConfig}
use eryx.Net.Strings.{replace}

pub data FileScrubPolicy : Type 0 where
  all : FileScrubPolicy
  keep : FileScrubPolicy
  except : List Text → FileScrubPolicy
  only : List Text → FileScrubPolicy

pub data OutputScrubPolicy : Type 0 where
  all_output : OutputScrubPolicy
  keep_output : OutputScrubPolicy

unfoldable pub file_policy_from : Bool → FileScrubPolicy
file_policy_from true = FileScrubPolicy.all
file_policy_from false = keep

unfoldable pub output_policy_from : Bool → OutputScrubPolicy
output_policy_from true = all_output
output_policy_from false = keep_output

abbrev pub prefix : Text
prefix = codes "ERYX_SECRET_PLACEHOLDER_"

unfoldable pub generate_placeholder : Text → Text
generate_placeholder hex = prefix ++ hex

abbrev pub redacted : Text
redacted = codes "[REDACTED]"

unfoldable pub scrub_placeholders : Text → HashMap Text SecretConfig → Text
scrub_placeholders text [] = text
scrub_placeholders text ((name, secret) ∷ secrets) =
    scrub_placeholders (replace text secret.placeholder redacted) secrets
