-- ===== src/Secrets/Examples.antt =====
-- Placeholders and their scrub in crates/eryx/src/secrets.rs at concrete inputs.
use eryx.Prelude.{◌≡◌, refl, [], ◌∷◌, ◌++◌}
use eryx.Prelude.HashMap.{HashMap}
use eryx.Prelude.Text.{Text, codes, starts_with}
use eryx.Net.Config.{SecretConfig}
use eryx.Net.Strings.{replace, replace_from}
use eryx.Secrets.{generate_placeholder, scrub_placeholders}
use eryx.Secrets.Redaction.{
  IsPlain, NoneFound, generate_placeholder-IsPlain, scrub_placeholders-NoneFound,
}

abbrev first : Text
first = generate_placeholder (codes "0af3")

abbrev second : Text
second = generate_placeholder (codes "9c")

abbrev secrets : HashMap Text SecretConfig
secrets =
    (codes "key", record { real_value = codes "sk"; placeholder = first; allowed_hosts = [] })
    ∷ (codes "other", record { real_value = codes "pw"; placeholder = second; allowed_hosts = [] })
    ∷ []

first-IsPlain : IsPlain first
first-IsPlain = generate_placeholder-IsPlain (codes "0af3") (refl, (refl, (refl, (refl, tt))))

second-IsPlain : IsPlain second
second-IsPlain = generate_placeholder-IsPlain (codes "9c") (refl, (refl, tt))

abbrev shown : Text
shown = codes "a" ++ first ++ second ++ codes "b"

scrubbed : scrub_placeholders shown secrets ≡ codes "a[REDACTED][REDACTED]b"
unfolding scrub_placeholders replace replace_from starts_with generate_placeholder
scrubbed = refl

scrub_placeholders-NoneFound_example : NoneFound secrets (scrub_placeholders shown secrets)
scrub_placeholders-NoneFound_example =
    scrub_placeholders-NoneFound shown secrets (first-IsPlain, (second-IsPlain, tt))
