-- ===== src/Scrubbing/Termination.antt =====
-- The scrubs of crates/eryx-vfs/src/scrubbing.rs end where no placeholder is empty.
use eryx.Prelude.{
  ℕ, zero, suc, ◌<◌, ◌≡◌, refl, ◌∙◌, inl, inr, Bool, ◌||◌, not, some, [], ◌∷◌, ◌++◌, length,
  length-drop, drop, Bool-cases, arith,
}
use eryx.Prelude.HashMap.{HashMap}
use eryx.Prelude.Text.{Text, starts_with}
use eryx.Scrubbing.{
  SecretConfig, should_scrub, redacted, replace_loop, replace_bytes, scrub_text, scrub_binary,
  ScrubbingStorage, no_secrets, scrub_if_needed,
}

-- No placeholder is empty.
abbrev pub AreNonempty : HashMap Text SecretConfig → Type 0
AreNonempty [] = Unit {0}
AreNonempty ((name, secret) ∷ secrets) = (0 < length secret.placeholder) × AreNonempty secrets

replace_loop_total :
    (fuel : ℕ) (needle to h : Text)
    → 0 < length needle
    → length h < fuel
    → (out : Text) × (replace_loop fuel needle to h ≡ some out)
unfolding replace_loop
replace_loop_total zero needle to h some_bytes enough = absurd (omega arith)
replace_loop_total (suc fuel) needle to [] some_bytes enough = ([], refl)
replace_loop_total (suc fuel) needle to (c ∷ cs) some_bytes enough =
    let found =
      replace_loop_total fuel needle to (drop (length needle) (c ∷ cs)) some_bytes
        (omega (arith, length-drop (length needle) (c ∷ cs))) in
    let kept = replace_loop_total fuel needle to cs some_bytes (omega arith) in
    elim (Bool-cases (starts_with (c ∷ cs) needle)) [
      | inl e ↦ (to ++ found.0, ground (arith, found.1))
      | inr e ↦ (c ∷ kept.0, ground (arith, kept.1))
    ]

replace_bytes_total :
    (text needle : Text)
    → 0 < length needle
    → (out : Text) × (replace_bytes text needle redacted ≡ some out)
unfolding replace_bytes
replace_bytes_total text needle h =
    replace_loop_total (suc (length text)) needle redacted text h (omega arith)

pub scrub_binary-first :
    (name : Text) (secret : SecretConfig) (secrets : HashMap Text SecretConfig) (bytes out : Text)
    → replace_bytes bytes secret.placeholder redacted ≡ some out
    → scrub_binary ((name, secret) ∷ secrets) bytes ≡ scrub_binary secrets out
unfolding scrub_binary
scrub_binary-first name secret secrets bytes out e = rw (e, scrub_binary)

scrub_binary_total :
    (secrets : HashMap Text SecretConfig) (bytes : Text)
    → AreNonempty secrets
    → (out : Text) × (scrub_binary secrets bytes ≡ some out)
unfolding scrub_binary
scrub_binary_total [] bytes h = (bytes, refl)
scrub_binary_total ((name, secret) ∷ secrets) bytes h =
    let first = replace_bytes_total bytes secret.placeholder h.0 in
    let rest = scrub_binary_total secrets first.0 h.1 in
    (rest.0, scrub_binary-first name secret secrets bytes first.0 first.1 ∙ rest.1)

-- Where no placeholder is empty, the scrub of any bytes under any policy ends.
pub scrub_if_needed_total :
    (is_utf8 : Text → Bool) (s : ScrubbingStorage) (path bytes : Text)
    → AreNonempty s.secrets
    → (out : Text) × (scrub_if_needed is_utf8 s path bytes ≡ some out)
unfolding scrub_if_needed
scrub_if_needed_total is_utf8 s path bytes h =
    let binary = scrub_binary_total s.secrets bytes h in
    elim (Bool-cases (not (should_scrub s.policy path) || no_secrets s.secrets)) [
      | inl off ↦ (bytes, rw off)
      | inr on ↦ elim (Bool-cases (is_utf8 bytes)) [
        | inl e ↦ (scrub_text s.secrets bytes, rw (on, e))
        | inr e ↦ (binary.0, rw (on, e, binary.1))
      ]
    ]
