-- ===== src/Scrubbing/Clean.antt =====
-- The two scrubs of crates/eryx-vfs/src/scrubbing.rs do the same, and leave no placeholder in a file.
use eryx.Prelude.{
  ℕ, zero, suc, ◌-◌, ◌<◌, ◌≡◌, refl, sym, ap, ◌∙◌, inl, inr, Bool, true, none, some, [], ◌∷◌, ◌++◌,
  ok, length, length-drop, drop, Bool-cases, arith,
}
use eryx.Prelude.HashMap.{HashMap}
use eryx.Prelude.Text.{Text, starts_with, find}
use eryx.Vfs.Storage.{StorageState, read}
use eryx.Vfs.Storage as Storage
use eryx.Vfs.Storage.Files.{read-write}
use eryx.Net.Config as Net
use eryx.Net.Strings.{replace, replace_from}
use eryx.Secrets.{scrub_placeholders}
use eryx.Secrets.Redaction as Redaction
use eryx.Secrets.Redaction.{IsPlain, replace_nonempty, scrub_placeholders-NoneFound}
use eryx.Scrubbing.{
  SecretConfig, should_scrub, redacted, then_all, replace_loop, replace_bytes, scrub_text,
  scrub_binary, no_secrets, ScrubbingStorage, scrub_if_needed, write,
}
use eryx.Scrubbing.Termination.{AreNonempty, scrub_binary-first}

replace_from-skip :
    (q to : Text) (skip : ℕ) (text : Text)
    → replace_from q to skip text ≡ replace_from q to zero (drop skip text)
unfolding replace_from
replace_from-skip q to zero text = refl
replace_from-skip q to (suc skip) [] = refl
replace_from-skip q to (suc skip) (c ∷ cs) = replace_from-skip q to skip cs

drop_tail : (n c : ℕ) (cs : Text) → 0 < n → drop n (c ∷ cs) ≡ drop (n - 1) cs
drop_tail zero c cs h = absurd (omega arith)
drop_tail (suc n) c cs h = ap (λ m. drop m cs) (omega arith)

-- The loop over bytes does what `str::replace` does.
replace_loop-replace_from :
    (fuel : ℕ) (q to text : Text)
    → 0 < length q
    → length text < fuel
    → replace_loop fuel q to text ≡ some (replace_from q to zero text)
unfolding replace_loop replace_from
replace_loop-replace_from zero q to text h enough = absurd (omega arith)
replace_loop-replace_from (suc fuel) q to [] h enough = refl
replace_loop-replace_from (suc fuel) q to (c ∷ cs) h enough =
    let found =
      replace_loop-replace_from fuel q to (drop (length q) (c ∷ cs)) h
        (omega (arith, length-drop (length q) (c ∷ cs))) in
    let kept = replace_loop-replace_from fuel q to cs h (omega arith) in
    let skipped =
      ap (replace_from q to zero) (drop_tail (length q) c cs h)
      ∙ sym (replace_from-skip q to (length q - 1) cs) in
    elim (Bool-cases (starts_with (c ∷ cs) q)) [
      | inl e ↦ rw e (ap (then_all to) found ∙ ap (λ t. some (to ++ t)) skipped)
      | inr e ↦ rw e (ap (then_all (c ∷ [])) kept)
    ]

replace_bytes-replace :
    (text q : Text) → 0 < length q → replace_bytes text q redacted ≡ some (replace text q redacted)
unfolding replace_bytes
replace_bytes-replace text q h =
    replace_loop-replace_from (suc (length text)) q redacted text h (omega arith)
    ∙ ap some (sym (replace_nonempty text q h))

-- Where no placeholder is empty, the scrub of bytes that are not UTF-8 ends, and does what the scrub of
-- text does.
pub scrub_binary-scrub_text :
    (secrets : HashMap Text SecretConfig) (bytes : Text)
    → AreNonempty secrets
    → scrub_binary secrets bytes ≡ some (scrub_text secrets bytes)
unfolding scrub_binary scrub_text
scrub_binary-scrub_text [] bytes h = refl
scrub_binary-scrub_text ((name, secret) ∷ secrets) bytes h =
    scrub_binary-first name secret secrets bytes (replace bytes secret.placeholder redacted)
      (replace_bytes-replace bytes secret.placeholder h.0)
    ∙ scrub_binary-scrub_text secrets (replace bytes secret.placeholder redacted) h.1

-- The placeholders as secrets without a value.
abbrev valueless : HashMap Text SecretConfig → HashMap Text Net.SecretConfig
valueless [] = []
valueless ((name, secret) ∷ secrets) =
    (name, record { real_value = []; placeholder = secret.placeholder; allowed_hosts = [] })
    ∷ valueless secrets

scrub_text-scrub_placeholders :
    (secrets : HashMap Text SecretConfig) (text : Text)
    → scrub_text secrets text ≡ scrub_placeholders text (valueless secrets)
unfolding scrub_text scrub_placeholders
scrub_text-scrub_placeholders [] text = refl
scrub_text-scrub_placeholders ((name, secret) ∷ secrets) text =
    scrub_text-scrub_placeholders secrets (replace text secret.placeholder redacted)

abbrev pub ArePlain : HashMap Text SecretConfig → Type 0
ArePlain [] = Unit {0}
ArePlain ((name, secret) ∷ secrets) = IsPlain secret.placeholder × ArePlain secrets

abbrev pub NoneFound : HashMap Text SecretConfig → Text → Type 0
NoneFound [] text = Unit {0}
NoneFound ((name, secret) ∷ secrets) text =
    (find text secret.placeholder ≡ none) × NoneFound secrets text

ArePlain-valueless :
    (secrets : HashMap Text SecretConfig)
    → ArePlain secrets
    → Redaction.ArePlain (valueless secrets)
ArePlain-valueless [] h = tt
ArePlain-valueless ((name, secret) ∷ secrets) h = (h.0, ArePlain-valueless secrets h.1)

NoneFound-valueless :
    (secrets : HashMap Text SecretConfig) (text : Text)
    → Redaction.NoneFound (valueless secrets) text
    → NoneFound secrets text
NoneFound-valueless [] text h = tt
NoneFound-valueless ((name, secret) ∷ secrets) text h = (h.0, NoneFound-valueless secrets text h.1)

scrub_text-NoneFound :
    (secrets : HashMap Text SecretConfig) (text : Text)
    → ArePlain secrets
    → NoneFound secrets (scrub_text secrets text)
scrub_text-NoneFound secrets text h = rw (scrub_text-scrub_placeholders secrets text) (
    NoneFound-valueless secrets (scrub_placeholders text (valueless secrets))
      (scrub_placeholders-NoneFound text (valueless secrets) (ArePlain-valueless secrets h)))

ArePlain-AreNonempty :
    (secrets : HashMap Text SecretConfig) → ArePlain secrets → AreNonempty secrets
ArePlain-AreNonempty [] h = tt
ArePlain-AreNonempty ((name, secret) ∷ secrets) h = (h.0.nonempty, ArePlain-AreNonempty secrets h.1)

no_secrets-scrub_text :
    (secrets : HashMap Text SecretConfig) (bytes : Text)
    → no_secrets secrets ≡ true
    → scrub_text secrets bytes ≡ bytes
unfolding scrub_text
no_secrets-scrub_text [] bytes h = refl
no_secrets-scrub_text (secret ∷ secrets) bytes h = ground arith

module _ (now : ℕ) (is_utf8 : Text → Bool) (s : ScrubbingStorage) (path bytes : Text) where
  scrub_if_needed_on :
      should_scrub s.policy path ≡ true
      → AreNonempty s.secrets
      → scrub_if_needed is_utf8 s path bytes ≡ some (scrub_text s.secrets bytes)
  unfolding scrub_if_needed
  scrub_if_needed_on on h =
      ground
        (arith, scrub_binary-scrub_text s.secrets bytes h, no_secrets-scrub_text s.secrets bytes)

  -- The file that a write leaves on the storage below.
  abbrev pub after : StorageState
  after = (Storage.write now s.inner path (scrub_text s.secrets bytes)).0

  -- Where the policy scrubs the path, the placeholders are plain and the storage below takes the write
  -- of the scrubbed bytes, the write of any bytes, UTF-8 or not, ends and succeeds, and what is read
  -- back from the path holds no placeholder.
  pub write-NoneFound :
      should_scrub s.policy path ≡ true
      → ArePlain s.secrets
      → (Storage.write now s.inner path (scrub_text s.secrets bytes)).1 ≡ ok tt
      → (write is_utf8 now s path bytes ≡ some (record s { inner = after }, ok tt))
        × (content : Text) × (read after path ≡ ok content)
        × NoneFound s.secrets content
  unfolding write
  write-NoneFound on plain done =
      let scrubbed = scrub_if_needed_on on (ArePlain-AreNonempty s.secrets plain) in
      (
        rw (scrubbed, write) (ap (λ r. some (record s { inner = after }, r)) done),
        scrub_text s.secrets bytes,
        (read-write now s.inner path (scrub_text s.secrets bytes) done).0,
        scrub_text-NoneFound s.secrets bytes plain,
      )
