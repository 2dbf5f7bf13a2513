-- ===== src/Secrets/Redaction.antt =====
-- No placeholder is left in a text that `scrub_placeholders` of crates/eryx/src/secrets.rs has scrubbed.
use eryx.Prelude.{
  ℕ, zero, suc, ◌-◌, ◌<◌, ◌≡◌, refl, sym, ◌∙◌, ◌⊎◌, inl, inr, Bool, true, false, ◌||◌, ◌&&◌, none,
  [], ◌∷◌, ◌++◌, nat_eq, leb, length, length-append, Bool-cases, if_rule, subst, arith,
}
use eryx.Prelude.HashMap.{HashMap}
use eryx.Prelude.Text.{Text, codes, starts_with, find}
use eryx.Net.Config.{SecretConfig}
use eryx.Net.Strings.{replace, replace_from}
use eryx.Secrets.{redacted, scrub_placeholders, prefix, generate_placeholder}

abbrev pub has : ℕ → Text → Bool
has c [] = false
has c (d ∷ ds) = nat_eq c d || has c ds

-- The text stands nowhere.
abbrev pub Absent : Text → Text → Type 0
Absent p [] = starts_with [] p ≡ false
Absent p (c ∷ cs) = (starts_with (c ∷ cs) p ≡ false) × Absent p cs

-- A placeholder that the replacement text can neither hold nor make a part of.
pub record IsPlain (p : Text) : Type 0 where
  pub nonempty : 0 < length p
  pub no_open : has b'[' p ≡ false
  pub no_close : has b']' p ≡ false
  pub apart : Absent p redacted

Absent-find : (p text : Text) → Absent p text → find text p ≡ none
unfolding find
Absent-find p [] h = ground arith
Absent-find p (c ∷ cs) h = ground (arith, Absent-find p cs)

-- What follows a closing bracket does not matter to a text without one.
starts_with_close :
    (front rest p : Text)
    → has b']' p ≡ false
    → starts_with (front ++ b']' ∷ rest) p ≡ starts_with (front ++ b']' ∷ []) p
unfolding starts_with
starts_with_close [] rest [] h = refl
starts_with_close [] rest (c ∷ p) h = ground arith
starts_with_close (d ∷ front) rest [] h = refl
starts_with_close (d ∷ front) rest (c ∷ p) h = ground (arith, starts_with_close front rest p)

Absent-append :
    (p front rest : Text)
    → has b']' p ≡ false
    → Absent p (front ++ b']' ∷ [])
    → Absent p rest
    → Absent p (front ++ b']' ∷ rest)
Absent-append p [] rest h f r = (starts_with_close [] rest p h ∙ f.0, r)
Absent-append p (d ∷ front) rest h f r =
    (starts_with_close (d ∷ front) rest p h ∙ f.0, Absent-append p front rest h f.1 r)

-- What stands at the start of a text after the replacement stood there before, if it has no opening
-- bracket.
starts_with-replace_from :
    (q text p : Text)
    → has b'[' p ≡ false
    → starts_with (replace_from q redacted zero text) p ≡ true
    → starts_with text p ≡ true
unfolding starts_with replace_from
starts_with-replace_from q [] p h s = s
starts_with-replace_from q (c ∷ cs) [] h s = refl
starts_with-replace_from q (c ∷ cs) (d ∷ p) h s = ground (arith, starts_with-replace_from q cs p)

starts_with_kept :
    (q p : Text) (c : ℕ) (cs : Text)
    → has b'[' p ≡ false
    → starts_with (c ∷ replace_from q redacted zero cs) p ≡ true
    → starts_with (c ∷ cs) p ≡ true
unfolding starts_with
starts_with_kept q [] c cs h s = refl
starts_with_kept q (d ∷ p) c cs h s = ground (arith, starts_with-replace_from q cs p)

starts_with_empty : (p : Text) → 0 < length p → starts_with [] p ≡ false
unfolding starts_with
starts_with_empty [] h = absurd (omega arith)
starts_with_empty (c ∷ p) h = refl

module _ (p q : Text) (plain : IsPlain p) where
  kept :
      (c : ℕ) (cs : Text)
      → starts_with (c ∷ cs) p ≡ false
      → starts_with (c ∷ replace_from q redacted zero cs) p ≡ false
  kept c cs h = elim (Bool-cases (starts_with (c ∷ replace_from q redacted zero cs) p)) [
    | inl e ↦ cc (starts_with_kept q p c cs plain.no_open e)
    | inr e ↦ e
  ]

  -- The replacement in front of a text.
  replaced : (rest : Text) → Absent p rest → Absent p (redacted ++ rest)
  replaced rest h = Absent-append p (codes "[REDACTED") rest plain.no_close plain.apart h

  -- A text without the placeholder has none after another was replaced.
  replace_from-Absent :
      (skip : ℕ) (text : Text) → Absent p text → Absent p (replace_from q redacted skip text)
  unfolding replace_from
  replace_from-Absent skip [] h = h
  replace_from-Absent (suc skip) (c ∷ cs) h = replace_from-Absent skip cs h.1
  replace_from-Absent zero (c ∷ cs) h =
      if_rule (Absent p) (starts_with (c ∷ cs) q) _ _
        (λ _. replaced _ (replace_from-Absent (length q - 1) cs h.1))
        (λ _. (kept c cs h.0, replace_from-Absent zero cs h.1))

-- Where it was replaced itself, it is gone.
replace_from_removes :
    (p : Text) (plain : IsPlain p) (skip : ℕ) (text : Text)
    → Absent p (replace_from p redacted skip text)
unfolding replace_from
replace_from_removes p plain skip [] = starts_with_empty p plain.nonempty
replace_from_removes p plain (suc skip) (c ∷ cs) = replace_from_removes p plain skip cs
replace_from_removes p plain zero (c ∷ cs) =
    if_rule (Absent p) (starts_with (c ∷ cs) p) _ _
      (λ _. replaced p p plain _ (replace_from_removes p plain (length p - 1) cs))
      (λ absent. (kept p p plain c cs absent, replace_from_removes p plain zero cs))

pub replace_nonempty :
    (text q : Text) → 0 < length q → replace text q redacted ≡ replace_from q redacted zero text
unfolding replace
replace_nonempty text [] h = absurd (omega arith)
replace_nonempty text (c ∷ q) h = refl

abbrev pub ArePlain : HashMap Text SecretConfig → Type 0
ArePlain [] = Unit {0}
ArePlain ((name, secret) ∷ secrets) = IsPlain secret.placeholder × ArePlain secrets

-- No placeholder is found in the text.
abbrev pub NoneFound : HashMap Text SecretConfig → Text → Type 0
NoneFound [] text = Unit {0}
NoneFound ((name, secret) ∷ secrets) text =
    (find text secret.placeholder ≡ none) × NoneFound secrets text

scrub_placeholders-Absent :
    (secrets : HashMap Text SecretConfig) (p text : Text)
    → IsPlain p
    → ArePlain secrets
    → Absent p text
    → Absent p (scrub_placeholders text secrets)
unfolding scrub_placeholders
scrub_placeholders-Absent [] p text plain all h = h
scrub_placeholders-Absent ((name, secret) ∷ secrets) p text plain all h =
    let q = secret.placeholder in
    scrub_placeholders-Absent secrets p (replace text q redacted) plain all.1 (
      subst (Absent p) (sym (replace_nonempty text q all.0.nonempty))
        (replace_from-Absent p q plain zero text h))

-- Where the placeholders are plain, none of them is found in a text that was scrubbed, whatever the text
-- and however the placeholders follow one another.
pub scrub_placeholders-NoneFound :
    (text : Text) (secrets : HashMap Text SecretConfig)
    → ArePlain secrets
    → NoneFound secrets (scrub_placeholders text secrets)
unfolding scrub_placeholders
scrub_placeholders-NoneFound text [] all = tt
scrub_placeholders-NoneFound text ((name, secret) ∷ secrets) all =
    let p = secret.placeholder in
    let gone : Absent p (replace text p redacted) =
      subst (Absent p) (sym (replace_nonempty text p all.0.nonempty))
        (replace_from_removes p all.0 zero text) in
    (
      Absent-find p (scrub_placeholders (replace text p redacted) secrets)
          (scrub_placeholders-Absent secrets p (replace text p redacted) all.0 all.1 gone),
      scrub_placeholders-NoneFound (replace text p redacted) secrets all.1,
    )

-- Lower-case hex digits.
abbrev pub IsHex : Text → Type 0
IsHex [] = Unit {0}
IsHex (c ∷ cs) = (((leb b'0' c && leb c b'9') || (leb b'a' c && leb c b'f')) ≡ true) × IsHex cs

hex_has : (c : ℕ) (hex : Text) → IsHex hex → (c ≡ b'[') ⊎ (c ≡ b']') → has c hex ≡ false
hex_has c [] h e = refl
hex_has c (d ∷ ds) h e = ground (arith, hex_has c ds h.1 e)

has-append : (c : ℕ) (a b : Text) → has c (a ++ b) ≡ (has c a || has c b)
has-append c [] b = refl
has-append c (d ∷ a) b = ground (arith, has-append c a b)

starts_with_longer : (text p : Text) → length text < length p → starts_with text p ≡ false
unfolding starts_with
starts_with_longer text [] h = absurd (omega arith)
starts_with_longer [] (c ∷ p) h = refl
starts_with_longer (d ∷ text) (c ∷ p) h = ground (arith, starts_with_longer text p (omega arith))

Absent-longer : (p text : Text) → length text < length p → Absent p text
Absent-longer p [] h = starts_with_longer [] p h
Absent-longer p (c ∷ cs) h = (starts_with_longer (c ∷ cs) p h, Absent-longer p cs (omega arith))

-- A placeholder that is made of hex digits is plain.
pub generate_placeholder-IsPlain : (hex : Text) → IsHex hex → IsPlain (generate_placeholder hex)
unfolding generate_placeholder
generate_placeholder-IsPlain hex h =
    let size = length-append prefix hex in
    record {
      nonempty = omega (arith, size);
      no_open = has-append b'[' prefix hex ∙ hex_has b'[' hex h (inl refl);
      no_close = has-append b']' prefix hex ∙ hex_has b']' hex h (inr refl);
      apart = Absent-longer (prefix ++ hex) redacted (omega (arith, size));
    }
