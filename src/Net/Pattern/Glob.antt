-- ===== src/Net/Pattern/Glob.antt =====
-- `host_matches_pattern` of crates/eryx/src/net.rs against what a pattern with wildcards means.
use eryx.Prelude.{
  drop_all, drop-drop, ℕ, zero, suc, ◌+◌, ◌≡◌, ◌≢◌, refl, sym, ap, ◌∙◌, subst, inl, inr, true,
  false, ◌&&◌, not, some, List, [], ◌∷◌, ◌++◌, ◌==◌, eq_iff, nat_eq, text_keys, length, length-map,
  take, drop, Bool-cases, Option-cases, arith,
}
use mathlib.Core.List.{append-nil}
use eryx.Prelude.Text.{Text, codes, find, find_split, to_ascii_lowercase, lower_byte}
use eryx.Net.Pattern.{
  star, has_star, cons_part, split_star, is_nil, match_parts, ends_literal, glob_matches,
  host_matches_pattern,
}
use eryx.Net.Pattern.Parts.{join_star, join_parts, split_star-ne-nil, join_parts-split_star}

-- A pattern and a text: `*` stands for any run of bytes, every other byte for itself.
pub data Glob : Text → Text → Type 0 where
  end : Glob [] []
  byte : (c : ℕ) {p s : Text} → Glob p s → Glob (c ∷ p) (c ∷ s)
  wild : (skipped : Text) {p s : Text} → Glob p s → Glob (star ∷ p) (skipped ++ s)

Glob-append : (t : Text) {p s : Text} → Glob p s → Glob (t ++ p) (t ++ s)
Glob-append [] g = g
Glob-append (c ∷ t) g = Glob.byte c (Glob-append t g)

Glob-self : (t : Text) → Glob t t
Glob-self [] = Glob.end
Glob-self (c ∷ t) = Glob.byte c (Glob-self t)

module _ (h : Text) where
  drop_whole : (n : ℕ) → n ≡ length h → drop n h ≡ []
  drop_whole n e = drop_all n h (omega arith)

  match_none : (i pos : ℕ) {out : ℕ} → match_parts h i pos [] ≡ some out → pos ≡ out
  unfolding match_parts
  match_none i pos e = ground arith

  -- What a part takes from the text.
  chunk :
      (pos idx : ℕ) (part : Text)
      → find (drop pos h) (to_ascii_lowercase part) ≡ some idx
      → take idx (drop pos h) ++ (to_ascii_lowercase part ++ drop (pos + idx + length part) h)
        ≡ drop pos h
  chunk pos idx part e =
      let lowered = to_ascii_lowercase part in
      let tail : drop (length lowered) (drop idx (drop pos h)) ≡ drop (pos + idx + length part) h =
        ap (λ k. drop k (drop idx (drop pos h))) (length-map part lower_byte)
        ∙ (drop-drop (length part) idx (drop pos h)
            ∙ (drop-drop (idx + length part) pos h ∙ ap (λ k. drop k h) (omega arith))) in
      ap (λ t. take idx (drop pos h) ++ (lowered ++ t)) (sym tail)
      ∙ find_split (drop pos h) lowered idx e

  found_part :
      (i pos : ℕ) (part : Text) (parts : List Text) {out : ℕ}
      → is_nil part ≡ false
      → match_parts h i pos (part ∷ parts) ≡ some out
      → (idx : ℕ) × (find (drop pos h) (to_ascii_lowercase part) ≡ some idx)
        × ((nat_eq i zero && not (nat_eq idx zero)) ≡ false)
        × (match_parts h (suc i) (pos + idx + length part) parts ≡ some out)
  unfolding match_parts
  found_part i pos part parts {out} named e =
      elim (Option-cases (find (drop pos h) (to_ascii_lowercase part))) [
        | inl f ↦ absurd (ground arith)
        | inr (idx, f) ↦ (idx, f, ground arith, ground arith)
      ]

  skipped_part :
      (i pos : ℕ) (parts : List Text)
      → match_parts h i pos ([] ∷ parts) ≡ match_parts h (suc i) pos parts
  unfolding match_parts
  skipped_part i pos parts = refl

  -- A found part is a wildcard and the part.
  wild_part :
      (pos idx : ℕ) (part t : Text)
      → find (drop pos h) (to_ascii_lowercase part) ≡ some idx
      → Glob t (drop (pos + idx + length part) h)
      → Glob (star ∷ (to_ascii_lowercase part ++ t)) (drop pos h)
  wild_part pos idx part t e g =
      subst (Glob (star ∷ (to_ascii_lowercase part ++ t))) (chunk pos idx part e)
        (Glob.wild (take idx (drop pos h)) (Glob-append (to_ascii_lowercase part) g))

  rest_Glob :
      (parts : List Text) (i pos out : ℕ)
      → parts ≢ []
      → match_parts h (suc i) pos parts ≡ some out
      → (ends_literal parts ≡ true → out ≡ length h)
      → Glob (join_star parts) (drop pos h)
  unfolding join_star
  rest_Glob [] i pos out ne e ends = absurd (ne refl)
  rest_Glob ([] ∷ []) i pos out ne e ends =
      subst (Glob (star ∷ [])) (append-nil (drop pos h)) (Glob.wild (drop pos h) Glob.end)
  rest_Glob ((c ∷ part) ∷ []) i pos out ne e ends =
      let f = found_part (suc i) pos (c ∷ part) [] refl e in
      let whole : pos + f.0 + length (c ∷ part) ≡ length h =
        match_none (suc (suc i)) (pos + f.0 + length (c ∷ part)) f.3 ∙ ends refl in
      wild_part pos f.0 (c ∷ part) [] f.1
        (subst (Glob []) (sym (drop_whole (pos + f.0 + length (c ∷ part)) whole)) Glob.end)
  rest_Glob ([] ∷ q ∷ parts) i pos out ne e ends = Glob.wild [] (
      rest_Glob (q ∷ parts) (suc i) pos out (λ x. ground arith)
        (sym (skipped_part (suc i) pos (q ∷ parts)) ∙ e) ends)
  rest_Glob ((c ∷ part) ∷ q ∷ parts) i pos out ne e ends =
      let f = found_part (suc i) pos (c ∷ part) (q ∷ parts) refl e in
      wild_part pos f.0 (c ∷ part) (join_star (q ∷ parts)) f.1 (
        rest_Glob (q ∷ parts) (suc i) (pos + f.0 + length (c ∷ part)) out (λ x. ground arith) f.3
          ends)

  -- The first part has no wildcard before it.
  first_part :
      (part t : Text)
      → find h (to_ascii_lowercase part) ≡ some zero
      → Glob t (drop (length part) h)
      → Glob (to_ascii_lowercase part ++ t) h
  first_part part t e g =
      subst (Glob (to_ascii_lowercase part ++ t)) (chunk zero zero part e)
        (Glob-append (to_ascii_lowercase part) (subst (λ k. Glob t (drop k h)) (omega arith) g))

  parts_Glob :
      (parts : List Text) (out : ℕ)
      → parts ≢ []
      → parts ≢ [] ∷ []
      → match_parts h zero zero parts ≡ some out
      → (ends_literal parts ≡ true → out ≡ length h)
      → Glob (join_parts parts) h
  unfolding join_parts join_star
  parts_Glob [] out ne nl e ends = absurd (ne refl)
  parts_Glob ([] ∷ []) out ne nl e ends = absurd (nl refl)
  parts_Glob ([] ∷ q ∷ parts) out ne nl e ends =
      rest_Glob (q ∷ parts) zero zero out (λ x. ground arith)
        (sym (skipped_part zero zero (q ∷ parts)) ∙ e) ends
  parts_Glob ((c ∷ part) ∷ []) out ne nl e ends =
      let f = found_part zero zero (c ∷ part) [] refl e in
      let first : f.0 ≡ zero = ground (arith, f.2) in
      let whole = match_none (suc zero) (zero + f.0 + length (c ∷ part)) f.3 ∙ ends refl in
      first_part (c ∷ part) [] (f.1 ∙ ap some first)
        (subst (Glob []) (sym (drop_whole (length (c ∷ part)) (omega arith))) Glob.end)
  parts_Glob ((c ∷ part) ∷ q ∷ parts) out ne nl e ends =
      let f = found_part zero zero (c ∷ part) (q ∷ parts) refl e in
      let first : f.0 ≡ zero = ground (arith, f.2) in
      let place : zero + f.0 + length (c ∷ part) ≡ length (c ∷ part) = omega arith in
      first_part (c ∷ part) (join_star (q ∷ parts)) (f.1 ∙ ap some first) (
        subst (λ k. Glob (join_star (q ∷ parts)) (drop k h)) place
          (rest_Glob (q ∷ parts) zero (zero + f.0 + length (c ∷ part)) out (λ x. ground arith) f.3
            ends))

cons_part-two : (c : ℕ) (ps : List Text) → cons_part c ps ≢ [] ∷ []
cons_part-two c [] h = ground arith
cons_part-two c (p ∷ ps) h = ground arith

split_star-ne-one : (s : Text) → has_star s ≡ true → split_star s ≢ [] ∷ []
unfolding split_star
split_star-ne-one [] h e = ground arith
split_star-ne-one (c ∷ cs) h e = elim (Bool-cases (nat_eq c star)) [
  | inl f ↦ split_star-ne-nil cs (ground arith)
  | inr f ↦ cons_part-two c (split_star cs) (ground arith)
]

glob_matches-ends :
    (host : Text) (parts : List Text)
    → glob_matches host parts ≡ true
    → (out : ℕ) × (match_parts (to_ascii_lowercase host) zero zero parts ≡ some out)
      × (ends_literal parts ≡ true → out ≡ length (to_ascii_lowercase host))
unfolding glob_matches
glob_matches-ends host parts h =
    elim (Option-cases (match_parts (to_ascii_lowercase host) zero zero parts)) [
      | inl e ↦ absurd (ground arith)
      | inr (out, e) ↦ (out, e, λ literal. ground (arith, length-map host lower_byte))
    ]

glob_matches-Glob :
    (host pattern : Text)
    → has_star pattern ≡ true
    → glob_matches host (split_star pattern) ≡ true
    → Glob (to_ascii_lowercase pattern) (to_ascii_lowercase host)
glob_matches-Glob host pattern starred h =
    let m = glob_matches-ends host (split_star pattern) h in
    subst (λ p. Glob p (to_ascii_lowercase host)) (join_parts-split_star pattern)
      (parts_Glob (to_ascii_lowercase host) (split_star pattern) m.0 (split_star-ne-nil pattern)
        (split_star-ne-one pattern starred) m.1 m.2)

-- A host that a pattern is said to match is matched by it: in lower case, the host is the pattern
-- with some run of bytes for each `*`.
pub host_matches_pattern-Glob :
    (host pattern : Text)
    → host_matches_pattern host pattern ≡ true
    → Glob (to_ascii_lowercase pattern) (to_ascii_lowercase host)
unfolding host_matches_pattern
host_matches_pattern-Glob host pattern h = elim (Bool-cases (pattern == codes "*")) [
  | inl e ↦
      let same : codes "*" ≡ pattern = sym ((eq_iff pattern (codes "*")).0 e) in
      subst (λ p. Glob (to_ascii_lowercase p) (to_ascii_lowercase host)) same
        (subst (Glob (star ∷ [])) (append-nil (to_ascii_lowercase host))
          (Glob.wild (to_ascii_lowercase host) Glob.end))
  | inr e ↦ elim (Bool-cases (has_star pattern)) [
    | inl f ↦ glob_matches-Glob host pattern f (ground arith)
    | inr f ↦
        let same : to_ascii_lowercase host ≡ to_ascii_lowercase pattern =
          (eq_iff (to_ascii_lowercase host) (to_ascii_lowercase pattern)).0 (ground arith) in
        subst (Glob (to_ascii_lowercase pattern)) (sym same)
          (Glob-self (to_ascii_lowercase pattern))
  ]
]
