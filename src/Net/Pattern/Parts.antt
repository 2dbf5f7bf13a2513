-- ===== src/Net/Pattern/Parts.antt =====
-- The parts of a host pattern in crates/eryx/src/net.rs, put together again.
use eryx.Prelude.{
  ℕ, ◌≡◌, ◌≢◌, refl, ap, ◌∙◌, inl, inr, List, [], ◌∷◌, ◌++◌, nat_eq, nat_eq_iff, text_keys,
  Bool-cases, arith,
}
use eryx.Prelude.Text.{Text, to_ascii_lowercase, lower_byte}
use eryx.Net.Pattern.{star, cons_part, split_star}

-- The parts behind the first, each behind its wildcard.
unfoldable pub join_star : List Text → Text
join_star [] = []
join_star (p ∷ ps) = star ∷ (to_ascii_lowercase p ++ join_star ps)

unfoldable pub join_parts : List Text → Text
join_parts [] = []
join_parts (p ∷ ps) = to_ascii_lowercase p ++ join_star ps

join_parts-cons_part :
    (c : ℕ) (ps : List Text) → ps ≢ [] → join_parts (cons_part c ps) ≡ lower_byte c ∷ join_parts ps
unfolding join_parts
join_parts-cons_part c [] h = absurd (h refl)
join_parts-cons_part c (p ∷ ps) h = refl

cons_part-ne-nil : (c : ℕ) (ps : List Text) → cons_part c ps ≢ []
cons_part-ne-nil c [] h = ground arith
cons_part-ne-nil c (p ∷ ps) h = ground arith

join_parts_nil : join_parts ([] ∷ []) ≡ []
unfolding join_parts join_star
join_parts_nil = refl

join_parts_star : (ps : List Text) → join_parts ([] ∷ ps) ≡ join_star ps
unfolding join_parts
join_parts_star ps = refl

pub split_star-ne-nil : (s : Text) → split_star s ≢ []
unfolding split_star
split_star-ne-nil [] h = ground arith
split_star-ne-nil (c ∷ cs) h = elim (Bool-cases (nat_eq c star)) [
  | inl e ↦ ground arith
  | inr e ↦ cons_part-ne-nil c (split_star cs) (ground arith)
]

join_star_parts : (ps : List Text) → ps ≢ [] → join_star ps ≡ star ∷ join_parts ps
unfolding join_star join_parts
join_star_parts [] h = absurd (h refl)
join_star_parts (p ∷ ps) h = refl

-- The parts of a pattern, put together again.
pub join_parts-split_star : (s : Text) → join_parts (split_star s) ≡ to_ascii_lowercase s
unfolding split_star
join_parts-split_star [] = join_parts_nil
join_parts-split_star (c ∷ cs) = elim (Bool-cases (nat_eq c star)) [
  | inl e ↦
      let is_star : c ≡ star = (nat_eq_iff c star).0 e in
      rw e (
        join_parts_star (split_star cs)
        ∙ (join_star_parts (split_star cs) (split_star-ne-nil cs)
            ∙ (ap (◌∷◌ star) (join_parts-split_star cs) ∙ rw is_star)))
  | inr e ↦ rw e (
      join_parts-cons_part c (split_star cs) (split_star-ne-nil cs)
      ∙ ap (◌∷◌ (lower_byte c)) (join_parts-split_star cs))
]
