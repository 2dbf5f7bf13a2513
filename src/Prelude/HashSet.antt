-- ===== src/Prelude/HashSet.antt =====
-- `HashSet<K>` as a list, in the order of its iteration.
use mathlib.Core.Path.{◌≡◌}
use mathlib.Core.List.{List, [], ◌∷◌}
use mathlib.Core.Bool.{Bool, false, ◌||◌}
use native.Mathlib.Omega.{arith}
use eryx.Prelude.Tests.{if◌then◌else◌}
use eryx.Prelude.Keys.{PartialEq, ◌==◌, eq_iff}

abbrev pub HashSet {ℓ} : Type ℓ → Type ℓ
HashSet K = List K

module _ {ℓ} {K : Type ℓ} ⦃e : PartialEq K⦄ where
  unfoldable pub contains : HashSet K → K → Bool
  contains [] k = false
  contains (j ∷ s) k = j == k || contains s k

  unfoldable pub remove : HashSet K → K → HashSet K
  remove [] k = []
  remove (j ∷ s) k = let rest = remove s k in if j == k then rest else j ∷ rest

  unfoldable pub insert : HashSet K → K → HashSet K
  insert s k = if contains s k then s else k ∷ s

  pub contains-remove :
      (s : HashSet K) (k j : K) → contains (remove s k) j ≡ (if k == j then false else contains s j)
  unfolding contains remove
  contains-remove [] k j = ground arith
  contains-remove (i ∷ s) k j =
      ground (arith, contains-remove s k j, eq_iff i k, eq_iff i j, eq_iff k j)

  pub contains-insert :
      (s : HashSet K) (k j : K) → contains (insert s k) j ≡ (k == j || contains s j)
  unfolding contains insert
  contains-insert s k j = ground (arith, eq_iff k j)
