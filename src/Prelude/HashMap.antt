-- ===== src/Prelude/HashMap.antt =====
-- `HashMap<K, V>` as an association list. Iteration goes in the order of the list; the order that
-- the real table would give is not modelled, and no theorem depends on it.
use mathlib.Core.Path.{◌≡◌, refl}
use mathlib.Core.List.{List, [], ◌∷◌}
use mathlib.Core.Option.{Option, none, some}
use mathlib.Core.Bool.{Bool, false}
use Prim.Native.Nat.{◌+◌}
use native.Mathlib.Omega.{arith}
use eryx.Prelude.Tests.{if◌then◌else◌, is_some}
use eryx.Prelude.Keys.{PartialEq, ◌==◌, eq_iff, eq_self}
use eryx.Prelude.Lists.{length}

abbrev pub HashMap {ℓ κ} : Type ℓ → Type κ → Type (ℓ ⊔ κ)
HashMap K V = List (K × V)

module _ {ℓ κ} {K : Type ℓ} {V : Type κ} ⦃e : PartialEq K⦄ where
  unfoldable pub get : HashMap K V → K → Option V
  get [] k = none
  get ((j, v) ∷ m) k = if j == k then some v else get m k

  unfoldable pub remove : HashMap K V → K → HashMap K V
  remove [] k = []
  remove ((j, v) ∷ m) k = let rest = remove m k in if j == k then rest else (j, v) ∷ rest

  unfoldable pub insert : HashMap K V → K → V → HashMap K V
  insert m k v = (k, v) ∷ remove m k

  abbrev pub contains_key : HashMap K V → K → Bool
  contains_key m k = is_some (get m k)

  pub get-remove :
      (m : HashMap K V) (k j : K) → get (remove m k) j ≡ (if k == j then none else get m j)
  unfolding get remove
  get-remove [] k j = ground arith
  get-remove ((i, v) ∷ m) k j = ground (arith, get-remove m k j, eq_iff i k, eq_iff i j, eq_iff k j)

  pub get-insert :
      (m : HashMap K V) (k j : K) (v : V)
      → get (insert m k v) j ≡ (if k == j then some v else get m j)
  unfolding get insert
  get-insert m k j v = ground (arith, get-remove m k j)

  -- No key stands twice.
  abbrev pub IsUnique : HashMap K V → Type 0
  IsUnique [] = Unit {0}
  IsUnique ((k, v) ∷ m) = (contains_key m k ≡ false) × IsUnique m

  pub remove-IsUnique : (m : HashMap K V) (k : K) → IsUnique m → IsUnique (remove m k)
  unfolding remove
  remove-IsUnique [] k u = tt
  remove-IsUnique ((j, v) ∷ m) k u = ground (arith, remove-IsUnique m k u.1, get-remove m k j)

  pub insert-IsUnique : (m : HashMap K V) (k : K) (v : V) → IsUnique m → IsUnique (insert m k v)
  unfolding insert
  insert-IsUnique m k v u = ground (arith, remove-IsUnique m k u, get-remove m k k, eq_self k)

  remove_missing : (m : HashMap K V) (k : K) → get m k ≡ none → remove m k ≡ m
  unfolding get remove
  remove_missing [] k h = refl
  remove_missing ((j, v) ∷ m) k h = ground (arith, remove_missing m k)

  -- `len()` before and after a removal.
  pub length-remove :
      (m : HashMap K V) (k : K)
      → IsUnique m
      → length m ≡ length (remove m k) + (if is_some (get m k) then 1 else 0)
  unfolding get remove
  length-remove [] k u = omega arith
  length-remove ((j, v) ∷ m) k u =
      ground (arith, length-remove m k u.1, remove_missing m k, eq_iff j k)
