-- ===== src/Prelude/Text.antt =====
-- Text as the list of its UTF-8 bytes.
use Prim.Native.Char.{code}
use Prim.Native.String.{String}
use Prim.Native.Nat.{ℕ, zero, suc, ◌+◌}
use mathlib.Core.List.{List, [], ◌∷◌, ◌++◌, map}
use mathlib.Core.Path.{◌≡◌, refl, ap}
use mathlib.Core.Bool.{Bool, true, false, ◌&&◌}
use mathlib.Core.Option.{Option, none, some}
use native.Mathlib.Omega.{arith}
use eryx.Prelude.Tests.{if◌then◌else◌, nat_eq, leb, is_some}
use eryx.Prelude.Lists.{length, take, drop}

abbrev pub Text : Type 0
Text = List ℕ

-- The bytes of an ASCII literal.
abbrev pub codes : String → Text
codes String.[] = []
codes (String.◌∷◌ c s) = code c ∷ codes s

-- `str::starts_with`
unfoldable pub starts_with : Text → Text → Bool
starts_with s [] = true
starts_with [] (p ∷ ps) = false
starts_with (c ∷ cs) (p ∷ ps) = let rest = starts_with cs ps in if nat_eq c p then rest else false

-- `str::find` of a text: the first place where it stands.
unfoldable pub find : Text → Text → Option ℕ
find [] p = if starts_with [] p then some 0 else none
find (c ∷ cs) p =
    let here = starts_with (c ∷ cs) p in
    let later : Option ℕ = elim (find cs p) [ none ↦ none | some i ↦ some (suc i) ] in
    if here then some 0 else later

abbrev pub contains_text : Text → Text → Bool
contains_text s p = is_some (find s p)

-- `to_ascii_lowercase`
abbrev pub lower_byte : ℕ → ℕ
lower_byte c = if leb b'A' c && leb c b'Z' then c + 32 else c

abbrev pub to_ascii_lowercase : Text → Text
to_ascii_lowercase s = map lower_byte s

starts_with-append_drop : (s p : Text) → starts_with s p ≡ true → p ++ drop (length p) s ≡ s
unfolding starts_with
starts_with-append_drop s [] h = refl
starts_with-append_drop [] (c ∷ p) h = ground arith
starts_with-append_drop (d ∷ s) (c ∷ p) h = ground (arith, starts_with-append_drop s p)

-- The text before the place, the found text, and what follows it.
pub find_split :
    (s p : Text) (i : ℕ) → find s p ≡ some i → take i s ++ (p ++ drop (length p) (drop i s)) ≡ s
unfolding find
find_split [] p zero h = starts_with-append_drop [] p (ground arith)
find_split [] p (suc i) h = absurd (ground arith)
find_split (c ∷ cs) p zero h = starts_with-append_drop (c ∷ cs) p (ground arith)
find_split (c ∷ cs) p (suc i) h = ap (◌∷◌ c) (find_split cs p i (ground arith))
