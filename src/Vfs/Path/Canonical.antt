-- ===== src/Vfs/Path/Canonical.antt =====
-- What `normalize_path` of crates/eryx-vfs/src/storage.rs returns.
use eryx.Prelude.{
  ℕ, false, ◌≡◌, refl, subst, List, [], ◌∷◌, ◌++◌, ok, err, ◌==◌, nat_eq, text_keys, if◌then◌else◌,
  arith, Result-cases, inl, inr, if_rule,
}
use mathlib.Core.List.{append-nil, append_assoc}
use eryx.Prelude.Text.{Text, codes}
use eryx.Vfs.Path.{
  VfsResult, slash, root, cons_head, split, starts_with, absolute_path, render, pop, is_empty,
  invalid_path, is_skipped, collect, normalize_path,
}

-- No slash among the bytes.
abbrev pub IsPlain : Text → Type 0
IsPlain [] = Unit {0}
IsPlain (c ∷ cs) = (nat_eq c slash ≡ false) × IsPlain cs

-- A name that stands for itself.
pub record IsName (c : Text) : Type 0 where
  pub plain : IsPlain c
  pub kept : is_skipped c ≡ false
  pub below : (c == codes "..") ≡ false

abbrev pub AreNames : List Text → Type 0
AreNames [] = Unit {0}
AreNames (c ∷ cs) = IsName c × AreNames cs

abbrev ArePlain : List Text → Type 0
ArePlain [] = Unit {0}
ArePlain (c ∷ cs) = IsPlain c × ArePlain cs

cons_head-ArePlain :
    (c : ℕ) (ps : List Text) → nat_eq c slash ≡ false → ArePlain ps → ArePlain (cons_head c ps)
cons_head-ArePlain c [] n h = ((n, tt), tt)
cons_head-ArePlain c (p ∷ ps) n h = ((n, h.0), h.1)

split-ArePlain : (s : Text) → ArePlain (split s)
unfolding split
split-ArePlain [] = (tt, tt)
split-ArePlain (c ∷ cs) =
    if_rule ArePlain (nat_eq c slash) ([] ∷ split cs) (cons_head c (split cs))
      (λ _. (tt, split-ArePlain cs)) (λ n. cons_head-ArePlain c (split cs) n (split-ArePlain cs))

pop-AreNames : (cs : List Text) → AreNames cs → AreNames (pop cs)
unfolding pop
pop-AreNames [] h = tt
pop-AreNames (c ∷ []) h = tt
pop-AreNames (c ∷ d ∷ cs) h = (h.0, pop-AreNames (d ∷ cs) h.1)

push-AreNames : (cs : List Text) (c : Text) → AreNames cs → IsName c → AreNames (cs ++ c ∷ [])
push-AreNames [] c h n = (n, tt)
push-AreNames (d ∷ cs) c h n = (h.0, push-AreNames cs c h.1 n)

abbrev Holds : VfsResult (List Text) → Type 0
Holds (ok cs) = AreNames cs
Holds (err e) = Unit {0}

collect-AreNames : (acc cs : List Text) → AreNames acc → ArePlain cs → Holds (collect acc cs)
unfolding collect
collect-AreNames acc [] h p = h
collect-AreNames acc (c ∷ cs) h p =
    let up : VfsResult (List Text) =
      if is_empty acc
      then err (invalid_path (codes "path escapes root"))
      else collect (pop acc) cs in
    let down = collect (acc ++ c ∷ []) cs in
    if_rule Holds (is_skipped c) (collect acc cs) (if c == codes ".." then up else down)
      (λ _. collect-AreNames acc cs h p.1)
      (λ kept.
        if_rule Holds (c == codes "..") up down
          (λ _.
            if_rule Holds (is_empty acc) (err (invalid_path (codes "path escapes root")))
              (collect (pop acc) cs) (λ _. tt)
              (λ _. collect-AreNames (pop acc) cs (pop-AreNames acc h) p.1))
          (λ below.
            collect-AreNames (acc ++ c ∷ []) cs
              (push-AreNames acc c h (record { plain = p.0; kept = kept; below = below })) p.1))

-- Splitting takes a rendered path apart again.
split-absolute_path :
    (c : Text) (cs : List Text) → IsPlain c → AreNames cs → split (c ++ absolute_path cs) ≡ c ∷ cs
unfolding split absolute_path
split-absolute_path [] [] h p = refl
split-absolute_path [] (d ∷ cs) h p = rw (split-absolute_path d cs p.0.plain p.1)
split-absolute_path (b ∷ c) cs h p = rw (h.0, split-absolute_path c cs h.1 p)

pub normalize_root : normalize_path root ≡ ok root
unfolding normalize_path render starts_with split collect
normalize_root = refl

-- Names are collected as they are.
collect_names : (acc cs : List Text) → AreNames cs → collect acc cs ≡ ok (acc ++ cs)
unfolding collect
collect_names acc [] h = rw append-nil
collect_names acc (c ∷ cs) h =
    rw (h.0.kept, h.0.below, collect_names (acc ++ c ∷ []) cs h.1, append_assoc)

collect_empty : (acc cs : List Text) → collect acc ([] ∷ cs) ≡ collect acc cs
unfolding collect
collect_empty acc cs = refl

split-slash : (s : Text) → split (slash ∷ s) ≡ [] ∷ split s
unfolding split
split-slash s = refl

normalize_path-render : (cs : List Text) → AreNames cs → normalize_path (render cs) ≡ ok (render cs)
unfolding normalize_path render starts_with absolute_path
normalize_path-render [] h = normalize_root
normalize_path-render (c ∷ cs) h = rw (
  split-slash (c ++ absolute_path cs),
  split-absolute_path c cs h.0.plain h.1,
  collect_empty [] (c ∷ cs),
  collect_names [] (c ∷ cs) h,
)

-- A normalised path is "/" or names behind slashes.
normalize_path-AreNames :
    (path : Text) {out : Text}
    → normalize_path path ≡ ok out
    → (cs : List Text) × AreNames cs × (out ≡ render cs)
unfolding normalize_path
normalize_path-AreNames path {out} e = elim (Result-cases (collect [] (split path))) [
  | inl (cs, f) ↦
      (cs, subst Holds f (collect-AreNames [] (split path) tt (split-ArePlain path)), ground arith)
  | inr (x, f) ↦ absurd (ground arith)
]

-- Normalising again changes nothing.
pub normalize_path_again :
    (path : Text) {out : Text} → normalize_path path ≡ ok out → normalize_path out ≡ ok out
normalize_path_again path {out} e =
    let names = normalize_path-AreNames path e in rw names.2 (normalize_path-render names.0 names.1)

-- A path in normal form.
pub record IsCanonical (path : Text) : Type 0 where
  pub names : List Text
  pub named : AreNames names
  pub rendered : path ≡ render names
  pub again : normalize_path path ≡ ok path

-- What `normalize_path` returns is "/" or a sequence of names behind slashes, none of them empty, ".",
-- ".." or with a slash inside, and normalising it again returns it.
pub normalize_path-IsCanonical :
    (path : Text) {out : Text} → normalize_path path ≡ ok out → IsCanonical out
normalize_path-IsCanonical path {out} e =
    let names = normalize_path-AreNames path e in
    record {
      names = names.0;
      named = names.1;
      rendered = names.2;
      again = normalize_path_again path e;
    }
