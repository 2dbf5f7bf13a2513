-- ===== src/Vfs/Storage/Parents.antt =====
-- The parent of a path in a storage of crates/eryx-vfs/src/storage.rs.
use eryx.Prelude.{
  zero, suc, ◌≡◌, ◌≢◌, inl, inr, true, none, some, [], ◌∷◌, ok, eq_iff, text_keys, Option-cases,
  arith,
}
use eryx.Prelude.HashMap.{contains_key}
use eryx.Prelude.HashSet
use eryx.Prelude.Text.{Text, starts_with}
use eryx.Vfs.Path.{root, normalize_path, rfind_slash, before_slash, parent_path}
use eryx.Vfs.Storage.{StorageState, check_parent_exists_with_state}
use eryx.Vfs.Storage.Tree.{IsTree, HasParent}

normalize_path-starts_with : (p q : Text) → normalize_path p ≡ ok q → starts_with p root ≡ true
unfolding normalize_path
normalize_path-starts_with p q h = ground arith

rfind_slash-ne-none : (p : Text) → starts_with p root ≡ true → rfind_slash p ≢ none
unfolding rfind_slash starts_with
rfind_slash-ne-none [] h e = ground arith
rfind_slash-ne-none (c ∷ cs) h e = ground arith

before_slash-ne-none : (p : Text) → rfind_slash p ≢ none → before_slash p ≢ none
unfolding before_slash
before_slash-ne-none p h e = elim (Option-cases (rfind_slash p)) [
  | inl f ↦ h f
  | inr (zero, f) ↦ ground arith
  | inr (suc i, f) ↦ ground arith
]

parent_path-ne-none : (p : Text) → normalize_path p ≡ ok p → p ≢ root → parent_path p ≢ none
unfolding parent_path
parent_path-ne-none p h ne e =
    before_slash-ne-none p (rfind_slash-ne-none p (normalize_path-starts_with p p h))
      (ground (arith, eq_iff p root))

-- The directory that a path lies in.
abbrev pub LiesIn : StorageState → Text → Type 0
LiesIn s p = (q : Text) × (parent_path p ≡ some q) × (HashSet.contains s.directories q ≡ true)

HasParent-LiesIn :
    (s : StorageState) (p : Text) → normalize_path p ≡ ok p → p ≢ root → HasParent s p → LiesIn s p
unfolding check_parent_exists_with_state
HasParent-LiesIn s p canonical ne h = elim (Option-cases (parent_path p)) [
  | inl e ↦ absurd (parent_path-ne-none p canonical ne e)
  | inr (q, e) ↦ (q, e, ground arith)
]

pub file-LiesIn :
    (s : StorageState) (p : Text) → IsTree s → contains_key s.files p ≡ true → p ≢ root → LiesIn s p
file-LiesIn s p t h ne = HasParent-LiesIn s p (t.file_canonical p h) ne (t.file_parent p h)

pub directory-LiesIn :
    (s : StorageState) (p : Text)
    → IsTree s
    → HashSet.contains s.directories p ≡ true
    → p ≢ root
    → LiesIn s p
directory-LiesIn s p t h ne =
    HasParent-LiesIn s p (t.directory_canonical p h) ne (t.directory_parent p h)
