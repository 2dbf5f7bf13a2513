-- ===== src/Vfs/Storage/Tree.antt =====
-- The tree that the paths of a storage in crates/eryx-vfs/src/storage.rs make.
use eryx.Prelude.{
  ℕ, zero, suc, ◌≡◌, subst, true, false, ◌⊎◌, inl, inr, some, [], ◌∷◌, ok, ◌==◌, eq_iff, text_keys,
  take, arith, Option-cases, Bool-cases,
}
use eryx.Prelude.HashMap
use eryx.Prelude.HashMap.{HashMap, contains_key, get-insert, get-remove}
use eryx.Prelude.HashSet
use eryx.Prelude.HashSet.{HashSet, contains-insert, contains-remove}
use eryx.Prelude.Text.{Text}
use eryx.Vfs.Path.{root, starts_with, normalize_path, rfind_slash, before_slash, parent_path}
use eryx.Vfs.Storage.{FileData, StorageState, check_parent_exists_with_state}
use eryx.Vfs.Storage.Directories.{with_slash, any_file_below, any_directory_below, put_directory}

-- The parent of a path, where it has one, is a directory.
abbrev pub HasParent : StorageState → Text → Type 0
HasParent s p = check_parent_exists_with_state s p ≡ ok tt

pub record IsTree (s : StorageState) : Type 0 where
  pub rooted : HashSet.contains s.directories root ≡ true
  pub apart : (p : Text) → contains_key s.files p ≡ true → HashSet.contains s.directories p ≡ false
  pub file_parent : (p : Text) → contains_key s.files p ≡ true → HasParent s p
  pub directory_parent : (p : Text) → HashSet.contains s.directories p ≡ true → HasParent s p
  pub file_canonical : (p : Text) → contains_key s.files p ≡ true → normalize_path p ≡ ok p
  pub directory_canonical :
      (p : Text) → HashSet.contains s.directories p ≡ true → normalize_path p ≡ ok p

-- What a file needs of its path.
pub record IsPlace (s : StorageState) (p : Text) : Type 0 where
  pub free : HashSet.contains s.directories p ≡ false
  pub parent : HasParent s p
  pub canonical : normalize_path p ≡ ok p

pub files-IsPlace :
    (s : StorageState) (fs : HashMap Text FileData) (p : Text)
    → IsPlace s p
    → IsPlace (record s { files = fs }) p
unfolding check_parent_exists_with_state
files-IsPlace s fs p h = record { free = h.free; parent = h.parent; canonical = h.canonical }

-- The files may change where each is an old one or stands at a place for files.
pub files-IsTree :
    (s : StorageState) (fs : HashMap Text FileData)
    → IsTree s
    → ((p : Text) → contains_key fs p ≡ true → (contains_key s.files p ≡ true) ⊎ IsPlace s p)
    → IsTree (record s { files = fs })
unfolding check_parent_exists_with_state
files-IsTree s fs t from = record {
  rooted = t.rooted;
  apart = λ p h. elim (from p h) [ inl old ↦ t.apart p old | inr new ↦ new.free ];
  file_parent = λ p h. elim (from p h) [ inl old ↦ t.file_parent p old | inr new ↦ new.parent ];
  directory_parent = t.directory_parent;
  file_canonical =
      λ p h. elim (from p h) [ inl old ↦ t.file_canonical p old | inr new ↦ new.canonical ];
  directory_canonical = t.directory_canonical;
}

pub insert-IsTree :
    (s : StorageState) (w : Text) (f : FileData)
    → IsTree s
    → IsPlace s w
    → IsTree (record s { files = HashMap.insert s.files w f })
insert-IsTree s w f t place = files-IsTree s (HashMap.insert s.files w f) t λ p h.
    elim (Bool-cases (w == p)) [
      | inl e ↦ inr (subst (IsPlace s) ((eq_iff w p).0 e) place)
      | inr e ↦ inl (ground (arith, get-insert s.files w p f))
    ]

pub remove-IsTree :
    (s : StorageState) (w : Text)
    → IsTree s
    → IsTree (record s { files = HashMap.remove s.files w })
remove-IsTree s w t =
    files-IsTree s (HashMap.remove s.files w) t λ p h. inl (ground (arith, get-remove s.files w p))

put_directory-HasParent :
    (s : StorageState) (d p : Text) → HasParent s p → HasParent (put_directory s d) p
unfolding check_parent_exists_with_state
put_directory-HasParent s d p h = elim (Option-cases (parent_path p)) [
  | inl e ↦ ground arith
  | inr (q, e) ↦ ground (arith, contains-insert s.directories d q)
]

put_directory-cases :
    (s : StorageState) (d p : Text)
    → HashSet.contains (put_directory s d).directories p ≡ true
    → (HashSet.contains s.directories p ≡ true) ⊎ (d ≡ p)
put_directory-cases s d p h = elim (Bool-cases (d == p)) [
  | inl e ↦ inr ((eq_iff d p).0 e)
  | inr e ↦ inl (ground (arith, contains-insert s.directories d p))
]

pub put_directory-IsTree :
    (s : StorageState) (d : Text)
    → IsTree s
    → contains_key s.files d ≡ false
    → HasParent s d
    → normalize_path d ≡ ok d
    → IsTree (put_directory s d)
put_directory-IsTree s d t no_file parent canonical = record {
  rooted = ground (arith, t.rooted, contains-insert s.directories d root);
  apart = λ p h. ground (arith, t.apart p, contains-insert s.directories d p, eq_iff d p);
  file_parent = λ p h. put_directory-HasParent s d p (t.file_parent p h);
  directory_parent = λ p h. elim (put_directory-cases s d p h) [
    | inl old ↦ put_directory-HasParent s d p (t.directory_parent p old)
    | inr same ↦ subst (HasParent (put_directory s d)) same (put_directory-HasParent s d d parent)
  ];
  file_canonical = t.file_canonical;
  directory_canonical = λ p h. elim (put_directory-cases s d p h) [
    | inl old ↦ t.directory_canonical p old
    | inr same ↦ subst (λ q. normalize_path q ≡ ok q) same canonical
  ];
}

-- A path starts with its parent and a slash.
rfind_slash-starts_with :
    (s : Text) (i : ℕ) → rfind_slash s ≡ some i → starts_with s (with_slash (take i s)) ≡ true
unfolding rfind_slash starts_with
rfind_slash-starts_with [] i h = ground arith
rfind_slash-starts_with (c ∷ cs) zero h = ground arith
rfind_slash-starts_with (c ∷ cs) (suc i) h = ground (arith, rfind_slash-starts_with cs i)

before_slash_at :
    (s q : Text) (i : ℕ)
    → rfind_slash s ≡ some i
    → before_slash s ≡ some q
    → (q == root) ≡ false
    → starts_with s (with_slash q) ≡ true
unfolding before_slash
before_slash_at s q zero e h ne = ground (arith, eq_iff q root)
before_slash_at s q (suc i) e h ne =
    let same : take (suc i) s ≡ q = ground arith in
    subst (λ r. starts_with s (with_slash r) ≡ true) same (rfind_slash-starts_with s (suc i) e)

before_slash-starts_with :
    (s q : Text)
    → before_slash s ≡ some q
    → (q == root) ≡ false
    → starts_with s (with_slash q) ≡ true
unfolding before_slash
before_slash-starts_with s q h ne = elim (Option-cases (rfind_slash s)) [
  | inl e ↦ absurd (ground arith)
  | inr (i, e) ↦ before_slash_at s q i e h ne
]

parent_path-starts_with :
    (p q : Text)
    → normalize_path p ≡ ok p
    → parent_path p ≡ some q
    → (q == root) ≡ false
    → starts_with p (with_slash q) ≡ true
unfolding parent_path
parent_path-starts_with p q canonical h ne = ground (arith, before_slash-starts_with p q)

no_file_below :
    (prefix p : Text) (files : HashMap Text FileData)
    → any_file_below prefix files ≡ false
    → contains_key files p ≡ true
    → starts_with p prefix ≡ false
unfolding any_file_below HashMap.get
no_file_below prefix p [] h k = ground arith
no_file_below prefix p ((q, f) ∷ files) h k =
    ground (arith, eq_iff q p, no_file_below prefix p files)

no_directory_below :
    (prefix p : Text) (directories : HashSet Text)
    → any_directory_below prefix directories ≡ false
    → HashSet.contains directories p ≡ true
    → starts_with p prefix ≡ false
unfolding any_directory_below HashSet.contains
no_directory_below prefix p [] h k = ground arith
no_directory_below prefix p (q ∷ directories) h k =
    ground (arith, eq_iff q p, no_directory_below prefix p directories)

abbrev pub without_directory : StorageState → Text → StorageState
without_directory s d = record s { directories = HashSet.remove s.directories d }

without_directory-HasParent :
    (s : StorageState) (d p : Text)
    → (d == root) ≡ false
    → starts_with p (with_slash d) ≡ false
    → normalize_path p ≡ ok p
    → HasParent s p
    → HasParent (without_directory s d) p
unfolding check_parent_exists_with_state
without_directory-HasParent s d p not_root not_below canonical h =
    elim (Option-cases (parent_path p)) [
      | inl e ↦ ground arith
      | inr (q, e) ↦ ground (
        arith,
        contains-remove s.directories d q,
        eq_iff d q,
        parent_path-starts_with p q canonical e,
      )
    ]

kept_directory :
    (s : StorageState) (d p : Text)
    → HashSet.contains (without_directory s d).directories p ≡ true
    → HashSet.contains s.directories p ≡ true
kept_directory s d p h = ground (arith, contains-remove s.directories d p)

pub remove_directory-IsTree :
    (s : StorageState) (d : Text)
    → IsTree s
    → (d == root) ≡ false
    → any_file_below (with_slash d) s.files ≡ false
    → any_directory_below (with_slash d) s.directories ≡ false
    → IsTree (without_directory s d)
remove_directory-IsTree s d t not_root no_files no_directories =
    let kept = λ (p : Text) (h : HashSet.contains (without_directory s d).directories p ≡ true).
      kept_directory s d p h in
    record {
      rooted = ground (arith, t.rooted, contains-remove s.directories d root);
      apart = λ p h. ground (arith, t.apart p, contains-remove s.directories d p);
      file_parent = λ p h.
          without_directory-HasParent s d p not_root
            (no_file_below (with_slash d) p s.files no_files h) (t.file_canonical p h)
            (t.file_parent p h);
      directory_parent = λ p h.
          without_directory-HasParent s d p not_root
            (no_directory_below (with_slash d) p s.directories no_directories (kept p h))
            (t.directory_canonical p (kept p h)) (t.directory_parent p (kept p h));
      file_canonical = t.file_canonical;
      directory_canonical = λ p h. t.directory_canonical p (kept p h);
    }
