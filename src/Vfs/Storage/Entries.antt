-- ===== src/Vfs/Storage/Entries.antt =====
-- The entries of each name in what `list` of crates/eryx-vfs/src/storage.rs collects and sorts.
use eryx.Prelude.{
  ℕ, ◌≡◌, refl, Bool, true, false, ◌&&◌, ◌||◌, not, Option, none, some, List, [], ◌∷◌, ◌++◌, ◌==◌,
  eq_iff, text_keys, length, drop, if◌then◌else◌, Option-cases, inl, inr, arith,
}
use eryx.Prelude.HashMap
use eryx.Prelude.HashMap.{HashMap, contains_key}
use eryx.Prelude.HashSet
use eryx.Prelude.HashSet.{HashSet}
use eryx.Prelude.Text.{Text}
use eryx.Vfs.Path.{starts_with}
use eryx.Vfs.Storage.{Metadata, FileData, file_metadata, directory_metadata}
use eryx.Vfs.Storage.Directories.{
  DirEntry, has_slash, child_name, list_files, list_directories, names, text_lt, insert_by_name,
  sort_by_name,
}

-- A name that an entry can have.
abbrev pub is_child : Text → Bool
is_child name = not (has_slash name) && not (name == [])

starts_with-append : (p r : Text) → starts_with (p ++ r) p ≡ true
unfolding starts_with
starts_with-append [] r = refl
starts_with-append (c ∷ p) r = ground (arith, starts_with-append p r)

starts_with_split : (s p : Text) → starts_with s p ≡ true → p ++ drop (length p) s ≡ s
unfolding starts_with
starts_with_split s [] h = refl
starts_with_split [] (c ∷ p) h = ground arith
starts_with_split (d ∷ s) (c ∷ p) h = ground (arith, starts_with_split s p)

drop-append : (p r : Text) → drop (length p) (p ++ r) ≡ r
drop-append [] r = refl
drop-append (c ∷ p) r = drop-append p r

abbrev names_child : Option Text → Text → Bool
names_child none name = false
names_child (some n) name = n == name

-- A path gives a child's name exactly when it is the prefix and that name.
names_child_lem :
    (prefix path name : Text)
    → names_child (child_name prefix path) name ≡ (path == (prefix ++ name) && is_child name)
unfolding child_name
names_child_lem prefix path name = ground (
  arith,
  eq_iff path (prefix ++ name),
  starts_with-append prefix name,
  starts_with_split path prefix,
  drop-append prefix name,
  eq_iff (drop (length prefix) path) name,
)

contains-names_cons :
    (o : Option Text) (m : Text → Metadata) (es : List DirEntry) (name : Text)
    → HashSet.contains
        (names (elim o [ none ↦ es | some n ↦ record { name = n; metadata = m n } ∷ es ]))
        name
      ≡ (names_child o name || HashSet.contains (names es) name)
unfolding HashSet.contains
contains-names_cons none m es name = refl
contains-names_cons (some n) m es name = refl

pub contains-list_files :
    (prefix name : Text) (files : HashMap Text FileData)
    → HashSet.contains (names (list_files prefix files)) name
      ≡ (is_child name && contains_key files (prefix ++ name))
unfolding list_files HashMap.get HashSet.contains
contains-list_files prefix name [] = ground arith
contains-list_files prefix name ((path, f) ∷ files) = ground (
  arith,
  contains-list_files prefix name files,
  names_child_lem prefix path name,
  contains-names_cons (child_name prefix path) (λ (n : Text). file_metadata f)
      (list_files prefix files) name,
)

-- What the entries of a name say, in their order.
abbrev pub entries_named : Text → List DirEntry → List Metadata
entries_named name [] = []
entries_named name (e ∷ es) =
    if e.name == name then e.metadata ∷ entries_named name es else entries_named name es

-- The directories are without a duplicate.
abbrev pub IsDistinct : HashSet Text → Type 0
IsDistinct [] = Unit {0}
IsDistinct (path ∷ directories) =
    (HashSet.contains directories path ≡ false) × IsDistinct directories

-- One entry for a file that is there.
abbrev pub of_file : Option FileData → List Metadata
of_file none = []
of_file (some f) = file_metadata f ∷ []

pub entries_named-list_files :
    (prefix name : Text) (files : HashMap Text FileData)
    → HashMap.IsUnique files
    → entries_named name (list_files prefix files)
      ≡ (if is_child name then of_file (HashMap.get files (prefix ++ name)) else [])
unfolding list_files HashMap.get
entries_named-list_files prefix name [] u = ground arith
entries_named-list_files prefix name ((path, f) ∷ files) u =
    elim (Option-cases (child_name prefix path)) [
      | inl e ↦
          ground (
            arith,
            entries_named-list_files prefix name files u.1,
            names_child_lem prefix path name,
          )
      | inr (n, e) ↦ ground (
        arith,
        entries_named-list_files prefix name files u.1,
        names_child_lem prefix path name,
        eq_iff path (prefix ++ name),
        u.0,
      )
    ]

pub entries_named-list_directories :
    (now : ℕ) (prefix name : Text) (seen : List Text) (directories : HashSet Text)
    → IsDistinct directories
    → entries_named name (list_directories now prefix seen directories) ≡ (
        if not (HashSet.contains seen name)
          && (is_child name && HashSet.contains directories (prefix ++ name))
        then directory_metadata now ∷ []
        else [])
unfolding list_directories HashSet.contains
entries_named-list_directories now prefix name seen [] u = ground arith
entries_named-list_directories now prefix name seen (path ∷ directories) u =
    elim (Option-cases (child_name prefix path)) [
      | inl e ↦ ground (
        arith,
        entries_named-list_directories now prefix name seen directories u.1,
        names_child_lem prefix path name,
      )
      | inr (n, e) ↦ ground (
        arith,
        entries_named-list_directories now prefix name seen directories u.1,
        names_child_lem prefix path name,
        eq_iff n name,
        eq_iff path (prefix ++ name),
        u.0,
      )
    ]

pub entries_named-append :
    (name : Text) (es ds : List DirEntry)
    → entries_named name (es ++ ds) ≡ entries_named name es ++ entries_named name ds
entries_named-append name [] ds = refl
entries_named-append name (e ∷ es) ds = ground (arith, entries_named-append name es ds)

pub text_lt-asymmetric : (a b : Text) → text_lt a b ≡ true → text_lt b a ≡ false
unfolding text_lt
text_lt-asymmetric a [] h = ground arith
text_lt-asymmetric [] (d ∷ ds) h = refl
text_lt-asymmetric (c ∷ cs) (d ∷ ds) h = ground (arith, text_lt-asymmetric cs ds)

entries_named-insert_by_name :
    (name : Text) (e : DirEntry) (es : List DirEntry)
    → entries_named name (insert_by_name e es) ≡ entries_named name (e ∷ es)
unfolding insert_by_name
entries_named-insert_by_name name e [] = refl
entries_named-insert_by_name name e (d ∷ es) = ground (
  arith,
  entries_named-insert_by_name name e es,
  text_lt-asymmetric d.name e.name,
  eq_iff d.name name,
  eq_iff e.name name,
)

pub entries_named-sort_by_name :
    (name : Text) (es : List DirEntry)
    → entries_named name (sort_by_name es) ≡ entries_named name es
unfolding sort_by_name
entries_named-sort_by_name name [] = refl
entries_named-sort_by_name name (e ∷ es) = ground (
  arith,
  entries_named-insert_by_name name e (sort_by_name es),
  entries_named-sort_by_name name es,
)
