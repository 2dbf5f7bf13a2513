-- ===== src/Vfs/Storage/Directories.antt =====
-- The operations on directories of `InMemoryStorage` in crates/eryx-vfs/src/storage.rs.
use eryx.Prelude.{
  ℕ, Bool, true, false, ◌||◌, ◌&&◌, not, Option, none, some, List, [], ◌∷◌, ◌++◌, ok, err, ◌>>=◌,
  ◌==◌, nat_eq, ltb, text_keys, length, drop, if◌then◌else◌,
}
use eryx.Prelude.HashMap
use eryx.Prelude.HashMap.{HashMap}
use eryx.Prelude.HashSet
use eryx.Prelude.HashSet.{HashSet}
use eryx.Prelude.Text.{Text, codes}
use eryx.Vfs.Path.{VfsError, VfsResult, root, slash, split, starts_with, normalize_path}
use eryx.Vfs.Storage.{
  Metadata, FileData, StorageState, check_parent_exists_with_state, file_metadata,
  directory_metadata,
}

pub record DirEntry : Type 0 where
  pub name : Text
  pub metadata : Metadata

-- `format!("{path}/")`
abbrev pub with_slash : Text → Text
with_slash path = path ++ root

abbrev pub strip_prefix : Text → Text → Option Text
strip_prefix s prefix = if starts_with s prefix then some (drop (length prefix) s) else none

-- `str::contains('/')`
abbrev pub has_slash : Text → Bool
has_slash [] = false
has_slash (c ∷ cs) = nat_eq c slash || has_slash cs

-- The name of a direct child, for a path with the prefix of a directory.
unfoldable pub child_name : Text → Text → Option Text
child_name prefix path = elim (strip_prefix path prefix) [
  | none ↦ none
  | some rest ↦ if not (has_slash rest) && not (rest == []) then some rest else none
]

unfoldable pub list_files : Text → HashMap Text FileData → List DirEntry
unfolding child_name
list_files prefix [] = []
list_files prefix ((path, f) ∷ files) =
    let rest = list_files prefix files in
    elim (child_name prefix path) [
      | none ↦ rest
      | some name ↦ record { name = name; metadata = file_metadata f } ∷ rest
    ]

abbrev pub names : List DirEntry → List Text
names [] = []
names (e ∷ es) = e.name ∷ names es

unfoldable pub list_directories : ℕ → Text → List Text → HashSet Text → List DirEntry
unfolding child_name
list_directories now prefix seen_names [] = []
list_directories now prefix seen_names (path ∷ directories) =
    let rest = list_directories now prefix seen_names directories in
    elim (child_name prefix path) [
      | none ↦ rest
      | some name ↦
          if HashSet.contains seen_names name
          then rest
          else record { name = name; metadata = directory_metadata now } ∷ rest
    ]

-- `a < b` in the order of strings, by their bytes.
unfoldable pub text_lt : Text → Text → Bool
text_lt a [] = false
text_lt [] (d ∷ ds) = true
text_lt (c ∷ cs) (d ∷ ds) = let rest = text_lt cs ds in ltb c d || (nat_eq c d && rest)

-- `sort_by` the name, stable.
unfoldable pub insert_by_name : DirEntry → List DirEntry → List DirEntry
insert_by_name e [] = e ∷ []
insert_by_name e (d ∷ ds) =
    let rest = d ∷ insert_by_name e ds in if text_lt d.name e.name then rest else e ∷ d ∷ ds

unfoldable pub sort_by_name : List DirEntry → List DirEntry
unfolding insert_by_name
sort_by_name [] = []
sort_by_name (e ∷ es) = insert_by_name e (sort_by_name es)

-- The error for a path that is no directory.
unfoldable pub no_directory : {A : Type 0} → StorageState → Text → VfsResult A
no_directory state p =
    if HashMap.contains_key state.files p
    then err (VfsError.not_directory p)
    else err (VfsError.not_found p)

unfoldable pub list : ℕ → StorageState → Text → VfsResult (List DirEntry)
unfolding no_directory
list now state path = normalize_path path >>= λ p.
    let prefix = if p == root then root else with_slash p in
    let entries = list_files prefix state.files in
    if not (HashSet.contains state.directories p)
    then no_directory state p
    else ok
        (sort_by_name (entries ++ list_directories now prefix (names entries) state.directories))

abbrev pub put_directory : StorageState → Text → StorageState
put_directory state p = record state { directories = HashSet.insert state.directories p }

unfoldable pub mkdir : StorageState → Text → StorageState × VfsResult (Unit {0})
unfolding check_parent_exists_with_state
mkdir state path = elim (normalize_path path) [
  | err e ↦ (state, err e)
  | ok p ↦ elim (check_parent_exists_with_state state p) [
    | err e ↦ (state, err e)
    | ok _ ↦
        if HashMap.contains_key state.files p
        then (state, err (VfsError.already_exists p))
        else if HashSet.contains state.directories p
        then (state, err (VfsError.already_exists p))
        else (put_directory state p, ok tt)
  ]
]

unfoldable pub any_file_below : Text → HashMap Text FileData → Bool
any_file_below prefix [] = false
any_file_below prefix ((path, f) ∷ files) = starts_with path prefix || any_file_below prefix files

unfoldable pub any_directory_below : Text → HashSet Text → Bool
any_directory_below prefix [] = false
any_directory_below prefix (path ∷ directories) =
    starts_with path prefix || any_directory_below prefix directories

unfoldable pub rmdir : StorageState → Text → StorageState × VfsResult (Unit {0})
unfolding no_directory any_file_below any_directory_below
rmdir state path = elim (normalize_path path) [
  | err e ↦ (state, err e)
  | ok p ↦
      if p == root
      then (state, err (VfsError.permission_denied (codes "cannot remove root directory")))
      else if not (HashSet.contains state.directories p)
      then (state, no_directory state p)
      else if any_file_below (with_slash p) state.files
      then (state, err (VfsError.directory_not_empty p))
      else if any_directory_below (with_slash p) state.directories
      then (state, err (VfsError.directory_not_empty p))
      else (record state { directories = HashSet.remove state.directories p }, ok tt)
]

-- The prefixes of a path that `mkdir_sync` creates: `current` and the pieces left.
unfoldable pub insert_prefixes : HashSet Text → Text → List Text → HashSet Text
insert_prefixes directories current [] = directories
insert_prefixes directories current (component ∷ rest) =
    let next = current ++ slash ∷ component in
    let skipped = insert_prefixes directories current rest in
    let made = insert_prefixes (HashSet.insert directories next) next rest in
    if component == [] then skipped else made

unfoldable pub mkdir_sync : StorageState → Text → StorageState × VfsResult (Unit {0})
mkdir_sync state path = elim (normalize_path path) [
  | err e ↦ (state, err e)
  | ok p ↦ (record state { directories = insert_prefixes state.directories [] (split p) }, ok tt)
]
