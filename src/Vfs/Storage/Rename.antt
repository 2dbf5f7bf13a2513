-- ===== src/Vfs/Storage/Rename.antt =====
-- `rename` of `InMemoryStorage` in crates/eryx-vfs/src/storage.rs.
use eryx.Prelude.{
  ◌||◌, none, some, List, [], ◌∷◌, ◌++◌, ok, err, ◌==◌, text_keys, length, drop, filter,
  if◌then◌else◌,
}
use eryx.Prelude.HashMap
use eryx.Prelude.HashMap.{HashMap}
use eryx.Prelude.HashSet
use eryx.Prelude.HashSet.{HashSet}
use eryx.Prelude.Text.{Text}
use eryx.Vfs.Path.{VfsError, VfsResult, starts_with, normalize_path}
use eryx.Vfs.Storage.{FileData, StorageState, check_parent_exists_with_state}
use eryx.Vfs.Storage.Directories.{with_slash}

-- `replacen(from_prefix, to_prefix, 1)` of a path that starts with `from_prefix`
abbrev pub replace_prefix : Text → Text → Text → Text
replace_prefix from_prefix to_prefix path = to_prefix ++ drop (length from_prefix) path

unfoldable pub files_to_rename : Text → HashMap Text FileData → List Text
files_to_rename from_prefix [] = []
files_to_rename from_prefix ((path, f) ∷ files) =
    let rest = files_to_rename from_prefix files in
    if starts_with path from_prefix then path ∷ rest else rest

unfoldable pub move_files : Text → Text → List Text → HashMap Text FileData → HashMap Text FileData
move_files from to [] files = files
move_files from to (old_path ∷ rest) files =
    move_files from to rest (elim (HashMap.get files old_path) [
      | none ↦ files
      | some f ↦
          HashMap.insert (HashMap.remove files old_path)
            (replace_prefix (with_slash from) (with_slash to) old_path) f
    ])

unfoldable pub move_directories : Text → Text → List Text → HashSet Text → HashSet Text
move_directories from to [] directories = directories
move_directories from to (old_path ∷ rest) directories = move_directories from to rest (
    HashSet.insert (HashSet.remove directories old_path)
      (if old_path == from then to else replace_prefix (with_slash from) (with_slash to) old_path))

unfoldable pub rename_directory : StorageState → Text → Text → StorageState
unfolding files_to_rename move_files move_directories
rename_directory state from to = record {
  files = move_files from to (files_to_rename (with_slash from) state.files) state.files;
  directories =
      move_directories from to
        (filter (λ p. p == from || starts_with p (with_slash from)) state.directories)
        state.directories;
}

unfoldable pub rename_entry : StorageState → Text → Text → StorageState × VfsResult (Unit {0})
unfolding rename_directory
rename_entry state from to = elim (HashMap.get state.files from) [
  | some f ↦
      if HashSet.contains state.directories to
      then (state, err (VfsError.already_exists to))
      else (record state { files = HashMap.insert (HashMap.remove state.files from) to f }, ok tt)
  | none ↦
      if HashSet.contains state.directories from
      then if HashMap.contains_key state.files to
        then (state, err (VfsError.already_exists to))
        else (rename_directory state from to, ok tt)
      else (state, err (VfsError.not_found from))
]

unfoldable pub rename : StorageState → Text → Text → StorageState × VfsResult (Unit {0})
unfolding check_parent_exists_with_state rename_entry
rename state from_path to_path = elim (normalize_path from_path) [
  | err e ↦ (state, err e)
  | ok from ↦ elim (normalize_path to_path) [
    | err e ↦ (state, err e)
    | ok to ↦
        if from == to then (state, ok tt) else elim (check_parent_exists_with_state state to) [
          | err e ↦ (state, err e)
          | ok _ ↦ rename_entry state from to
        ]
  ]
]
