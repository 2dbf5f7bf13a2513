-- ===== src/Vfs/Storage/Listing.antt =====
-- `list` of crates/eryx-vfs/src/storage.rs against the paths that the storage holds.
use eryx.Prelude.{
  ℕ, ◌≡◌, ◌≢◌, subst, true, false, not, List, [], ◌∷◌, ◌++◌, ok, err, ◌==◌, text_keys,
  if◌then◌else◌, Result-cases, inl, inr, arith,
}
use eryx.Prelude.HashMap
use eryx.Prelude.HashMap.{HashMap, contains_key}
use eryx.Prelude.HashSet
use eryx.Prelude.HashSet.{HashSet}
use eryx.Prelude.Text.{Text}
use eryx.Vfs.Path.{VfsError, root, normalize_path}
use eryx.Vfs.Storage.{StorageState, directory_metadata}
use eryx.Vfs.Storage.Directories.{
  DirEntry, with_slash, list_files, list_directories, names, text_lt, insert_by_name, sort_by_name,
  list, no_directory,
}
use eryx.Vfs.Storage.Entries.{
  is_child, entries_named, IsDistinct, of_file, contains-list_files, entries_named-list_files,
  entries_named-list_directories, entries_named-append, entries_named-sort_by_name,
  text_lt-asymmetric,
}

-- No entry comes before one with a smaller name.
abbrev pub IsSorted : List DirEntry → Type 0
IsSorted [] = Unit {0}
IsSorted (e ∷ []) = Unit {0}
IsSorted (e ∷ d ∷ es) = (text_lt d.name e.name ≡ false) × IsSorted (d ∷ es)

insert_by_name-IsSorted :
    (e : DirEntry) (es : List DirEntry) → IsSorted es → IsSorted (insert_by_name e es)
unfolding insert_by_name
insert_by_name-IsSorted e [] s = tt
insert_by_name-IsSorted e (d ∷ []) s = ground (arith, text_lt-asymmetric d.name e.name)
insert_by_name-IsSorted e (d ∷ c ∷ es) s = ground (
  arith,
  text_lt-asymmetric d.name e.name,
  text_lt-asymmetric c.name e.name,
  insert_by_name-IsSorted e (c ∷ es) s.1,
)

sort_by_name-IsSorted : (es : List DirEntry) → IsSorted (sort_by_name es)
unfolding sort_by_name
sort_by_name-IsSorted [] = tt
sort_by_name-IsSorted (e ∷ es) =
    insert_by_name-IsSorted e (sort_by_name es) (sort_by_name-IsSorted es)

abbrev pub child_prefix : Text → Text
child_prefix p = if p == root then root else with_slash p

-- What `list` returns for the directory at `p`: the entries of each name are none or one.
pub record Lists (now : ℕ) (s : StorageState) (p : Text) (entries : List DirEntry) : Type 0 where
  pub sorted : IsSorted entries
  pub children :
      (name : Text)
      → entries_named name entries ≡ (
          if not (is_child name)
          then []
          else if contains_key s.files (child_prefix p ++ name)
          then of_file (HashMap.get s.files (child_prefix p ++ name))
          else if HashSet.contains s.directories (child_prefix p ++ name)
          then directory_metadata now ∷ []
          else [])

abbrev listed : ℕ → StorageState → Text → List DirEntry
listed now s p =
    let files = list_files (child_prefix p) s.files in
    files ++ list_directories now (child_prefix p) (names files) s.directories

sort_by_name-Lists :
    (now : ℕ) (s : StorageState) (p : Text)
    → HashMap.IsUnique s.files
    → IsDistinct s.directories
    → Lists now s p (sort_by_name (listed now s p))
sort_by_name-Lists now s p u v =
    let prefix = child_prefix p in
    let files = list_files prefix s.files in
    record {
      sorted = sort_by_name-IsSorted (listed now s p);
      children = λ name. ground (
        arith,
        entries_named-sort_by_name name (listed now s p),
        entries_named-append name files (list_directories now prefix (names files) s.directories),
        entries_named-list_files prefix name s.files u,
        contains-list_files prefix name s.files,
        entries_named-list_directories now prefix name (names files) s.directories v,
      );
    }

list_err :
    (now : ℕ) (s : StorageState) (path : Text) (x : VfsError) (entries : List DirEntry)
    → normalize_path path ≡ err x
    → list now s path ≢ ok entries
unfolding list
list_err now s path x entries e h = ground arith

list_done :
    (now : ℕ) (s : StorageState) (path p : Text) (entries : List DirEntry)
    → normalize_path path ≡ ok p
    → list now s path ≡ ok entries
    → (HashSet.contains s.directories p ≡ true) × (sort_by_name (listed now s p) ≡ entries)
unfolding list no_directory
list_done now s path p entries e h = ground arith

-- Where the tables of the storage hold no path twice, a listing that succeeds is of a directory and sorted
-- by name. A name that a child can have, without a slash and not empty, stands in it once with the metadata
-- of the file, if the storage holds a file of that name under the directory; else once with that of a
-- directory, if the storage holds a directory of that name there; and not at all if it holds neither.
pub list-Lists :
    (now : ℕ) (s : StorageState) (path : Text) (entries : List DirEntry)
    → HashMap.IsUnique s.files
    → IsDistinct s.directories
    → list now s path ≡ ok entries
    → (p : Text) × (normalize_path path ≡ ok p)
      × (HashSet.contains s.directories p ≡ true)
      × Lists now s p entries
list-Lists now s path entries u v h = elim (Result-cases (normalize_path path)) [
  | inl (p, e) ↦
      let found = list_done now s path p entries e h in
      (p, e, found.0, subst (Lists now s p) found.1 (sort_by_name-Lists now s p u v))
  | inr (x, e) ↦ absurd (list_err now s path x entries e h)
]
