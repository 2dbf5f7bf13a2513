-- ===== src/Vfs/Storage/Preservation.antt =====
-- Every call of crates/eryx-vfs/src/storage.rs keeps the tree, but for a rename of a directory.
use eryx.Prelude.{
  ◌≢◌, ◌≡◌, refl, subst, true, false, not, inl, inr, ok, ◌==◌, eq_iff, text_keys, if_rule, arith,
  Option-cases, Result-cases, List, [], ◌∷◌,
}
use eryx.Prelude.HashMap
use eryx.Prelude.HashMap.{contains_key, get-insert, get-remove}
use eryx.Prelude.HashSet
use eryx.Prelude.HashSet.{contains-insert}
use eryx.Prelude.Text.{Text}
use eryx.Vfs.Path.{VfsResult, root, normalize_path, parent_path}
use eryx.Vfs.Path.Canonical.{normalize_path_again, normalize_root}
use eryx.Vfs.Storage.{FileData, StorageState, new, check_parent_exists_with_state}
use eryx.Vfs.Storage.Directories.{mkdir, rmdir, with_slash, any_file_below, any_directory_below}
use eryx.Vfs.Storage.Rename.{rename, rename_entry}
use eryx.Vfs.Storage.Operation.{
  Operation, perform, write_call, write_at_call, set_size_call, delete_call, mkdir_call, rmdir_call,
  rename_call,
}
use eryx.Vfs.Storage.Placement.{write-IsTree, write_at-IsTree, set_size-IsTree, delete-IsTree}
use eryx.Vfs.Storage.Parents.{LiesIn, file-LiesIn, directory-LiesIn}
use eryx.Vfs.Storage.Tree.{
  IsTree, IsPlace, files-IsPlace, HasParent, insert-IsTree, remove-IsTree, put_directory-IsTree,
  remove_directory-IsTree,
}

abbrev TreeAfter : StorageState × VfsResult (Unit {0}) → Type 0
TreeAfter r = IsTree r.0

mkdir-IsTree : (s : StorageState) (path : Text) → IsTree s → IsTree (mkdir s path).0
unfolding mkdir
mkdir-IsTree s path t = elim (Result-cases (normalize_path path)) [
  | inl (p, e) ↦ elim (Result-cases (check_parent_exists_with_state s p)) [
    | inl (done, f) ↦
        rw (e, mkdir)
          (rw f (
            if_rule TreeAfter (contains_key s.files p) _ _ (λ _. t)
              (λ no_file.
                if_rule TreeAfter (HashSet.contains s.directories p) _ _ (λ _. t)
                  (λ _. put_directory-IsTree s p t no_file f (normalize_path_again path e)))))
    | inr (x, f) ↦ rw (e, mkdir) (rw f t)
  ]
  | inr (x, e) ↦ rw (e, mkdir) t
]

rmdir-IsTree : (s : StorageState) (path : Text) → IsTree s → IsTree (rmdir s path).0
unfolding rmdir
rmdir-IsTree s path t = elim (Result-cases (normalize_path path)) [
  | inl (p, e) ↦
      rw (e, rmdir)
        (if_rule TreeAfter (p == root) _ _ (λ _. t)
          (λ not_root.
            if_rule TreeAfter (not (HashSet.contains s.directories p)) _ _ (λ _. t)
              (λ _.
                if_rule TreeAfter (any_file_below (with_slash p) s.files) _ _ (λ _. t)
                  (λ no_files.
                    if_rule TreeAfter (any_directory_below (with_slash p) s.directories) _ _
                      (λ _. t)
                      (λ no_directories.
                        remove_directory-IsTree s p t not_root no_files no_directories)))))
  | inr (x, e) ↦ rw (e, rmdir) t
]

-- A file moves to a place where no directory is.
move-IsTree :
    (s : StorageState) (from to : Text) (f : FileData)
    → IsTree s
    → IsPlace s to
    → IsTree (record s { files = HashMap.insert (HashMap.remove s.files from) to f })
move-IsTree s from to f t place =
    insert-IsTree (record s { files = HashMap.remove s.files from }) to f (remove-IsTree s from t)
      (files-IsPlace s (HashMap.remove s.files from) to place)

rename_entry-IsTree :
    (s : StorageState) (from to : Text)
    → IsTree s
    → HashSet.contains s.directories from ≡ false
    → check_parent_exists_with_state s to ≡ ok tt
    → normalize_path to ≡ ok to
    → IsTree (rename_entry s from to).0
unfolding rename_entry
rename_entry-IsTree s from to t no_directory parent canonical =
    elim (Option-cases (HashMap.get s.files from)) [
      | inl e ↦ rw (e, rename_entry) (rw no_directory t)
      | inr (f, e) ↦
          rw (e, rename_entry)
            (if_rule TreeAfter (HashSet.contains s.directories to) _ _ (λ _. t)
              (λ free.
                move-IsTree s from to f t
                  (record { free = free; parent = parent; canonical = canonical })))
    ]

rename-IsTree :
    (s : StorageState) (from_path to_path : Text)
    → IsTree s
    → ((p : Text) → normalize_path from_path ≡ ok p → HashSet.contains s.directories p ≡ false)
    → IsTree (rename s from_path to_path).0
unfolding rename
rename-IsTree s from_path to_path t no_directory = elim (Result-cases (normalize_path from_path)) [
  | inl (from, e) ↦ elim (Result-cases (normalize_path to_path)) [
    | inl (to, f) ↦
        rw (e, rename)
          (rw f (
            if_rule TreeAfter (from == to) _ _ (λ _. t)
              (λ _. elim (Result-cases (check_parent_exists_with_state s to)) [
                | inl (done, g) ↦ rw g (
                    rename_entry-IsTree s from to t (no_directory from e) g
                      (normalize_path_again to_path f))
                | inr (x, g) ↦ rw g t
              ])))
    | inr (x, f) ↦ rw (e, rename) (rw f t)
  ]
  | inr (x, e) ↦ rw (e, rename) t
]

-- A rename whose source is a directory is left aside.
abbrev pub MovesNoDirectory : Operation → StorageState → Type 0
MovesNoDirectory (rename_call from to) s =
    (p : Text) → normalize_path from ≡ ok p → HashSet.contains s.directories p ≡ false
MovesNoDirectory op s = Unit {0}

perform-IsTree :
    (op : Operation) (s : StorageState) → IsTree s → MovesNoDirectory op s → IsTree (perform op s).0
unfolding perform
perform-IsTree (write_call now path bytes) s t m = write-IsTree now s path bytes t
perform-IsTree (write_at_call now path offset bytes) s t m =
    write_at-IsTree now s path offset bytes t
perform-IsTree (set_size_call now path size) s t m = set_size-IsTree now s path size t
perform-IsTree (delete_call path) s t m = delete-IsTree s path t
perform-IsTree (mkdir_call path) s t m = mkdir-IsTree s path t
perform-IsTree (rmdir_call path) s t m = rmdir-IsTree s path t
perform-IsTree (rename_call from to) s t m = rename-IsTree s from to t m

new_root : (p : Text) → HashSet.contains new.directories p ≡ true → root ≡ p
unfolding new HashSet.contains HashSet.insert
new_root p h = ground (arith, eq_iff root p)

new-IsTree : IsTree new
unfolding new HashMap.get HashSet.contains HashSet.insert check_parent_exists_with_state parent_path
new-IsTree =
    let only = λ (p : Text) (h : HashSet.contains new.directories p ≡ true). new_root p h in
    record {
      rooted = refl;
      apart = λ p h. absurd (ground arith);
      file_parent = λ p h. absurd (ground arith);
      directory_parent = λ p h. subst (λ q. HasParent new q) (only p h) refl;
      file_canonical = λ p h. absurd (ground arith);
      directory_canonical = λ p h. subst (λ q. normalize_path q ≡ ok q) (only p h) normalize_root;
    }

abbrev pub performs : List Operation → StorageState → StorageState
performs [] s = s
performs (op ∷ ops) s = performs ops (perform op s).0

abbrev pub MoveNoDirectory : List Operation → StorageState → Type 0
MoveNoDirectory [] s = Unit {0}
MoveNoDirectory (op ∷ ops) s = MovesNoDirectory op s × MoveNoDirectory ops (perform op s).0

performs-IsTree :
    (ops : List Operation) (s : StorageState)
    → IsTree s
    → MoveNoDirectory ops s
    → IsTree (performs ops s)
performs-IsTree [] s t m = t
performs-IsTree (op ∷ ops) s t m =
    performs-IsTree ops (perform op s).0 (perform-IsTree op s t m.0) m.1

-- The tree, with the directory that each path but "/" lies in.
pub record IsHierarchy (s : StorageState) : Type 0 where
  pub tree : IsTree s
  pub files_lie : (p : Text) → contains_key s.files p ≡ true → p ≢ root → LiesIn s p
  pub directories_lie : (p : Text) → HashSet.contains s.directories p ≡ true → p ≢ root → LiesIn s p

-- From a new storage, under every sequence of writes, writes at an offset, changes of size, deletes,
-- mkdirs, rmdirs and renames, where no rename names a directory as its source, and whatever the
-- calls return (`mkdir_sync` is not among them): "/" is a directory, each other file and directory has a parent, which is a directory, no
-- path is a file and a directory, and all paths are in normal form.
pub storage-IsHierarchy :
    (ops : List Operation) → MoveNoDirectory ops new → IsHierarchy (performs ops new)
storage-IsHierarchy ops m =
    let tree = performs-IsTree ops new new-IsTree m in
    record {
      tree = tree;
      files_lie = λ p. file-LiesIn (performs ops new) p tree;
      directories_lie = λ p. directory-LiesIn (performs ops new) p tree;
    }
