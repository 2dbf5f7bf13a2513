-- ===== src/Vfs/Examples.antt =====
-- Calls of the storage of crates/eryx-vfs/src/storage.rs at concrete inputs.
use eryx.Prelude.{◌≡◌, refl, true, some, ◌-◌, ◌^◌, ok, err, List, [], ◌∷◌, arith, text_keys}
use eryx.Prelude.HashMap
use eryx.Prelude.HashSet
use eryx.Prelude.Text.{Text, codes}
use eryx.Vfs.Path.{
  VfsError, normalize_path, collect, split, starts_with, render, absolute_path, pop, parent_path,
  before_slash, rfind_slash,
}
use eryx.Vfs.Path.Canonical.{IsCanonical, normalize_path-IsCanonical}
use eryx.Vfs.Storage.{
  Outcome, StorageState, file_metadata, directory_metadata, new, read, write, write_at,
}
use eryx.Vfs.Storage.Directories.{
  DirEntry, mkdir, rmdir, list, list_files, list_directories, sort_by_name, text_lt,
}
use eryx.Vfs.Storage.Rename.{rename}
use eryx.Vfs.Storage.Operation.{
  Operation, perform, perform-err, write_call, mkdir_call, rmdir_call, rename_call,
}
use eryx.Vfs.Storage.Files.{WritesAt, write_at-WritesAt}
use eryx.Vfs.Storage.Slices.{Slices, read_at-Slices}
use eryx.Vfs.Storage.Moves.{Moves, rename-Moves}
use eryx.Vfs.Storage.Listing.{Lists, list-Lists}
use eryx.Vfs.Storage.Nesting.{Detached, rename_into_itself}
use eryx.Vfs.Storage.Preservation.{IsHierarchy, performs, MoveNoDirectory, storage-IsHierarchy}

clean : normalize_path (codes "/a/./b/..//c/") ≡ ok (codes "/a/c")
unfolding normalize_path collect split starts_with render absolute_path pop
clean = refl

escapes :
    normalize_path (codes "/a/../..") ≡ err (VfsError.invalid_path (codes "path escapes root"))
unfolding normalize_path collect split starts_with render absolute_path pop
escapes = refl

-- A storage with the file "/f" and the directory "/d".
abbrev one_file : StorageState
one_file = record {
  files =
      (codes "/f", record { content = codes "abc"; created = 1; modified = 2; accessed = 1 }) ∷ [];
  directories = codes "/d" ∷ codes "/" ∷ [];
}

normalize_path-IsCanonical_example : IsCanonical (codes "/a/c")
normalize_path-IsCanonical_example = normalize_path-IsCanonical (codes "/a/./b/..//c/") clean

writes_at : (write_at 7 one_file (codes "/f") 5 (codes "xy")).1 ≡ Outcome.returns (ok tt)
unfolding write_at normalize_path collect split starts_with render absolute_path pop parent_path
    before_slash rfind_slash HashSet.contains
writes_at = refl

write_at-WritesAt_example :
    WritesAt one_file
      (write_at 7 one_file (codes "/f") 5 (codes "xy")).0
      (codes "/f")
      5
      (codes "xy")
write_at-WritesAt_example =
    write_at-WritesAt 7 one_file (codes "/f") 5 (codes "xy") (omega arith) writes_at

read_at-Slices_example : Slices one_file (codes "/f") 1 (2 ^ 64 - 1)
read_at-Slices_example =
    read_at-Slices one_file (codes "/f") 1 (2 ^ 64 - 1) (omega arith) (omega arith)

reads : read one_file (codes "/f") ≡ ok (codes "abc")
unfolding read normalize_path collect split starts_with render absolute_path pop HashMap.get
reads = refl

apart : ¬ (normalize_path (codes "/f") ≡ normalize_path (codes "/d/g"))
unfolding normalize_path collect split starts_with render absolute_path pop
apart e = ground arith

moves : (rename one_file (codes "/f") (codes "/d/g")).1 ≡ ok tt
unfolding rename normalize_path collect split starts_with render absolute_path pop parent_path
    before_slash rfind_slash HashSet.contains HashMap.get
moves = refl

rename-Moves_example :
    Moves one_file
      (rename one_file (codes "/f") (codes "/d/g")).0
      (codes "/f")
      (codes "/d/g")
      (codes "abc")
rename-Moves_example =
    rename-Moves one_file (codes "/f") (codes "/d/g") (codes "abc") reads apart moves

abbrev listing : List DirEntry
listing =
    record { name = codes "d"; metadata = directory_metadata 9 }
    ∷ record {
      name = codes "f";
      metadata =
          file_metadata (record { content = codes "abc"; created = 1; modified = 2; accessed = 1 });
    }
    ∷ []

lists : list 9 one_file (codes "/") ≡ ok listing
unfolding list normalize_path collect split starts_with render absolute_path pop HashSet.contains
    list_files list_directories sort_by_name text_lt
lists = refl

list-Lists_example :
    (p : Text) × (normalize_path (codes "/") ≡ ok p)
    × (HashSet.contains one_file.directories p ≡ true)
    × Lists 9 one_file p listing
unfolding new HashMap.get HashSet.contains
list-Lists_example = list-Lists 9 one_file (codes "/") listing (refl, tt) (refl, (refl, tt)) lists

abbrev remove_root : Operation
remove_root = rmdir_call (codes "/")

refused :
    (perform remove_root one_file).1
    ≡ Outcome.returns (err (VfsError.permission_denied (codes "cannot remove root directory")))
unfolding perform rmdir normalize_path collect split starts_with render absolute_path pop
refused = refl

perform-err_example : (perform remove_root one_file).0 ≡ one_file
perform-err_example =
    perform-err remove_root one_file
      (VfsError.permission_denied (codes "cannot remove root directory")) refused

abbrev calls : List Operation
calls =
    mkdir_call (codes "/d")
    ∷ write_call 1 (codes "/d/f") (codes "abc")
    ∷ rename_call (codes "/d/f") (codes "/g")
    ∷ rmdir_call (codes "/d")
    ∷ []

no_directory_moves : MoveNoDirectory calls new
unfolding perform mkdir rmdir rename new write normalize_path collect split starts_with render
    absolute_path pop parent_path before_slash rfind_slash HashSet.contains HashSet.insert
    HashMap.get HashMap.insert HashMap.remove
no_directory_moves = (tt, (tt, ((λ p e. ground arith), (tt, tt))))

storage-IsHierarchy_example : IsHierarchy (performs calls new)
storage-IsHierarchy_example = storage-IsHierarchy calls no_directory_moves

below_root : normalize_path (codes "/x") ≡ ok (codes "/x")
unfolding normalize_path collect split starts_with render absolute_path
below_root = refl

root_itself : normalize_path (codes "/") ≡ ok (codes "/")
unfolding normalize_path collect split starts_with render absolute_path
root_itself = refl

in_root : parent_path (codes "/x") ≡ some (codes "/")
unfolding parent_path before_slash rfind_slash normalize_path collect split starts_with render
    absolute_path
in_root = refl

rename_into_itself_example :
    ((rename one_file (codes "/") (codes "/x")).1 ≡ ok tt)
    × Detached (rename one_file (codes "/") (codes "/x")).0 (codes "/") (codes "/x")
unfolding HashSet.contains HashMap.get
rename_into_itself_example =
    rename_into_itself one_file (codes "/") (codes "/x") (codes "/") (codes "/x") root_itself
      below_root in_root (omega arith) refl refl refl refl
