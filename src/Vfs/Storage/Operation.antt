-- ===== src/Vfs/Storage/Operation.antt =====
-- The calls of the `VfsStorage` trait in crates/eryx-vfs/src/storage.rs that change a storage, as
-- data, except `mkdir_sync`, which is left out.
use eryx.Prelude.{ℕ, ◌≡◌, err, arith}
use eryx.Prelude.Text.{Text}
use eryx.Vfs.Path.{VfsError, VfsResult}
use eryx.Vfs.Storage.{Outcome, StorageState, write, write_at, write_file_at, set_size, delete}
use eryx.Vfs.Storage.Directories.{mkdir, rmdir}
use eryx.Vfs.Storage.Rename.{rename}

-- The numbers are the time, the offset and the size.
pub data Operation : Type 0 where
  write_call : ℕ → Text → Text → Operation
  write_at_call : ℕ → Text → ℕ → Text → Operation
  set_size_call : ℕ → Text → ℕ → Operation
  delete_call : Text → Operation
  mkdir_call : Text → Operation
  rmdir_call : Text → Operation
  rename_call : Text → Text → Operation

abbrev pub Reply : Type 0
Reply = Outcome (VfsResult (Unit {0}))

abbrev returned : StorageState × VfsResult (Unit {0}) → StorageState × Reply
returned (s, r) = (s, Outcome.returns r)

unfoldable pub perform : Operation → StorageState → StorageState × Reply
perform (write_call now path bytes) s = returned (write now s path bytes)
perform (write_at_call now path offset bytes) s = write_at now s path offset bytes
perform (set_size_call now path size) s = returned (set_size now s path size)
perform (delete_call path) s = returned (delete s path)
perform (mkdir_call path) s = returned (mkdir s path)
perform (rmdir_call path) s = returned (rmdir s path)
perform (rename_call from to) s = returned (rename s from to)

-- A write, a write at an offset, a change of size, a delete, a mkdir, a rmdir or a rename that returns an
-- error has changed nothing. `mkdir_sync` is not among the calls.
pub perform-err :
    (op : Operation) (s : StorageState) (e : VfsError)
    → (perform op s).1 ≡ Outcome.returns (err e)
    → (perform op s).0 ≡ s
unfolding perform write write_at write_file_at set_size delete mkdir rmdir rename
perform-err (write_call now path bytes) s e h = ground arith
perform-err (write_at_call now path offset bytes) s e h = ground arith
perform-err (set_size_call now path size) s e h = ground arith
perform-err (delete_call path) s e h = ground arith
perform-err (mkdir_call path) s e h = ground arith
perform-err (rmdir_call path) s e h = ground arith
perform-err (rename_call from to) s e h = ground arith
