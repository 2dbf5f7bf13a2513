-- ===== src/Vfs/Host.antt =====
-- What the calls of crates/eryx-vfs/src/host.rs, where every path is one of the storage, do with a
-- descriptor that was found in the table. Times are nanoseconds from the epoch; the hash of a path and a
-- size is an argument.
pub mod Opening
pub mod Calls
mod Agreement
mod Examples
use eryx.Prelude.{
  ℕ, zero, suc, ◌/◌, ◌%◌, ◌^◌, Bool, ◌||◌, Option, some, List, [], ◌∷◌, Result, ok, err, ◌>>=◌,
  ◌==◌, text_keys, not, map, length, if◌then◌else◌,
}
use eryx.Prelude.Text.{Text, codes}
use eryx.Vfs.Path.{VfsError, VfsResult}
use eryx.Vfs.Storage.{Outcome, StorageState, Metadata}
use eryx.Vfs.Storage as Storage
use eryx.Vfs.Storage.Directories as Directories
use eryx.Vfs.Storage.Rename as Rename
use eryx.Vfs.Descriptor.{
  DescriptorFlags, DescriptorType, VfsDescriptor, VfsReaddirIterator, type_of, resolve_path,
  iterator_new,
}
use eryx.Vfs.Streams.{VfsInputStream, VfsOutputStream, input_new, output_write_at, output_append}
use eryx.Vfs.Hybrid.Reply.{DescriptorStat, Reply, from_vfs, with_eof, eof_reply}

abbrev pub systemtime_to_datetime : ℕ → ℕ × ℕ
systemtime_to_datetime time = (time / 10 ^ 9, time % 10 ^ 9)

unfoldable pub metadata_to_stat : Metadata → DescriptorStat
unfolding type_of
metadata_to_stat meta = record {
  kind = type_of meta.is_dir;
  link_count = 1;
  size = meta.size;
  data_access = some (systemtime_to_datetime meta.accessed);
  data_modification = some (systemtime_to_datetime meta.modified);
  status_change = some (systemtime_to_datetime meta.modified);
}

module _ {A : Type 0} where
  abbrev pub refused : StorageState → VfsError → StorageState × Reply A
  refused s e = (s, Outcome.returns (err e))

  abbrev pub gives : StorageState → A → StorageState × Reply A
  gives s a = (s, Outcome.returns (ok a))

  abbrev pub kept : StorageState × VfsResult A → StorageState × Reply A
  kept (storage, r) = (storage, from_vfs r)

abbrev pub write_reply : ℕ → StorageState × Outcome (VfsResult (Unit {0})) → StorageState × Reply ℕ
write_reply len (storage, Outcome.panics) = (storage, Outcome.panics)
write_reply len (storage, Outcome.returns r) = (storage, from_vfs (r >>= λ _. ok len))

unfoldable pub get_flags : VfsDescriptor → DescriptorFlags
get_flags d = record { read = d.file_perms.read; write = d.file_perms.write }

unfoldable pub get_type : VfsDescriptor → DescriptorType
unfolding type_of
get_type d = type_of d.is_dir

unfoldable pub set_size : ℕ → StorageState → VfsDescriptor → ℕ → StorageState × Reply (Unit {0})
set_size now s d size =
    if d.is_dir
    then refused s (VfsError.not_file d.path)
    else if not d.file_perms.write
    then refused s (VfsError.permission_denied (codes "write"))
    else kept (Storage.set_size now s d.path size)

unfoldable pub read : StorageState → VfsDescriptor → ℕ → ℕ → StorageState × Reply (Text × Bool)
read s d len offset =
    if d.is_dir
    then refused s (VfsError.not_file d.path)
    else if not d.file_perms.read
    then refused s (VfsError.permission_denied (codes "read"))
    else (s, eof_reply len (Storage.read_at s d.path offset len))

unfoldable pub write : ℕ → StorageState → VfsDescriptor → Text → ℕ → StorageState × Reply ℕ
write now s d buf offset =
    if d.is_dir
    then refused s (VfsError.not_file d.path)
    else if not d.file_perms.write
    then refused s (VfsError.permission_denied (codes "write"))
    else write_reply (length buf) (Storage.write_at now s d.path offset buf)

unfoldable pub read_directory :
    ℕ → StorageState → VfsDescriptor → StorageState × Reply VfsReaddirIterator
read_directory now s d =
    if not d.is_dir
    then refused s (VfsError.not_directory d.path)
    else if not d.dir_perms.read
    then refused s (VfsError.permission_denied (codes "read"))
    else (s, from_vfs (Directories.list now s d.path >>= λ es. ok (iterator_new es)))

unfoldable pub create_directory_at :
    StorageState → VfsDescriptor → Text → StorageState × Reply (Unit {0})
create_directory_at s d path =
    if not d.is_dir
    then refused s (VfsError.not_directory d.path)
    else if not d.dir_perms.mutate
    then refused s (VfsError.permission_denied (codes "mutate"))
    else kept (Directories.mkdir s (resolve_path d path))

unfoldable pub stat : ℕ → StorageState → VfsDescriptor → StorageState × Reply DescriptorStat
stat now s d = (s, from_vfs (Storage.stat now s d.path >>= λ meta. ok (metadata_to_stat meta)))

unfoldable pub stat_at :
    ℕ → StorageState → VfsDescriptor → Text → StorageState × Reply DescriptorStat
stat_at now s d path = if not d.is_dir then refused s (VfsError.not_directory d.path) else (
  s,
  from_vfs (Storage.stat now s (resolve_path d path) >>= λ meta. ok (metadata_to_stat meta)),
)

unfoldable pub link_at : StorageState → StorageState × Reply (Unit {0})
link_at s = refused s (VfsError.permission_denied (codes "hard links not supported"))

unfoldable pub readlink_at : StorageState → VfsDescriptor → Text → StorageState × Reply Text
readlink_at s d path = refused s (VfsError.permission_denied (codes "symlinks not supported"))

unfoldable pub symlink_at :
    StorageState → VfsDescriptor → Text → Text → StorageState × Reply (Unit {0})
symlink_at s d src_path dest_path =
    refused s (VfsError.permission_denied (codes "symlinks not supported"))

unfoldable pub remove_directory_at :
    StorageState → VfsDescriptor → Text → StorageState × Reply (Unit {0})
remove_directory_at s d path =
    if not d.is_dir
    then refused s (VfsError.not_directory d.path)
    else if not d.dir_perms.mutate
    then refused s (VfsError.permission_denied (codes "mutate"))
    else kept (Directories.rmdir s (resolve_path d path))

unfoldable pub rename_at :
    StorageState → VfsDescriptor → Text → VfsDescriptor → Text → StorageState × Reply (Unit {0})
rename_at s old old_path new new_path =
    if not old.is_dir || not new.is_dir
    then refused s (VfsError.not_directory (codes "descriptor"))
    else if not old.dir_perms.mutate || not new.dir_perms.mutate
    then refused s (VfsError.permission_denied (codes "mutate"))
    else kept (Rename.rename s (resolve_path old old_path) (resolve_path new new_path))

unfoldable pub unlink_file_at :
    StorageState → VfsDescriptor → Text → StorageState × Reply (Unit {0})
unlink_file_at s d path =
    if not d.is_dir
    then refused s (VfsError.not_directory d.path)
    else if not d.dir_perms.mutate
    then refused s (VfsError.permission_denied (codes "mutate"))
    else kept (Storage.delete s (resolve_path d path))

unfoldable pub read_via_stream : VfsDescriptor → ℕ → Result VfsInputStream VfsError
read_via_stream d offset =
    if d.is_dir
    then err (VfsError.not_file d.path)
    else if not d.file_perms.read
    then err (VfsError.permission_denied (codes "read"))
    else ok (input_new d.path offset)

unfoldable pub write_via_stream : VfsDescriptor → ℕ → Result VfsOutputStream VfsError
write_via_stream d offset =
    if d.is_dir
    then err (VfsError.not_file d.path)
    else if not d.file_perms.write
    then err (VfsError.permission_denied (codes "write"))
    else ok (output_write_at d.path offset)

unfoldable pub append_via_stream : VfsDescriptor → Result VfsOutputStream VfsError
append_via_stream d =
    if d.is_dir
    then err (VfsError.not_file d.path)
    else if not d.file_perms.write
    then err (VfsError.permission_denied (codes "write"))
    else ok (output_append d.path)

unfoldable pub is_same_object : VfsDescriptor → VfsDescriptor → Bool
is_same_object a b = a.path == b.path

module _ (compute_hash : Text → ℕ → ℕ) where
  unfoldable pub metadata_hash : ℕ → StorageState → VfsDescriptor → StorageState × Reply ℕ
  metadata_hash now s d =
      (s, from_vfs (Storage.stat now s d.path >>= λ meta. ok (compute_hash d.path meta.size)))

  unfoldable pub metadata_hash_at : ℕ → StorageState → VfsDescriptor → Text → StorageState × Reply ℕ
  metadata_hash_at now s d path =
      let full_path = resolve_path d path in
      (s, from_vfs (Storage.stat now s full_path >>= λ meta. ok (compute_hash full_path meta.size)))
