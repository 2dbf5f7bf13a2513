-- ===== src/Vfs/Host/Opening.antt =====
-- `open_at` of crates/eryx-vfs/src/host.rs, up to the push of the new descriptor.
use eryx.Prelude.{ℕ, Bool, ◌&&◌, [], ok, err, not, if◌then◌else◌}
use eryx.Prelude.Text.{Text, codes}
use eryx.Vfs.Path.{VfsError}
use eryx.Vfs.Storage.{StorageState}
use eryx.Vfs.Storage as Storage
use eryx.Vfs.Descriptor.{
  FilePerms, OpenFlags, DescriptorFlags, VfsDescriptor, dir, file, resolve_path,
}
use eryx.Vfs.Hybrid.Reply.{Reply}
use eryx.Vfs.Host.{refused, gives}

abbrev pub Opened : Type 0
Opened = StorageState × Reply VfsDescriptor

unfoldable pub file_perms_of : DescriptorFlags → FilePerms
file_perms_of flags = record { read = flags.read; write = flags.write }

unfoldable pub open_directory : ℕ → StorageState → VfsDescriptor → Text → Bool → Opened
open_directory now s d full_path exists =
    if not exists
    then refused s (VfsError.not_found full_path)
    else elim (Storage.stat now s full_path) [
      | err e ↦ refused s e
      | ok meta ↦
          if not meta.is_dir
          then refused s (VfsError.not_directory full_path)
          else gives s (dir full_path d.dir_perms d.file_perms)
    ]

-- `write(&full_path, &[])`, and the descriptor of the file if that succeeds.
unfoldable pub emptied : ℕ → StorageState → Text → FilePerms → Opened
emptied now s full_path file_perms =
    let (storage, r) = Storage.write now s full_path [] in
    elim r [ err e ↦ refused storage e | ok _ ↦ gives storage (file full_path file_perms) ]

unfoldable pub open_file :
    ℕ → StorageState → VfsDescriptor → Text → OpenFlags → FilePerms → Bool → Opened
unfolding emptied
open_file now s d full_path oflags file_perms exists =
    if oflags.exclusive && exists
    then refused s (VfsError.already_exists full_path)
    else if not exists
    then if not oflags.create
      then refused s (VfsError.not_found full_path)
      else if not d.dir_perms.mutate
      then refused s (VfsError.permission_denied (codes "mutate"))
      else emptied now s full_path file_perms
    else elim (Storage.stat now s full_path) [
      | err e ↦ refused s e
      | ok meta ↦
          if meta.is_dir
          then refused s (VfsError.not_file full_path)
          else if oflags.truncate
          then if not d.dir_perms.mutate
            then refused s (VfsError.permission_denied (codes "mutate"))
            else emptied now s full_path file_perms
          else gives s (file full_path file_perms)
    ]

unfoldable pub open_at :
    ℕ → StorageState → VfsDescriptor → Text → OpenFlags → DescriptorFlags → Opened
unfolding open_directory open_file file_perms_of
open_at now s d path oflags flags =
    let full_path = resolve_path d path in
    if not d.is_dir
    then refused s (VfsError.not_directory d.path)
    else elim (Storage.exists s full_path) [
      | err e ↦ refused s e
      | ok exists ↦
          if oflags.directory
          then open_directory now s d full_path exists
          else open_file now s d full_path oflags (file_perms_of flags) exists
    ]
