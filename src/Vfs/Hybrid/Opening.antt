-- ===== src/Vfs/Hybrid/Opening.antt =====
-- `open_at` of crates/eryx-vfs/src/hybrid_host.rs, up to the push of the new descriptor.
use eryx.Prelude.{
  ℕ, Bool, true, false, ◌&&◌, ◌||◌, [], ◌∷◌, ◌++◌, ok, err, nat_eq, not, if◌then◌else◌,
}
use eryx.Prelude.Text.{Text, codes}
use eryx.Vfs.Path.{VfsError, root, slash}
use eryx.Vfs.Storage.{Outcome, StorageState}
use eryx.Vfs.Storage as Storage
use eryx.Vfs.Descriptor.{
  FilePerms, OpenFlags, DescriptorFlags, VfsDescriptor, dir, file, resolve_path,
}
use eryx.Vfs.Hybrid.{
  ErrorKind, IoError, OpenOptions, CapStd, RealDir, HybridDescriptor, vfs, real_dir, real_file,
}
use eryx.Vfs.Hybrid.Reply.{HybridState, Reply, refuse, give}
use eryx.Vfs.Hybrid.Paths.{denied}
use eryx.Vfs.Hybrid.Restricted as Restricted

-- The permissions of a file that is opened in the storage: what the flags ask for.
unfoldable pub perms_of : DescriptorFlags → FilePerms
perms_of flags = record { read = flags.read; write = flags.write }

-- `trim_end_matches('/')`
unfoldable pub trim_end_slashes : Text → Text
trim_end_slashes [] = []
trim_end_slashes (c ∷ cs) = elim (trim_end_slashes cs) [
  | [] ↦ if nat_eq c slash then [] else c ∷ []
  | d ∷ ds ↦ c ∷ d ∷ ds
]

unfoldable pub is_kind : ErrorKind → ErrorKind → Bool
is_kind ErrorKind.not_found ErrorKind.not_found = true
is_kind ErrorKind.permission_denied ErrorKind.permission_denied = true
is_kind ErrorKind.already_exists ErrorKind.already_exists = true
is_kind a b = false

unfoldable pub open_dir_error : Text → IoError → VfsError
unfolding is_kind
open_dir_error full_path e =
    if is_kind e.kind ErrorKind.not_found || is_kind e.kind ErrorKind.permission_denied
    then (VfsError.not_found full_path)
    else (VfsError.io (codes "open_dir " ++ (full_path ++ (codes ": " ++ e.message))))

unfoldable pub open_error : Text → IoError → VfsError
unfolding is_kind
open_error full_path e =
    if is_kind e.kind ErrorKind.not_found || is_kind e.kind ErrorKind.permission_denied
    then (VfsError.not_found full_path)
    else if is_kind e.kind ErrorKind.already_exists
    then (VfsError.already_exists full_path)
    else (VfsError.io (codes "open " ++ (full_path ++ (codes ": " ++ e.message))))

module _ {W D F : Type 0} (cap : CapStd W D F) where
  abbrev pub Opened : Type 0
  Opened = HybridState W × Reply (HybridDescriptor D F)

  unfoldable pub open_vfs_directory : ℕ → HybridState W → VfsDescriptor → Text → Bool → Opened
  open_vfs_directory now s d full_path exists =
      if not exists
      then refuse s (VfsError.not_found full_path)
      else elim (Storage.stat now s.storage full_path) [
        | err e ↦ refuse s e
        | ok meta ↦
            if not meta.is_dir
            then refuse s (VfsError.not_directory full_path)
            else give s (vfs (dir full_path d.dir_perms d.file_perms))
      ]

  -- `write(&full_path, &[])`, and the descriptor of the file if that succeeds.
  unfoldable pub empty_file : ℕ → HybridState W → Text → FilePerms → Opened
  empty_file now s full_path file_perms =
      let (storage, r) = Storage.write now s.storage full_path [] in
      elim r [
        | err e ↦ refuse (record s { storage = storage }) e
        | ok _ ↦ give (record s { storage = storage }) (vfs (file full_path file_perms))
      ]

  unfoldable pub open_vfs_file :
      ℕ → HybridState W → VfsDescriptor → Text → OpenFlags → FilePerms → Bool → Opened
  unfolding empty_file
  open_vfs_file now s d full_path oflags file_perms exists =
      if oflags.exclusive && exists
      then refuse s (VfsError.already_exists full_path)
      else if not exists
      then if not oflags.create
        then refuse s (VfsError.not_found full_path)
        else if not d.dir_perms.mutate
        then refuse s (denied (codes "mutate"))
        else empty_file now s full_path file_perms
      else elim (Storage.stat now s.storage full_path) [
        | err e ↦ refuse s e
        | ok meta ↦
            if meta.is_dir
            then refuse s (VfsError.not_file full_path)
            else if oflags.truncate
            then if not d.dir_perms.mutate
              then refuse s (denied (codes "mutate"))
              else empty_file now s full_path file_perms
            else give s (vfs (file full_path file_perms))
      ]

  unfoldable pub open_vfs :
      ℕ → HybridState W → VfsDescriptor → Text → OpenFlags → DescriptorFlags → Opened
  unfolding open_vfs_directory open_vfs_file perms_of
  open_vfs now s d path oflags flags =
      let full_path = resolve_path d path in
      if not d.is_dir
      then refuse s (VfsError.not_directory d.path)
      else elim (Storage.exists s.storage full_path) [
        | err e ↦ refuse s e
        | ok exists ↦
            if oflags.directory
            then open_vfs_directory now s d full_path exists
            else open_vfs_file now s d full_path oflags (perms_of flags) exists
      ]

  unfoldable pub open_real_dir : HybridState W → RealDir D → Text → Text → Opened
  unfolding open_dir_error
  open_real_dir s dir path full_path = elim (Restricted.open_dir cap s.world dir.dir path) [
    | err e ↦ (s, Outcome.returns (err (open_dir_error full_path e)))
    | ok sub ↦ give s (real_dir (record dir { dir = sub }) full_path)
  ]

  -- The options that a file of the host is opened with.
  abbrev pub options : OpenFlags → DescriptorFlags → OpenOptions
  options oflags flags = record {
    read = flags.read;
    write = flags.write;
    create = oflags.create;
    truncate = oflags.truncate;
    create_new = oflags.exclusive;
  }

  unfoldable pub open_real_file :
      HybridState W → RealDir D → Text → Text → OpenFlags → DescriptorFlags → Opened
  unfolding open_error
  open_real_file s dir path full_path oflags flags =
      let (world, r) = Restricted.open_with cap s.world dir.dir path (options oflags flags) in
      if flags.read && not dir.file_perms.read
      then refuse s (denied (codes "read access denied for " ++ full_path))
      else if flags.write && not dir.file_perms.write
      then refuse s (denied (codes "write access denied for " ++ full_path))
      else if oflags.create && not dir.dir_perms.mutate
      then refuse s (denied (codes "create access denied for " ++ full_path))
      else elim r [
        | err e ↦ (record s { world = world }, Outcome.returns (err (open_error full_path e)))
        | ok f ↦
            give (record s { world = world })
              (real_file
                (record {
                  file = f;
                  perms = dir.file_perms;
                  readable = flags.read;
                  writable = flags.write;
                  allow_blocking = dir.allow_blocking;
                })
                full_path)
      ]

  unfoldable pub open_at :
      ℕ → HybridState W → HybridDescriptor D F → Text → OpenFlags → DescriptorFlags → Opened
  unfolding open_vfs open_real_dir open_real_file trim_end_slashes
  open_at now s (vfs d) path oflags flags = open_vfs now s d path oflags flags
  open_at now s (real_dir dir guest_path) path oflags flags =
      let full_path = trim_end_slashes guest_path ++ (root ++ path) in
      if oflags.directory
      then open_real_dir s dir path full_path
      else open_real_file s dir path full_path oflags flags
  open_at now s (real_file f guest_path) path oflags flags =
      refuse s (VfsError.not_directory guest_path)
