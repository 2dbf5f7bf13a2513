-- ===== src/Vfs/Hybrid/Paths.antt =====
-- The calls of crates/eryx-vfs/src/hybrid_host.rs that take a path below a directory descriptor. The hash
-- of a path and a size is an argument.
use eryx.Prelude.{ℕ, ◌||◌, ◌++◌, ok, ◌>>=◌, not, if◌then◌else◌}
use eryx.Prelude.Text.{Text, codes}
use eryx.Vfs.Path.{VfsError, root}
use eryx.Vfs.Storage.{Outcome, StorageState}
use eryx.Vfs.Storage as Storage
use eryx.Vfs.Storage.Directories as Directories
use eryx.Vfs.Storage.Rename as Rename
use eryx.Vfs.Descriptor.{resolve_path}
use eryx.Vfs.Hybrid.{CapStd, HybridDescriptor, vfs, real_dir, real_file}
use eryx.Vfs.Hybrid.Reply.{
  HybridState, DescriptorStat, vfs_metadata_to_stat, cap_metadata_to_stat, Reply, shown, from_vfs,
  from_io, refuse, stored, on_host,
}
use eryx.Vfs.Hybrid.Restricted as Restricted

-- `format!("{what} {guest_path}/{path}: ")`
abbrev pub below : Text → Text → Text → Text
below what guest_path path = what ++ (guest_path ++ (root ++ (path ++ codes ": ")))

abbrev pub denied : Text → VfsError
denied what = VfsError.permission_denied what

module _ {W D F : Type 0} (cap : CapStd W D F) where
  unfoldable pub create_directory_at :
      HybridState W → HybridDescriptor D F → Text → HybridState W × Reply (Unit {0})
  create_directory_at s (vfs d) path =
      if not d.is_dir
      then refuse s (VfsError.not_directory d.path)
      else if not d.dir_perms.mutate
      then refuse s (denied (codes "mutate"))
      else stored s (Directories.mkdir s.storage (resolve_path d path))
  create_directory_at s (real_dir dir guest_path) path =
      if not dir.dir_perms.mutate
      then refuse s (denied (codes "mutate"))
      else on_host s (shown (below (codes "create_dir ") guest_path path))
          (Restricted.create_dir cap s.world dir.dir path)
  create_directory_at s (real_file file guest_path) path =
      refuse s (VfsError.not_directory guest_path)

  unfoldable pub stat_at :
      ℕ → HybridState W → HybridDescriptor D F → Text → HybridState W × Reply DescriptorStat
  stat_at now s (vfs d) path = if not d.is_dir then refuse s (VfsError.not_directory d.path) else (
    s,
    from_vfs (
        Storage.stat now s.storage (resolve_path d path) >>= λ meta.
        ok (vfs_metadata_to_stat meta)),
  )
  stat_at now s (real_dir dir guest_path) path = (
    s,
    from_io (shown (below (codes "stat ") guest_path path))
        (Restricted.metadata cap s.world dir.dir path >>= λ meta. ok (cap_metadata_to_stat meta)),
  )
  stat_at now s (real_file file guest_path) path = refuse s (VfsError.not_directory guest_path)

  unfoldable pub readlink_at :
      HybridState W → HybridDescriptor D F → Text → HybridState W × Reply Text
  readlink_at s (vfs d) path = refuse s (denied (codes "symlinks not supported"))
  readlink_at s (real_dir dir guest_path) path = (
    s,
    from_io (shown (below (codes "readlink ") guest_path path))
        (Restricted.read_link cap s.world dir.dir path),
  )
  readlink_at s (real_file file guest_path) path = refuse s (VfsError.not_directory guest_path)

  unfoldable pub remove_directory_at :
      HybridState W → HybridDescriptor D F → Text → HybridState W × Reply (Unit {0})
  remove_directory_at s (vfs d) path =
      if not d.is_dir
      then refuse s (VfsError.not_directory d.path)
      else if not d.dir_perms.mutate
      then refuse s (denied (codes "mutate"))
      else stored s (Directories.rmdir s.storage (resolve_path d path))
  remove_directory_at s (real_dir dir guest_path) path =
      if not dir.dir_perms.mutate
      then refuse s (denied (codes "mutate"))
      else on_host s (shown (below (codes "rmdir ") guest_path path))
          (Restricted.remove_dir cap s.world dir.dir path)
  remove_directory_at s (real_file file guest_path) path =
      refuse s (VfsError.not_directory guest_path)

  unfoldable pub unlink_file_at :
      HybridState W → HybridDescriptor D F → Text → HybridState W × Reply (Unit {0})
  unlink_file_at s (vfs d) path =
      if not d.is_dir
      then refuse s (VfsError.not_directory d.path)
      else if not d.dir_perms.mutate
      then refuse s (denied (codes "mutate"))
      else stored s (Storage.delete s.storage (resolve_path d path))
  unlink_file_at s (real_dir dir guest_path) path =
      if not dir.dir_perms.mutate
      then refuse s (denied (codes "mutate"))
      else on_host s (shown (below (codes "unlink ") guest_path path))
          (Restricted.remove_file cap s.world dir.dir path)
  unlink_file_at s (real_file file guest_path) path = refuse s (VfsError.not_directory guest_path)

  unfoldable pub symlink_at :
      HybridState W → HybridDescriptor D F → Text → Text → HybridState W × Reply (Unit {0})
  symlink_at s (vfs d) src_path dest_path = refuse s (denied (codes "symlinks not supported"))
  symlink_at s (real_dir dir guest_path) src_path dest_path =
      if not dir.dir_perms.mutate
      then refuse s (denied (codes "mutate"))
      else on_host s (shown (codes "symlink " ++ (guest_path ++ codes ": ")))
          (Restricted.symlink cap s.world dir.dir src_path dest_path)
  symlink_at s (real_file file guest_path) src_path dest_path =
      refuse s (VfsError.not_directory guest_path)

  unfoldable pub link_at : HybridState W → HybridState W × Reply (Unit {0})
  link_at s = refuse s (denied (codes "hard links not supported"))

  abbrev pub cross_filesystem : HybridState W → HybridState W × Reply (Unit {0})
  cross_filesystem s = refuse s (denied (codes "cross-filesystem rename not supported"))

  unfoldable pub rename_at :
      HybridState W
      → HybridDescriptor D F
      → Text
      → HybridDescriptor D F
      → Text
      → HybridState W × Reply (Unit {0})
  rename_at s (vfs old) old_path (vfs new) new_path =
      if not old.is_dir || not new.is_dir
      then refuse s (VfsError.not_directory (codes "descriptor"))
      else if not old.dir_perms.mutate || not new.dir_perms.mutate
      then refuse s (denied (codes "mutate"))
      else stored s
          (Rename.rename s.storage (resolve_path old old_path) (resolve_path new new_path))
  rename_at s (real_dir old_dir old_guest) old_path (real_dir new_dir new_guest) new_path =
      if not old_dir.dir_perms.mutate || not new_dir.dir_perms.mutate
      then refuse s (denied (codes "mutate"))
      else on_host s
          (shown (
            codes "rename "
            ++ (old_guest ++ (root ++ (old_path ++ below (codes " -> ") new_guest new_path)))))
          (Restricted.rename cap s.world old_dir.dir old_path new_dir.dir new_path)
  rename_at s (vfs old) old_path (real_dir dir guest) new_path = cross_filesystem s
  rename_at s (vfs old) old_path (real_file file guest) new_path = cross_filesystem s
  rename_at s (real_dir dir guest) old_path (vfs new) new_path = cross_filesystem s
  rename_at s (real_dir dir guest) old_path (real_file file other) new_path = cross_filesystem s
  rename_at s (real_file file guest) old_path new new_path = cross_filesystem s

  module _ (compute_hash : Text → ℕ → ℕ) where
    unfoldable pub metadata_hash :
        ℕ → HybridState W → HybridDescriptor D F → HybridState W × Reply ℕ
    metadata_hash now s (vfs d) = (
      s,
      from_vfs (Storage.stat now s.storage d.path >>= λ meta. ok (compute_hash d.path meta.size)),
    )
    metadata_hash now s (real_dir dir guest_path) = (
      s,
      from_io (shown (codes "stat " ++ (guest_path ++ codes ": "))) (
          Restricted.dir_metadata cap s.world dir.dir >>= λ meta.
          ok (compute_hash guest_path meta.len)),
    )
    metadata_hash now s (real_file file guest_path) = (
      s,
      from_io (shown (codes "stat " ++ (guest_path ++ codes ": ")))
          (cap.file_metadata s.world file.file >>= λ meta. ok (compute_hash guest_path meta.len)),
    )

    unfoldable pub metadata_hash_at :
        ℕ → HybridState W → HybridDescriptor D F → Text → HybridState W × Reply ℕ
    metadata_hash_at now s (vfs d) path =
        let full_path = resolve_path d path in
        (
          s,
          from_vfs (
              Storage.stat now s.storage full_path >>= λ meta.
              ok (compute_hash full_path meta.size)),
        )
    metadata_hash_at now s (real_dir dir guest_path) path = (
      s,
      from_io (shown (below (codes "stat ") guest_path path)) (
          Restricted.metadata cap s.world dir.dir path >>= λ meta.
          ok (compute_hash (guest_path ++ (root ++ path)) meta.len)),
    )
    metadata_hash_at now s (real_file file guest_path) path =
        refuse s (VfsError.not_directory guest_path)
