-- ===== src/Vfs/Hybrid/Host.antt =====
-- What the calls of crates/eryx-vfs/src/hybrid_host.rs do with a descriptor that was found in the table:
-- flags, sizes, reads, writes and metadata. `now` is the time.
use eryx.Prelude.{
  ℕ, Bool, List, [], ◌∷◌, ◌++◌, Result, ok, err, ◌>>=◌, ◌==◌, text_keys, not, map, length,
  if◌then◌else◌,
}
use eryx.Prelude.Text.{Text, codes}
use eryx.Vfs.Path.{VfsError}
use eryx.Vfs.Storage.{Outcome, StorageState, Metadata}
use eryx.Vfs.Storage as Storage
use eryx.Vfs.Storage.Directories as Directories
use eryx.Vfs.Descriptor.{DescriptorFlags, DescriptorType, DirectoryEntry, type_of, directory_entry}
use eryx.Vfs.Hybrid.{
  CapEntry, CapStd, RealDir, HybridDescriptor, vfs, real_dir, real_file, descriptor_path,
}
use eryx.Vfs.Hybrid.Reply.{
  HybridState, host_error, DescriptorStat, vfs_metadata_to_stat, kind_of, cap_metadata_to_stat,
  Reply, shown, from_vfs, from_io, refuse, give, stored, on_host, length_reply, with_eof, eof_reply,
}
use eryx.Vfs.Hybrid.Restricted as Restricted

module _ {D F : Type 0} where
  unfoldable pub get_flags : HybridDescriptor D F → DescriptorFlags
  get_flags (vfs d) = record { read = d.file_perms.read; write = d.file_perms.write }
  get_flags (real_dir dir guest_path) = record {
    read = dir.file_perms.read;
    write = dir.file_perms.write;
  }
  get_flags (real_file file guest_path) = record { read = file.readable; write = file.writable }

  unfoldable pub get_type : HybridDescriptor D F → DescriptorType
  unfolding type_of
  get_type (vfs d) = type_of d.is_dir
  get_type (real_dir dir guest_path) = DescriptorType.directory
  get_type (real_file file guest_path) = DescriptorType.regular_file

  unfoldable pub is_same_object : HybridDescriptor D F → HybridDescriptor D F → Bool
  is_same_object a b = descriptor_path a == descriptor_path b

module _ {D : Type 0} where
  -- The loop over the entries of a host directory.
  unfoldable pub host_entries : RealDir D → List CapEntry → Result (List DirectoryEntry) VfsError
  unfolding kind_of
  host_entries dir [] = ok []
  host_entries dir (entry ∷ rest) = elim entry.file_type [
    | err e ↦ err (shown (codes "file_type: ") e)
    | ok t ↦ host_entries dir rest >>= λ es.
        ok (record { name = Restricted.guest_name dir.dir entry; kind = kind_of t } ∷ es)
  ]

module _ {W D F : Type 0} (cap : CapStd W D F) where
  unfoldable pub sync_data : HybridState W → HybridDescriptor D F → HybridState W × Reply (Unit {0})
  sync_data s (vfs d) = give s tt
  sync_data s (real_dir dir guest_path) = give s tt
  sync_data s (real_file file guest_path) = on_host s host_error (cap.sync_data s.world file.file)

  unfoldable pub sync : HybridState W → HybridDescriptor D F → HybridState W × Reply (Unit {0})
  sync s (vfs d) = give s tt
  sync s (real_dir dir guest_path) = give s tt
  sync s (real_file file guest_path) = on_host s host_error (cap.sync_all s.world file.file)

  unfoldable pub set_size :
      ℕ → HybridState W → HybridDescriptor D F → ℕ → HybridState W × Reply (Unit {0})
  set_size now s (vfs d) size =
      if d.is_dir
      then refuse s (VfsError.not_file d.path)
      else if not d.file_perms.write
      then refuse s (VfsError.permission_denied (codes "write"))
      else stored s (Storage.set_size now s.storage d.path size)
  set_size now s (real_dir dir guest_path) size = refuse s (VfsError.not_file guest_path)
  set_size now s (real_file file guest_path) size =
      if not file.writable
      then refuse s (VfsError.permission_denied (codes "write"))
      else on_host s (shown []) (cap.set_len s.world file.file size)

  unfoldable pub read :
      HybridState W → HybridDescriptor D F → ℕ → ℕ → HybridState W × Reply (Text × Bool)
  read s (vfs d) len offset =
      if d.is_dir
      then refuse s (VfsError.not_file d.path)
      else if not d.file_perms.read
      then refuse s (VfsError.permission_denied (codes "read"))
      else (s, eof_reply len (Storage.read_at s.storage d.path offset len))
  read s (real_dir dir guest_path) len offset = refuse s (VfsError.not_file guest_path)
  read s (real_file file guest_path) len offset =
      if not file.readable then refuse s (VfsError.permission_denied (codes "read")) else (
        s,
        from_io (shown (codes "read " ++ (guest_path ++ codes ": ")))
            (cap.read_at s.world file.file len offset >>= λ bytes. ok (with_eof len bytes)),
      )

  unfoldable pub write :
      ℕ → HybridState W → HybridDescriptor D F → Text → ℕ → HybridState W × Reply ℕ
  write now s (vfs d) buf offset =
      if d.is_dir
      then refuse s (VfsError.not_file d.path)
      else if not d.file_perms.write
      then refuse s (VfsError.permission_denied (codes "write"))
      else length_reply s (length buf) (Storage.write_at now s.storage d.path offset buf)
  write now s (real_dir dir guest_path) buf offset = refuse s (VfsError.not_file guest_path)
  write now s (real_file file guest_path) buf offset =
      if not file.writable
      then refuse s (VfsError.permission_denied (codes "write"))
      else on_host s (shown (codes "write " ++ (guest_path ++ codes ": ")))
          (cap.write_at s.world file.file buf offset)

  unfoldable pub read_directory :
      ℕ → HybridState W → HybridDescriptor D F → HybridState W × Reply (List DirectoryEntry)
  unfolding host_entries
  read_directory now s (vfs d) =
      if not d.is_dir
      then refuse s (VfsError.not_directory d.path)
      else if not d.dir_perms.read
      then refuse s (VfsError.permission_denied (codes "read"))
      else (
        s,
        from_vfs (Directories.list now s.storage d.path >>= λ es. ok (map directory_entry es)),
      )
  read_directory now s (real_dir dir guest_path) =
      if not dir.dir_perms.read
      then refuse s (VfsError.permission_denied (codes "read"))
      else elim (Restricted.entries cap s.world dir.dir) [
        | err e ↦
            (s, Outcome.returns (err (shown (codes "read_dir " ++ (guest_path ++ codes ": ")) e)))
        | ok raw ↦ (s, Outcome.returns (host_entries dir raw))
      ]
  read_directory now s (real_file file guest_path) = refuse s (VfsError.not_directory guest_path)

  unfoldable pub stat :
      ℕ → HybridState W → HybridDescriptor D F → HybridState W × Reply DescriptorStat
  stat now s (vfs d) =
      (s, from_vfs (Storage.stat now s.storage d.path >>= λ meta. ok (vfs_metadata_to_stat meta)))
  stat now s (real_dir dir guest_path) = (
    s,
    from_io (shown (codes "stat " ++ (guest_path ++ codes ": ")))
        (Restricted.dir_metadata cap s.world dir.dir >>= λ meta. ok (cap_metadata_to_stat meta)),
  )
  stat now s (real_file file guest_path) = (
    s,
    from_io (shown (codes "stat " ++ (guest_path ++ codes ": ")))
        (cap.file_metadata s.world file.file >>= λ meta. ok (cap_metadata_to_stat meta)),
  )
