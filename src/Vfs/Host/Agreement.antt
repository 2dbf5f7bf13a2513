-- ===== src/Vfs/Host/Agreement.antt =====
-- The calls of crates/eryx-vfs/src/host.rs beside those of hybrid_host.rs on a descriptor of the storage.
use eryx.Prelude.{ℕ, ◌≡◌, refl, ap, ok, err, Result, text_keys, ◌>>=◌, arith}
use eryx.Prelude.Text.{Text}
use eryx.Vfs.Path.{VfsError}
use eryx.Vfs.Storage.{Outcome, StorageState, Metadata}
use eryx.Vfs.Storage as Storage
use eryx.Vfs.Descriptor.{OpenFlags, DescriptorFlags, VfsDescriptor, iterator_new, resolve_path}
use eryx.Vfs.Hybrid.{CapStd, descriptor_path}
use eryx.Vfs.Hybrid.Reply.{HybridState, from_vfs, vfs_metadata_to_stat}
use eryx.Vfs.Hybrid.Host as Hybrid
use eryx.Vfs.Hybrid.Paths as Paths
use eryx.Vfs.Hybrid.Opening as HybridOpening
use eryx.Vfs.Host as Host
use eryx.Vfs.Host.{metadata_to_stat}
use eryx.Vfs.Host.Opening as Opening
use eryx.Vfs.Host.Calls.{
  HostCall, set_size, read, write, read_directory, stat, create_directory_at, stat_at,
  remove_directory_at, unlink_file_at, readlink_at, symlink_at, open_at, rename_at, link_at,
  get_flags, get_type, metadata_hash, append_via_stream, metadata_hash_at, is_same_object,
  read_via_stream, write_via_stream, info, replies, without_times, host_call, hybrid_call, beside,
}

module _ {W D F : Type 0} (cap : CapStd W D F) (compute_hash : Text → ℕ → ℕ) where
  agrees_set_size :
      (now : ℕ) (s : HybridState W) (d : VfsDescriptor) (size : ℕ)
      → hybrid_call cap compute_hash now s d (set_size size)
        ≡ beside cap compute_hash s (host_call compute_hash now s.storage d (set_size size))
  unfolding Host.set_size Hybrid.set_size
  agrees_set_size now s d size = ground arith

  agrees_read :
      (now : ℕ) (s : HybridState W) (d : VfsDescriptor) (len offset : ℕ)
      → hybrid_call cap compute_hash now s d (read len offset)
        ≡ beside cap compute_hash s (host_call compute_hash now s.storage d (read len offset))
  unfolding Host.read Hybrid.read
  agrees_read now s d len offset = ground arith

  agrees_write :
      (now : ℕ) (s : HybridState W) (d : VfsDescriptor) (buf : Text) (offset : ℕ)
      → hybrid_call cap compute_hash now s d (write buf offset)
        ≡ beside cap compute_hash s (host_call compute_hash now s.storage d (write buf offset))
  unfolding Host.write Hybrid.write
  agrees_write now s d buf offset = ground arith

  agrees_read_directory :
      (now : ℕ) (s : HybridState W) (d : VfsDescriptor)
      → hybrid_call cap compute_hash now s d read_directory
        ≡ beside cap compute_hash s (host_call compute_hash now s.storage d read_directory)
  unfolding Host.read_directory Hybrid.read_directory iterator_new
  agrees_read_directory now s d = ground arith

  agrees_create_directory_at :
      (now : ℕ) (s : HybridState W) (d : VfsDescriptor) (path : Text)
      → hybrid_call cap compute_hash now s d (create_directory_at path)
        ≡ beside cap compute_hash s
            (host_call compute_hash now s.storage d (create_directory_at path))
  unfolding Host.create_directory_at Paths.create_directory_at
  agrees_create_directory_at now s d path = ground arith

  agrees_remove_directory_at :
      (now : ℕ) (s : HybridState W) (d : VfsDescriptor) (path : Text)
      → hybrid_call cap compute_hash now s d (remove_directory_at path)
        ≡ beside cap compute_hash s
            (host_call compute_hash now s.storage d (remove_directory_at path))
  unfolding Host.remove_directory_at Paths.remove_directory_at
  agrees_remove_directory_at now s d path = ground arith

  agrees_unlink_file_at :
      (now : ℕ) (s : HybridState W) (d : VfsDescriptor) (path : Text)
      → hybrid_call cap compute_hash now s d (unlink_file_at path)
        ≡ beside cap compute_hash s (host_call compute_hash now s.storage d (unlink_file_at path))
  unfolding Host.unlink_file_at Paths.unlink_file_at
  agrees_unlink_file_at now s d path = ground arith

  agrees_rename_at :
      (now : ℕ) (s : HybridState W) (d : VfsDescriptor) (from : Text) (new : VfsDescriptor)
      (to : Text)
      → hybrid_call cap compute_hash now s d (rename_at from new to)
        ≡ beside cap compute_hash s (host_call compute_hash now s.storage d (rename_at from new to))
  unfolding Host.rename_at Paths.rename_at
  agrees_rename_at now s d from new to = ground arith

  agrees_open_at :
      (now : ℕ) (s : HybridState W) (d : VfsDescriptor) (path : Text) (oflags : OpenFlags)
      (flags : DescriptorFlags)
      → hybrid_call cap compute_hash now s d (open_at path oflags flags)
        ≡ beside cap compute_hash s
            (host_call compute_hash now s.storage d (open_at path oflags flags))
  unfolding Opening.open_at HybridOpening.open_at
  agrees_open_at now s d path oflags flags = ground arith

  agrees_metadata_hash :
      (now : ℕ) (s : HybridState W) (d : VfsDescriptor)
      → hybrid_call cap compute_hash now s d metadata_hash
        ≡ beside cap compute_hash s (host_call compute_hash now s.storage d metadata_hash)
  unfolding Host.metadata_hash Paths.metadata_hash
  agrees_metadata_hash now s d = ground arith

  agrees_metadata_hash_at :
      (now : ℕ) (s : HybridState W) (d : VfsDescriptor) (path : Text)
      → hybrid_call cap compute_hash now s d (metadata_hash_at path)
        ≡ beside cap compute_hash s (host_call compute_hash now s.storage d (metadata_hash_at path))
  unfolding Host.metadata_hash_at Paths.metadata_hash_at
  agrees_metadata_hash_at now s d path = ground arith

  agrees_read_via_stream :
      (now : ℕ) (s : HybridState W) (d : VfsDescriptor) (offset : ℕ)
      → hybrid_call cap compute_hash now s d (read_via_stream offset)
        ≡ beside cap compute_hash s
            (host_call compute_hash now s.storage d (read_via_stream offset))
  unfolding Host.read_via_stream
  agrees_read_via_stream now s d offset = ground arith

  agrees_write_via_stream :
      (now : ℕ) (s : HybridState W) (d : VfsDescriptor) (offset : ℕ)
      → hybrid_call cap compute_hash now s d (write_via_stream offset)
        ≡ beside cap compute_hash s
            (host_call compute_hash now s.storage d (write_via_stream offset))
  unfolding Host.write_via_stream
  agrees_write_via_stream now s d offset = ground arith

  agrees_append_via_stream :
      (now : ℕ) (s : HybridState W) (d : VfsDescriptor)
      → hybrid_call cap compute_hash now s d append_via_stream
        ≡ beside cap compute_hash s (host_call compute_hash now s.storage d append_via_stream)
  unfolding Host.append_via_stream
  agrees_append_via_stream now s d = ground arith

  stat_replies :
      (r : Result Metadata VfsError)
      → replies info (from_vfs (r >>= λ meta. ok (vfs_metadata_to_stat meta)))
        ≡ replies
            (λ i. info (without_times i))
            (from_vfs (r >>= λ meta. ok (metadata_to_stat meta)))
  unfolding vfs_metadata_to_stat metadata_to_stat
  stat_replies (ok meta) = refl
  stat_replies (err e) = refl

  agrees_stat_at :
      (now : ℕ) (s : HybridState W) (d : VfsDescriptor) (path : Text)
      → hybrid_call cap compute_hash now s d (stat_at path)
        ≡ beside cap compute_hash s (host_call compute_hash now s.storage d (stat_at path))
  unfolding Host.stat_at Paths.stat_at
  agrees_stat_at now s d path =
      ground (arith, stat_replies (Storage.stat now s.storage (resolve_path d path)))

  -- Whichever call of these is made with a descriptor of the storage, and a second one for a rename, a
  -- hard link and a comparison: get_flags, get_type, set_size, read, write, read_directory, stat, stat_at,
  -- create_directory_at, remove_directory_at, unlink_file_at, readlink_at, symlink_at, link_at, open_at,
  -- rename_at, is_same_object, metadata_hash, metadata_hash_at, read_via_stream, write_via_stream and
  -- append_via_stream. The host for the storage alone and the hybrid host give the same answer and leave
  -- the same storage, and the hybrid host leaves the directories of the host as they were. The times of a
  -- file are not compared, which the hybrid host leaves out.
  pub hybrid-host_call :
      (now : ℕ) (s : HybridState W) (d : VfsDescriptor) (c : HostCall)
      → hybrid_call cap compute_hash now s d c
        ≡ beside cap compute_hash s (host_call compute_hash now s.storage d c)
  unfolding Host.stat Hybrid.stat Host.readlink_at Paths.readlink_at Host.symlink_at
      Paths.symlink_at Host.link_at Paths.link_at Host.get_flags Hybrid.get_flags Host.get_type
      Hybrid.get_type Host.is_same_object Hybrid.is_same_object descriptor_path
  hybrid-host_call now s d (set_size size) = agrees_set_size now s d size
  hybrid-host_call now s d (read len offset) = agrees_read now s d len offset
  hybrid-host_call now s d (write buf offset) = agrees_write now s d buf offset
  hybrid-host_call now s d read_directory = agrees_read_directory now s d
  hybrid-host_call now s d stat =
      ap (λ r. (s, r)) (stat_replies (Storage.stat now s.storage d.path))
  hybrid-host_call now s d (create_directory_at path) = agrees_create_directory_at now s d path
  hybrid-host_call now s d (stat_at path) = agrees_stat_at now s d path
  hybrid-host_call now s d (remove_directory_at path) = agrees_remove_directory_at now s d path
  hybrid-host_call now s d (unlink_file_at path) = agrees_unlink_file_at now s d path
  hybrid-host_call now s d (readlink_at path) = refl
  hybrid-host_call now s d (symlink_at from to) = refl
  hybrid-host_call now s d (open_at path oflags flags) = agrees_open_at now s d path oflags flags
  hybrid-host_call now s d (rename_at from new to) = agrees_rename_at now s d from new to
  hybrid-host_call now s d (link_at from new to) = refl
  hybrid-host_call now s d get_flags = refl
  hybrid-host_call now s d get_type = refl
  hybrid-host_call now s d (is_same_object other) = refl
  hybrid-host_call now s d metadata_hash = agrees_metadata_hash now s d
  hybrid-host_call now s d (metadata_hash_at path) = agrees_metadata_hash_at now s d path
  hybrid-host_call now s d (read_via_stream offset) = agrees_read_via_stream now s d offset
  hybrid-host_call now s d (write_via_stream offset) = agrees_write_via_stream now s d offset
  hybrid-host_call now s d append_via_stream = agrees_append_via_stream now s d
