-- ===== src/Vfs/Hybrid/Escalation.antt =====
-- What `open_at` of crates/eryx-vfs/src/hybrid_host.rs does not check.
use eryx.Prelude.{Bool, refl, none, err, ◌++◌, ℕ, ◌≡◌, true, false, ok, length, arith}
use eryx.Prelude.Text.{Text, codes}
use eryx.Vfs.Path.{VfsError, root, starts_with}
use eryx.Vfs.Storage.{Outcome, StorageState, Metadata}
use eryx.Vfs.Storage as Storage
use eryx.Vfs.Descriptor.{OpenFlags, DescriptorFlags, VfsDescriptor, file, resolve_path}
use eryx.Vfs.Hybrid.{
  IoError, OpenOptions, CapMetadata, CapStd, RealDir, HybridDescriptor, vfs, real_dir, real_file,
}
use eryx.Vfs.Hybrid.Reply.{
  HybridState, DescriptorStat, Reply, cap_metadata_to_stat, refuse, shown, give, length_reply,
}
use eryx.Vfs.Hybrid.Paths.{below}
use eryx.Vfs.Hybrid.Paths as Paths
use eryx.Vfs.Hybrid.Restricted as Restricted
use eryx.Vfs.Hybrid.Host as Host
use eryx.Vfs.Hybrid.Opening.{
  open_at, open_vfs, open_vfs_directory, open_vfs_file, perms_of, options, open_real_file,
  trim_end_slashes,
}

-- Nothing is created, truncated or opened as a directory.
abbrev pub plain : OpenFlags
plain = record { create = false; directory = false; exclusive = false; truncate = false }

abbrev pub for_writing : DescriptorFlags
for_writing = record { read = false; write = true }

-- A new file, with the create flag too or without it.
abbrev pub exclusively : Bool → OpenFlags
exclusively create = record {
  create = create;
  directory = false;
  exclusive = true;
  truncate = false;
}

-- `create_new` of `OpenOptions`: where it is set, a file that was opened is there.
pub record CreatesNew {W D F : Type 0} (cap : CapStd W D F) : Type 0 where
  pub made :
      (w : W) (d : D) (path : Text) (opts : OpenOptions) (f : F)
      → opts.create_new ≡ true
      → (cap.open_with w d path opts).1 ≡ ok f
      → (m : CapMetadata) × (cap.metadata (cap.open_with w d path opts).0 d path ≡ ok m)

module _ {W D F : Type 0} (cap : CapStd W D F) (now : ℕ) (s : HybridState W) where
  -- A write through a descriptor reaches the storage.
  abbrev pub WritesThrough : VfsDescriptor → Text → Type 0
  WritesThrough opened full_path =
      (buf : Text) (offset : ℕ)
      → Host.write cap now s (vfs opened) buf offset
        ≡ length_reply s (length buf) (Storage.write_at now s.storage full_path offset buf)

  -- A file that is in the storage is opened for writing, and written to, through a directory descriptor
  -- with whatever permissions, also with none.
  pub open_at-WritesThrough :
      (d : VfsDescriptor) (path : Text) (meta : Metadata)
      → d.is_dir ≡ true
      → Storage.exists s.storage (resolve_path d path) ≡ ok true
      → Storage.stat now s.storage (resolve_path d path) ≡ ok meta
      → meta.is_dir ≡ false
      → (opened : VfsDescriptor) × (open_at cap now s (vfs d) path plain for_writing
          ≡ give s (vfs opened))
        × WritesThrough opened (resolve_path d path)
  unfolding open_at open_vfs open_vfs_file perms_of file Host.write
  open_at-WritesThrough d path meta is_dir exists found is_file = (
    file (resolve_path d path) (record { read = false; write = true }),
    ground arith,
    λ buf offset. ground arith,
  )

  -- An absolute path is opened in the same way through every directory descriptor of the storage with
  -- the same permissions: it need not lie below the directory.
  pub absolute_path_escapes :
      (d e : VfsDescriptor) (path : Text) (oflags : OpenFlags) (flags : DescriptorFlags)
      → starts_with path root ≡ true
      → d.is_dir ≡ true
      → e.is_dir ≡ true
      → d.dir_perms ≡ e.dir_perms
      → d.file_perms ≡ e.file_perms
      → open_at cap now s (vfs d) path oflags flags ≡ open_at cap now s (vfs e) path oflags flags
  unfolding open_at open_vfs open_vfs_directory open_vfs_file resolve_path
  absolute_path_escapes d e path oflags flags absolute d_dir e_dir dir_perms file_perms =
      ground arith

  module _ (dir : RealDir D) (guest_path path : Text) where
    -- The directory as the guest has it.
    abbrev real : HybridDescriptor D F
    real = real_dir dir guest_path

    abbrev pub exclusive_open : HybridState W × Reply (HybridDescriptor D F)
    exclusive_open = open_at cap now s real path (exclusively false) for_writing

    -- Where files may be written but the directory may not be changed.
    pub record MakesNew : Type 0 where
      pub absent :
          (x : VfsError) × ((Paths.stat_at cap now s real path).1 ≡ Outcome.returns (err x))
      pub create_refused :
          (why : Text) × (open_at cap now s real path (exclusively true) for_writing
            ≡ refuse s (VfsError.permission_denied why))
      pub opened : (d : HybridDescriptor D F) × (exclusive_open.1 ≡ Outcome.returns (ok d))
      pub there :
          (i : DescriptorStat) × ((Paths.stat_at cap now exclusive_open.0 real path).1
            ≡ Outcome.returns (ok i))

    -- A directory of the host without a map in which files may be written and which may not be changed, and
    -- a path below it that has no metadata and that the host opens for writing with `create_new`, which makes
    -- a file: before, a stat of the path fails; an open for writing with the create and the exclusive flag is
    -- refused; one with the exclusive flag alone gives a descriptor, and a stat of the path then succeeds.
    pub exclusive_creates :
        (f : F) (e : IoError)
        → CreatesNew cap
        → dir.dir.file_map ≡ none
        → dir.file_perms.write ≡ true
        → dir.dir_perms.mutate ≡ false
        → cap.metadata s.world dir.dir.inner path ≡ err e
        → (cap.open_with s.world dir.dir.inner path (options cap (exclusively false) for_writing)).1
          ≡ ok f
        → MakesNew
    unfolding open_at open_real_file Paths.stat_at Restricted.open_with Restricted.metadata
        Restricted.check_allowed Restricted.translate Restricted.map_allows
        Restricted.map_translates
    exclusive_creates f e creates unmapped may_write may_not_change absent opens =
        let full_path = trim_end_slashes guest_path ++ (root ++ path) in
        let (m, is_there) =
          creates.made s.world dir.dir.inner path (options cap (exclusively false) for_writing) f
            refl opens in
        record {
          absent = (shown (below (codes "stat ") guest_path path) e, ground arith);
          create_refused = (codes "create access denied for " ++ full_path, ground arith);
          opened = (
            real_file
                (record {
                  file = f;
                  perms = dir.file_perms;
                  readable = false;
                  writable = true;
                  allow_blocking = dir.allow_blocking;
                })
                full_path,
            ground arith,
          );
          there = (cap_metadata_to_stat m, ground arith);
        }
