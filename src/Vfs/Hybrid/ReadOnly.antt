-- ===== src/Vfs/Hybrid/ReadOnly.antt =====
-- Directories of the host that are mounted without write and mutate permission: no call of
-- crates/eryx-vfs/src/hybrid_host.rs changes the host.
use eryx.Prelude.{ℕ, ◌≡◌, refl, ◌⊎◌, false, List, [], ◌∷◌, ok, err, if_rule, arith}
use eryx.Prelude.Text.{Text}
use eryx.Vfs.Storage.{Outcome}
use eryx.Vfs.Descriptor.{OpenFlags, DescriptorFlags, VfsDescriptor}
use eryx.Vfs.Hybrid.{
  OpenOptions, CapStd, RealDir, RestrictedDir, HybridDescriptor, vfs, real_dir, real_file,
  HybridPreopen, vfs_preopen, real_preopen,
}
use eryx.Vfs.Hybrid.Reply.{HybridState, Reply}
use eryx.Vfs.Hybrid.Restricted as Restricted
use eryx.Vfs.Hybrid.Host as Host
use eryx.Vfs.Hybrid.Paths as Paths
use eryx.Vfs.Hybrid.Opening.{
  open_at, open_vfs, open_vfs_directory, open_vfs_file, empty_file, open_real_dir, open_real_file,
}
use eryx.Vfs.Hybrid.Calls.{
  Entry, descriptor, iterator, vfs_input, vfs_output, real_input, real_output, ResourceTable,
}

-- What is relied on of cap_std: a file that is not opened for writing is not created or truncated, and to
-- synchronise a file changes nothing.
pub record OpensReadOnly {W D F : Type 0} (cap : CapStd W D F) : Type 0 where
  pub open_with :
      (w : W) (d : D) (path : Text) (opts : OpenOptions)
      → opts.write ≡ false
      → (cap.open_with w d path opts).0 ≡ w
  pub sync_data : (w : W) (f : F) → (cap.sync_data w f).0 ≡ w
  pub sync_all : (w : W) (f : F) → (cap.sync_all w f).0 ≡ w

-- What is relied on of the table: what is found after a call was there before, or is what the call put in.
pub record IsTable {T E : Type 0} (table : ResourceTable T E) : Type 0 where
  pub push :
      (t after : T) (e x : E) (fd j : ℕ)
      → table.push t e ≡ ok (fd, after)
      → table.get after j ≡ ok x
      → (x ≡ e) ⊎ (table.get t j ≡ ok x)
  pub set :
      (t : T) (e x : E) (fd j : ℕ)
      → table.get (table.set t fd e) j ≡ ok x
      → (x ≡ e) ⊎ (table.get t j ≡ ok x)
  pub delete :
      (t after : T) (x : E) (fd j : ℕ)
      → table.delete t fd ≡ ok after
      → table.get after j ≡ ok x
      → table.get t j ≡ ok x

module _ {D F : Type 0} where
  -- A descriptor of the host through which nothing can be written.
  abbrev pub IsReadOnly : HybridDescriptor D F → Type 0
  IsReadOnly (vfs d) = Unit {0}
  IsReadOnly (real_dir dir guest_path) =
      (dir.dir_perms.mutate ≡ false) × (dir.file_perms.write ≡ false)
  IsReadOnly (real_file file guest_path) = file.writable ≡ false

  abbrev pub CannotWrite : Entry D F → Type 0
  CannotWrite (descriptor d) = IsReadOnly d
  CannotWrite (iterator entries) = Unit {0}
  CannotWrite (vfs_input i) = Unit {0}
  CannotWrite (vfs_output o) = Unit {0}
  CannotWrite (real_input i) = Unit {0}
  CannotWrite (real_output o) = ⊥

-- Every directory of the host is mounted without write and mutate permission.
abbrev pub AreReadOnly : {D : Type 0} → List (HybridPreopen D) → Type 0
AreReadOnly [] = Unit {0}
AreReadOnly (vfs_preopen guest_path dir_perms file_perms ∷ preopens) = AreReadOnly preopens
AreReadOnly (real_preopen guest_path dir ∷ preopens) =
    (dir.dir_perms.mutate ≡ false) × (dir.file_perms.write ≡ false) × AreReadOnly preopens

-- A result that is a descriptor through which nothing can be written.
abbrev pub OpensCannotWrite : {D F : Type 0} → Reply (HybridDescriptor D F) → Type 0
OpensCannotWrite Outcome.panics = Unit {0}
OpensCannotWrite (Outcome.returns (err e)) = Unit {0}
OpensCannotWrite (Outcome.returns (ok d)) = IsReadOnly d

module _ {W D F : Type 0} (cap : CapStd W D F) (read_only : OpensReadOnly cap)
    (s : HybridState W) where
  -- The host is left as it was.
  abbrev pub Keeps : {A : Type 0} → HybridState W × Reply A → Type 0
  Keeps r = r.0.world ≡ s.world

  pub sync_data-Keeps : (d : HybridDescriptor D F) → Keeps (Host.sync_data cap s d)
  unfolding Host.sync_data
  sync_data-Keeps (vfs d) = refl
  sync_data-Keeps (real_dir dir guest_path) = refl
  sync_data-Keeps (real_file file guest_path) = read_only.sync_data s.world file.file

  pub sync-Keeps : (d : HybridDescriptor D F) → Keeps (Host.sync cap s d)
  unfolding Host.sync
  sync-Keeps (vfs d) = refl
  sync-Keeps (real_dir dir guest_path) = refl
  sync-Keeps (real_file file guest_path) = read_only.sync_all s.world file.file

  pub set_size-Keeps :
      (now : ℕ) (d : HybridDescriptor D F) (size : ℕ)
      → IsReadOnly d
      → Keeps (Host.set_size cap now s d size)
  unfolding Host.set_size
  set_size-Keeps now (vfs d) size h = ground arith
  set_size-Keeps now (real_dir dir guest_path) size h = refl
  set_size-Keeps now (real_file file guest_path) size h = ground arith

  pub write-Keeps :
      (now : ℕ) (d : HybridDescriptor D F) (buf : Text) (offset : ℕ)
      → IsReadOnly d
      → Keeps (Host.write cap now s d buf offset)
  unfolding Host.write
  write-Keeps now (vfs d) buf offset h = ground arith
  write-Keeps now (real_dir dir guest_path) buf offset h = refl
  write-Keeps now (real_file file guest_path) buf offset h = ground arith

  pub read_directory-Keeps :
      (now : ℕ) (d : HybridDescriptor D F) → Keeps (Host.read_directory cap now s d)
  unfolding Host.read_directory
  read_directory-Keeps now (vfs d) = ground arith
  read_directory-Keeps now (real_dir dir guest_path) = ground arith
  read_directory-Keeps now (real_file file guest_path) = refl

  pub create_directory_at-Keeps :
      (d : HybridDescriptor D F) (path : Text)
      → IsReadOnly d
      → Keeps (Paths.create_directory_at cap s d path)
  unfolding Paths.create_directory_at
  create_directory_at-Keeps (vfs d) path h = ground arith
  create_directory_at-Keeps (real_dir dir guest_path) path h = ground arith
  create_directory_at-Keeps (real_file file guest_path) path h = refl

  pub remove_directory_at-Keeps :
      (d : HybridDescriptor D F) (path : Text)
      → IsReadOnly d
      → Keeps (Paths.remove_directory_at cap s d path)
  unfolding Paths.remove_directory_at
  remove_directory_at-Keeps (vfs d) path h = ground arith
  remove_directory_at-Keeps (real_dir dir guest_path) path h = ground arith
  remove_directory_at-Keeps (real_file file guest_path) path h = refl

  pub unlink_file_at-Keeps :
      (d : HybridDescriptor D F) (path : Text)
      → IsReadOnly d
      → Keeps (Paths.unlink_file_at cap s d path)
  unfolding Paths.unlink_file_at
  unlink_file_at-Keeps (vfs d) path h = ground arith
  unlink_file_at-Keeps (real_dir dir guest_path) path h = ground arith
  unlink_file_at-Keeps (real_file file guest_path) path h = refl

  pub symlink_at-Keeps :
      (d : HybridDescriptor D F) (src_path dest_path : Text)
      → IsReadOnly d
      → Keeps (Paths.symlink_at cap s d src_path dest_path)
  unfolding Paths.symlink_at
  symlink_at-Keeps (vfs d) src_path dest_path h = refl
  symlink_at-Keeps (real_dir dir guest_path) src_path dest_path h = ground arith
  symlink_at-Keeps (real_file file guest_path) src_path dest_path h = refl

  pub rename_at-Keeps :
      (old : HybridDescriptor D F) (old_path : Text) (new : HybridDescriptor D F) (new_path : Text)
      → IsReadOnly old
      → Keeps (Paths.rename_at cap s old old_path new new_path)
  unfolding Paths.rename_at
  rename_at-Keeps (vfs old) old_path (vfs new) new_path h = ground arith
  rename_at-Keeps (vfs old) old_path (real_dir dir guest) new_path h = refl
  rename_at-Keeps (vfs old) old_path (real_file file guest) new_path h = refl
  rename_at-Keeps (real_dir dir guest) old_path (vfs new) new_path h = refl
  rename_at-Keeps (real_dir dir guest) old_path (real_dir other to) new_path h = ground arith
  rename_at-Keeps (real_dir dir guest) old_path (real_file file other) new_path h = refl
  rename_at-Keeps (real_file file guest) old_path new new_path h = refl

  -- An open leaves the host alone, and what it opens cannot write.
  abbrev pub Opens : HybridState W × Reply (HybridDescriptor D F) → Type 0
  Opens r = (r.0.world ≡ s.world) × OpensCannotWrite r.1

  open_with_keeps :
      (dir : RestrictedDir D) (path : Text) (opts : OpenOptions)
      → opts.write ≡ false
      → (Restricted.open_with cap s.world dir path opts).0 ≡ s.world
  unfolding Restricted.open_with
  open_with_keeps dir path opts h =
      ground (arith, read_only.open_with s.world dir.inner (Restricted.translate dir path) opts h)

  open_real_file-Opens :
      (dir : RealDir D) (path full_path : Text) (oflags : OpenFlags) (flags : DescriptorFlags)
      → dir.file_perms.write ≡ false
      → Opens (open_real_file cap s dir path full_path oflags flags)
  unfolding open_real_file
  open_real_file-Opens dir path full_path oflags flags h = ground (
    arith,
    open_with_keeps dir.dir path (record {
      read = flags.read;
      write = flags.write;
      create = oflags.create;
      truncate = oflags.truncate;
      create_new = oflags.exclusive;
    }),
  )

  open_real_dir-Opens :
      (dir : RealDir D) (path full_path : Text)
      → (dir.dir_perms.mutate ≡ false) × (dir.file_perms.write ≡ false)
      → Opens (open_real_dir cap s dir path full_path)
  unfolding open_real_dir
  open_real_dir-Opens dir path full_path h = ground arith

  open_vfs-Opens :
      (now : ℕ) (d : VfsDescriptor) (path : Text) (oflags : OpenFlags) (flags : DescriptorFlags)
      → Opens (open_vfs cap now s d path oflags flags)
  unfolding open_vfs open_vfs_directory open_vfs_file empty_file
  open_vfs-Opens now d path oflags flags = ground arith

  pub open_at-Opens :
      (now : ℕ) (d : HybridDescriptor D F) (path : Text) (oflags : OpenFlags)
      (flags : DescriptorFlags)
      → IsReadOnly d
      → Opens (open_at cap now s d path oflags flags)
  unfolding open_at
  open_at-Opens now (vfs d) path oflags flags h = open_vfs-Opens now d path oflags flags
  open_at-Opens now (real_dir dir guest_path) path oflags flags h =
      if_rule Opens oflags.directory _ _ (λ _. open_real_dir-Opens dir path _ h)
        (λ _. open_real_file-Opens dir path _ oflags flags h.1)
  open_at-Opens now (real_file f guest_path) path oflags flags h = (refl, tt)
