-- ===== src/Vfs/Hybrid/Confinement.antt =====
-- `RestrictedDir` of crates/eryx-vfs/src/hybrid.rs under the calls of hybrid_host.rs: what a guest gets
-- through a directory with a map of file names depends on the mapped files only.
use eryx.Prelude.{ℕ, ◌≡◌, none, some, ok, ◌>>=◌, text_keys}
use eryx.Prelude.HashMap
use eryx.Prelude.HashMap.{HashMap}
use eryx.Prelude.Text.{Text}
use eryx.Vfs.Descriptor.{OpenFlags, DescriptorFlags}
use eryx.Vfs.Hybrid.{IoResult, CapStd, RealDir, RestrictedDir, HybridDescriptor, real_dir}
use eryx.Vfs.Hybrid.Reply.{HybridState}
use eryx.Vfs.Hybrid.Restricted.{is_host_name, mapped_entries, reverse_lookup}
use eryx.Vfs.Hybrid.Restricted as Restricted
use eryx.Vfs.Hybrid.Paths as Paths
use eryx.Vfs.Hybrid.Host as Host
use eryx.Vfs.Hybrid.Opening.{open_at}
use eryx.Vfs.Hybrid.Mapped.{AgreeOn}

module _ {W D F : Type 0} (a b : CapStd W D F) (d : D) (map : HashMap Text Text)
    (agree : AgreeOn a b d map) where
  -- The directory with the map.
  abbrev pub mapped : RestrictedDir D
  mapped = record { inner = d; file_map = some map }

  -- A subdirectory has no map.
  abbrev unrestricted : IoResult D → IoResult (RestrictedDir D)
  unrestricted r = r >>= λ sub. ok (record { inner = sub; file_map = none })

  module _ (s : HybridState W) (dir : RealDir D) (guest_path : Text) where
    -- A descriptor of a directory of the host with the map.
    abbrev pub restricted : HybridDescriptor D F
    restricted = real_dir (record dir { dir = mapped }) guest_path

    -- Both hosts give the same results through the descriptor, and change in the same way.
    pub record SameThrough : Type 0 where
      pub opens :
          (now : ℕ) (path : Text) (oflags : OpenFlags) (flags : DescriptorFlags)
          → open_at a now s restricted path oflags flags
            ≡ open_at b now s restricted path oflags flags
      pub creates :
          (path : Text)
          → Paths.create_directory_at a s restricted path
            ≡ Paths.create_directory_at b s restricted path
      pub removes :
          (path : Text)
          → Paths.remove_directory_at a s restricted path
            ≡ Paths.remove_directory_at b s restricted path
      pub unlinks :
          (path : Text)
          → Paths.unlink_file_at a s restricted path ≡ Paths.unlink_file_at b s restricted path
      pub stats :
          (now : ℕ) (path : Text)
          → Paths.stat_at a now s restricted path ≡ Paths.stat_at b now s restricted path
      pub reads_link :
          (path : Text)
          → Paths.readlink_at a s restricted path ≡ Paths.readlink_at b s restricted path
      pub links :
          (src path : Text)
          → Paths.symlink_at a s restricted src path ≡ Paths.symlink_at b s restricted src path
      pub renames :
          (old new : Text)
          → Paths.rename_at a s restricted old restricted new
            ≡ Paths.rename_at b s restricted old restricted new
      pub lists :
          (now : ℕ)
          → Host.read_directory a now s restricted ≡ Host.read_directory b now s restricted
