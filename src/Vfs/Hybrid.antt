-- ===== src/Vfs/Hybrid.antt =====
-- The hybrid file system of crates/eryx-vfs/src/hybrid.rs: paths of the storage in memory beside real
-- directories. The directories and files of cap_std are an interface over a state of the host.
pub mod Restricted
pub mod Reply
pub mod Host
pub mod Paths
pub mod RealStreams
pub mod Calls
pub mod System
pub mod ReadOnly
pub mod Unwritten
pub mod Mounts
pub mod Escalation
pub mod SmallHost
mod Examples
pub mod Mapped
pub mod Confinement
pub mod Opening
use eryx.Prelude.{
  ℕ, Bool, true, false, ◌||◌, Option, none, some, List, [], ◌∷◌, ◌++◌, Result, ok, err, ◌==◌,
  text_keys, if◌then◌else◌,
}
use eryx.Prelude.HashMap.{HashMap}
use eryx.Prelude.Text.{Text}
use eryx.Vfs.Path.{root, starts_with}
use eryx.Vfs.Storage.{StorageState}
use eryx.Vfs.Storage.Directories.{mkdir_sync}
use eryx.Vfs.Descriptor.{DirPerms, FilePerms, VfsDescriptor}

pub data ErrorKind : Type 0 where
  not_found : ErrorKind
  permission_denied : ErrorKind
  already_exists : ErrorKind
  would_block : ErrorKind
  invalid_input : ErrorKind
  invalid_data : ErrorKind
  interrupted : ErrorKind
  not_a_directory : ErrorKind
  is_a_directory : ErrorKind
  directory_not_empty : ErrorKind
  read_only_filesystem : ErrorKind
  file_too_large : ErrorKind
  resource_busy : ErrorKind
  other : ErrorKind

-- `std::io::Error` with the text that it is shown as.
pub record IoError : Type 0 where
  pub kind : ErrorKind
  pub message : Text

abbrev pub IoResult : Type 0 → Type 0
IoResult A = Result A IoError

pub record OpenOptions : Type 0 where
  pub read : Bool
  pub write : Bool
  pub create : Bool
  pub truncate : Bool
  pub create_new : Bool

pub record FileType : Type 0 where
  pub is_dir : Bool
  pub is_symlink : Bool
  pub is_file : Bool

-- A time is none where the platform has none, and holds none where it lies before the epoch.
pub record CapMetadata : Type 0 where
  pub file_type : FileType
  pub nlink : ℕ
  pub len : ℕ
  pub accessed : Option (Option (ℕ × ℕ))
  pub modified : Option (Option (ℕ × ℕ))
  pub created : Option (Option (ℕ × ℕ))

pub record CapEntry : Type 0 where
  pub file_name : Text
  pub file_type : IoResult FileType

-- `cap_std::fs::Dir` and `File` with the calls that the code makes, over the state `W` of the host.
pub record CapStd (W D F : Type 0) : Type 0 where
  pub open_with : W → D → Text → OpenOptions → W × IoResult F
  pub open_dir : W → D → Text → IoResult D
  pub create_dir : W → D → Text → W × IoResult (Unit {0})
  pub metadata : W → D → Text → IoResult CapMetadata
  pub dir_metadata : W → D → IoResult CapMetadata
  pub read_link : W → D → Text → IoResult Text
  pub remove_dir : W → D → Text → W × IoResult (Unit {0})
  pub remove_file : W → D → Text → W × IoResult (Unit {0})
  pub rename : W → D → Text → D → Text → W × IoResult (Unit {0})
  pub symlink : W → D → Text → Text → W × IoResult (Unit {0})
  pub entries : W → D → IoResult (List (IoResult CapEntry))
  pub read_at : W → F → ℕ → ℕ → IoResult Text
  pub write_at : W → F → Text → ℕ → W × IoResult ℕ
  pub set_len : W → F → ℕ → W × IoResult (Unit {0})
  pub file_metadata : W → F → IoResult CapMetadata
  pub sync_data : W → F → W × IoResult (Unit {0})
  pub sync_all : W → F → W × IoResult (Unit {0})

pub record RestrictedDir (D : Type 0) : Type 0 where
  pub inner : D
  pub file_map : Option (HashMap Text Text)

pub record RealDir (D : Type 0) : Type 0 where
  pub dir : RestrictedDir D
  pub dir_perms : DirPerms
  pub file_perms : FilePerms
  pub allow_blocking : Bool

pub record RealFile (F : Type 0) : Type 0 where
  pub file : F
  pub perms : FilePerms
  pub readable : Bool
  pub writable : Bool
  pub allow_blocking : Bool

pub data HybridDescriptor (D F : Type 0) : Type 0 where
  vfs : VfsDescriptor → HybridDescriptor D F
  real_dir : RealDir D → Text → HybridDescriptor D F
  real_file : RealFile F → Text → HybridDescriptor D F

module _ {D F : Type 0} where
  unfoldable pub descriptor_path : HybridDescriptor D F → Text
  descriptor_path (vfs d) = d.path
  descriptor_path (real_dir dir guest_path) = guest_path
  descriptor_path (real_file file guest_path) = guest_path

  unfoldable pub is_dir : HybridDescriptor D F → Bool
  is_dir (vfs d) = d.is_dir
  is_dir (real_dir dir guest_path) = true
  is_dir (real_file file guest_path) = false

pub data HybridPreopen (D : Type 0) : Type 0 where
  vfs_preopen : Text → DirPerms → FilePerms → HybridPreopen D
  real_preopen : Text → RealDir D → HybridPreopen D

pub record HybridVfsCtx (D : Type 0) : Type 0 where
  pub storage : StorageState
  pub vfs_prefixes : List Text
  pub preopens : List (HybridPreopen D)
  pub allow_blocking_current_thread : Bool

-- `iter().any(...)` of `is_vfs_path`
unfoldable pub any_prefix : Text → List Text → Bool
any_prefix path [] = false
any_prefix path (prefix ∷ prefixes) =
    (path == prefix || starts_with path (prefix ++ root)) || any_prefix path prefixes

module _ {D : Type 0} where
  unfoldable pub hybrid_new : StorageState → HybridVfsCtx D
  hybrid_new storage = record {
    storage = storage;
    vfs_prefixes = [];
    preopens = [];
    allow_blocking_current_thread = false;
  }

  -- A directory that cannot be made is only logged.
  unfoldable pub add_vfs_preopen : HybridVfsCtx D → Text → DirPerms → FilePerms → HybridVfsCtx D
  add_vfs_preopen ctx guest_path dir_perms file_perms = record ctx {
    storage = (mkdir_sync ctx.storage guest_path).0;
    vfs_prefixes = ctx.vfs_prefixes ++ guest_path ∷ [];
    preopens = ctx.preopens ++ vfs_preopen guest_path dir_perms file_perms ∷ [];
  }

  unfoldable pub add_real_preopen : HybridVfsCtx D → Text → RealDir D → HybridVfsCtx D
  add_real_preopen ctx guest_path dir = record ctx {
    preopens = ctx.preopens ++ real_preopen guest_path dir ∷ [];
  }

  unfoldable pub is_vfs_path : HybridVfsCtx D → Text → Bool
  unfolding any_prefix
  is_vfs_path ctx path = any_prefix path ctx.vfs_prefixes
