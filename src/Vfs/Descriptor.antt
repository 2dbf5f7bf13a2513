-- ===== src/Vfs/Descriptor.antt =====
-- Descriptors, directory iterators and error codes of crates/eryx-vfs/src/wasi_impl.rs. The permission
-- and flag sets of wasmtime that it uses are records of Booleans.
use eryx.Prelude.{
  ℕ, ◌+◌, Bool, true, false, Option, none, some, List, [], ◌∷◌, ◌++◌, ◌==◌, text_keys, get_elem?,
  map, if◌then◌else◌,
}
use eryx.Prelude.Text.{Text}
use eryx.Vfs.Path.{VfsError, root, starts_with}
use eryx.Vfs.Storage.{StorageState}
use eryx.Vfs.Storage.Directories.{DirEntry}

pub record DirPerms : Type 0 where
  pub read : Bool
  pub mutate : Bool

pub record FilePerms : Type 0 where
  pub read : Bool
  pub write : Bool

abbrev pub no_dir_perms : DirPerms
no_dir_perms = record { read = false; mutate = false }

abbrev pub all_dir_perms : DirPerms
all_dir_perms = record { read = true; mutate = true }

abbrev pub all_file_perms : FilePerms
all_file_perms = record { read = true; write = true }

pub record OpenFlags : Type 0 where
  pub create : Bool
  pub directory : Bool
  pub exclusive : Bool
  pub truncate : Bool

-- The two flags of a descriptor that are looked at.
pub record DescriptorFlags : Type 0 where
  pub read : Bool
  pub write : Bool

pub data DescriptorType : Type 0 where
  unknown : DescriptorType
  directory : DescriptorType
  symbolic_link : DescriptorType
  regular_file : DescriptorType

pub record VfsCtx : Type 0 where
  pub storage : StorageState
  pub preopens : List (Text × DirPerms × FilePerms)

unfoldable pub ctx_new : StorageState → VfsCtx
ctx_new storage = record {
  storage = storage;
  preopens = (root, all_dir_perms, all_file_perms) ∷ [];
}

unfoldable pub ctx_new_empty : StorageState → VfsCtx
ctx_new_empty storage = record { storage = storage; preopens = [] }

unfoldable pub preopen : VfsCtx → Text → DirPerms → FilePerms → VfsCtx
preopen ctx path dir_perms file_perms = record ctx {
  preopens = ctx.preopens ++ (path, dir_perms, file_perms) ∷ [];
}

unfoldable pub set_preopens : VfsCtx → List (Text × DirPerms × FilePerms) → VfsCtx
set_preopens ctx preopens = record ctx { preopens = preopens }

pub record VfsDescriptor : Type 0 where
  pub path : Text
  pub is_dir : Bool
  pub dir_perms : DirPerms
  pub file_perms : FilePerms

unfoldable pub dir : Text → DirPerms → FilePerms → VfsDescriptor
dir path dir_perms file_perms = record {
  path = path;
  is_dir = true;
  dir_perms = dir_perms;
  file_perms = file_perms;
}

unfoldable pub file : Text → FilePerms → VfsDescriptor
file path file_perms = record {
  path = path;
  is_dir = false;
  dir_perms = no_dir_perms;
  file_perms = file_perms;
}

unfoldable pub resolve_path : VfsDescriptor → Text → Text
resolve_path d path =
    if starts_with path root
    then path
    else if d.path == root
    then root ++ path
    else d.path ++ (root ++ path)

pub record DirectoryEntry : Type 0 where
  pub name : Text
  pub kind : DescriptorType

unfoldable pub type_of : Bool → DescriptorType
type_of is_dir = if is_dir then DescriptorType.directory else DescriptorType.regular_file

unfoldable pub directory_entry : DirEntry → DirectoryEntry
unfolding type_of
directory_entry e = record { name = e.name; kind = type_of e.metadata.is_dir }

pub record VfsReaddirIterator : Type 0 where
  pub entries : List DirectoryEntry
  pub index : ℕ

unfoldable pub iterator_new : List DirEntry → VfsReaddirIterator
iterator_new entries = record { entries = map directory_entry entries; index = 0 }

unfoldable pub next : VfsReaddirIterator → VfsReaddirIterator × Option DirectoryEntry
next i = elim (get_elem? i.entries i.index) [
  | none ↦ (i, none)
  | some e ↦ (record i { index = i.index + 1 }, some e)
]

pub data ErrorCode : Type 0 where
  no_entry : ErrorCode
  not_permitted : ErrorCode
  exist : ErrorCode
  not_directory : ErrorCode
  is_directory : ErrorCode
  not_empty : ErrorCode
  invalid : ErrorCode
  io : ErrorCode
  invalid_seek : ErrorCode
  busy : ErrorCode
  would_block : ErrorCode
  interrupted : ErrorCode
  read_only : ErrorCode
  file_too_large : ErrorCode

unfoldable pub vfs_error_to_error_code : VfsError → ErrorCode
vfs_error_to_error_code (VfsError.not_found p) = ErrorCode.no_entry
vfs_error_to_error_code (VfsError.permission_denied p) = ErrorCode.not_permitted
vfs_error_to_error_code (VfsError.already_exists p) = ErrorCode.exist
vfs_error_to_error_code (VfsError.not_directory p) = ErrorCode.not_directory
vfs_error_to_error_code (VfsError.not_file p) = ErrorCode.is_directory
vfs_error_to_error_code (VfsError.directory_not_empty p) = ErrorCode.not_empty
vfs_error_to_error_code (VfsError.invalid_path p) = ErrorCode.invalid
vfs_error_to_error_code (VfsError.io m) = ErrorCode.io
vfs_error_to_error_code (VfsError.storage m) = ErrorCode.io
vfs_error_to_error_code (VfsError.invalid_seek m) = ErrorCode.invalid_seek
vfs_error_to_error_code (VfsError.busy m) = ErrorCode.busy
