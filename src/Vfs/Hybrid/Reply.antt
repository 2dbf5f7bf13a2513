-- ===== src/Vfs/Hybrid/Reply.antt =====
-- The state that the calls of crates/eryx-vfs/src/hybrid_host.rs work on, their errors, and the forms that
-- their results take.
use eryx.Prelude.{
  ℕ, Bool, Option, none, some, ◌++◌, Result, ok, err, ◌>>=◌, ltb, length, if◌then◌else◌,
}
use eryx.Prelude.Text.{Text}
use eryx.Vfs.Path.{VfsError, VfsResult}
use eryx.Vfs.Storage.{Outcome, StorageState, Metadata}
use eryx.Vfs.Descriptor.{DescriptorType, ErrorCode, type_of}
use eryx.Vfs.Hybrid.{ErrorKind, IoError, IoResult, FileType, CapMetadata}

pub record HybridState (W : Type 0) : Type 0 where
  pub storage : StorageState
  pub world : W

-- `HybridFsError::from` of an error of the host
abbrev pub host_error : IoError → VfsError
host_error e = VfsError.io e.message

-- The codes of hybrid_bindings.rs.
unfoldable pub hybrid_error_to_error_code : VfsError → ErrorCode
hybrid_error_to_error_code (VfsError.not_found p) = ErrorCode.no_entry
hybrid_error_to_error_code (VfsError.already_exists p) = ErrorCode.exist
hybrid_error_to_error_code (VfsError.not_directory p) = ErrorCode.not_directory
hybrid_error_to_error_code (VfsError.not_file p) = ErrorCode.is_directory
hybrid_error_to_error_code (VfsError.directory_not_empty p) = ErrorCode.not_empty
hybrid_error_to_error_code (VfsError.permission_denied p) = ErrorCode.not_permitted
hybrid_error_to_error_code (VfsError.invalid_path p) = ErrorCode.invalid
hybrid_error_to_error_code (VfsError.io m) = ErrorCode.io
hybrid_error_to_error_code (VfsError.storage m) = ErrorCode.io
hybrid_error_to_error_code (VfsError.invalid_seek m) = ErrorCode.invalid
hybrid_error_to_error_code (VfsError.busy m) = ErrorCode.busy

unfoldable pub io_error_to_error_code : ErrorKind → ErrorCode
io_error_to_error_code ErrorKind.not_found = ErrorCode.no_entry
io_error_to_error_code ErrorKind.permission_denied = ErrorCode.not_permitted
io_error_to_error_code ErrorKind.already_exists = ErrorCode.exist
io_error_to_error_code ErrorKind.would_block = ErrorCode.would_block
io_error_to_error_code ErrorKind.invalid_input = ErrorCode.invalid
io_error_to_error_code ErrorKind.invalid_data = ErrorCode.invalid
io_error_to_error_code ErrorKind.interrupted = ErrorCode.interrupted
io_error_to_error_code ErrorKind.not_a_directory = ErrorCode.not_directory
io_error_to_error_code ErrorKind.is_a_directory = ErrorCode.is_directory
io_error_to_error_code ErrorKind.directory_not_empty = ErrorCode.not_empty
io_error_to_error_code ErrorKind.read_only_filesystem = ErrorCode.read_only
io_error_to_error_code ErrorKind.file_too_large = ErrorCode.file_too_large
io_error_to_error_code ErrorKind.resource_busy = ErrorCode.busy
io_error_to_error_code ErrorKind.other = ErrorCode.io

pub record DescriptorStat : Type 0 where
  pub kind : DescriptorType
  pub link_count : ℕ
  pub size : ℕ
  pub data_access : Option (ℕ × ℕ)
  pub data_modification : Option (ℕ × ℕ)
  pub status_change : Option (ℕ × ℕ)

unfoldable pub vfs_metadata_to_stat : Metadata → DescriptorStat
unfolding type_of
vfs_metadata_to_stat meta = record {
  kind = type_of meta.is_dir;
  link_count = 1;
  size = meta.size;
  data_access = none;
  data_modification = none;
  status_change = none;
}

-- The kind of a host file.
unfoldable pub kind_of : FileType → DescriptorType
kind_of t =
    if t.is_dir
    then DescriptorType.directory
    else if t.is_symlink
    then DescriptorType.symbolic_link
    else if t.is_file
    then DescriptorType.regular_file
    else DescriptorType.unknown

-- `duration_since(UNIX_EPOCH).unwrap_or_default()`
abbrev pub datetime : Option (Option (ℕ × ℕ)) → Option (ℕ × ℕ)
datetime none = none
datetime (some none) = some (0, 0)
datetime (some (some t)) = some t

unfoldable pub cap_metadata_to_stat : CapMetadata → DescriptorStat
unfolding kind_of
cap_metadata_to_stat meta = record {
  kind = kind_of meta.file_type;
  link_count = meta.nlink;
  size = meta.len;
  data_access = datetime meta.accessed;
  data_modification = datetime meta.modified;
  status_change = datetime meta.created;
}

abbrev pub Reply : Type 0 → Type 0
Reply A = Outcome (Result A VfsError)

-- `map_err(|e| VfsError::Io(format!("...: {e}")))`
abbrev pub shown : Text → IoError → VfsError
shown what e = (VfsError.io (what ++ e.message))

module _ {A : Type 0} where
  -- The result of a call that leaves the storage and the host alone.
  abbrev pub from_vfs : VfsResult A → Reply A
  from_vfs (ok a) = Outcome.returns (ok a)
  from_vfs (err e) = Outcome.returns (err e)

  abbrev pub from_io : (IoError → VfsError) → IoResult A → Reply A
  from_io f (ok a) = Outcome.returns (ok a)
  from_io f (err e) = Outcome.returns (err (f e))

module _ {W A : Type 0} where
  abbrev pub refuse : HybridState W → VfsError → HybridState W × Reply A
  refuse s e = (s, Outcome.returns (err e))

  abbrev pub give : HybridState W → A → HybridState W × Reply A
  give s a = (s, Outcome.returns (ok a))

  abbrev pub stored : HybridState W → StorageState × VfsResult A → HybridState W × Reply A
  stored s (storage, r) = (record s { storage = storage }, from_vfs r)

  abbrev pub on_host :
      HybridState W → (IoError → VfsError) → W × IoResult A → HybridState W × Reply A
  on_host s f (world, r) = (record s { world = world }, from_io f r)

module _ {W : Type 0} where
  abbrev pub length_reply :
      HybridState W → ℕ → StorageState × Outcome (VfsResult (Unit {0})) → HybridState W × Reply ℕ
  length_reply s len (storage, Outcome.panics) = (record s { storage = storage }, Outcome.panics)
  length_reply s len (storage, Outcome.returns r) =
      (record s { storage = storage }, from_vfs (r >>= λ _. ok len))

-- The bytes, and whether they are fewer than were asked for.
abbrev pub with_eof : ℕ → Text → Text × Bool
with_eof len bytes = (bytes, ltb (length bytes) len)

abbrev pub eof_reply : ℕ → Outcome (VfsResult Text) → Reply (Text × Bool)
eof_reply len Outcome.panics = Outcome.panics
eof_reply len (Outcome.returns (err e)) = Outcome.returns (err e)
eof_reply len (Outcome.returns (ok bytes)) = Outcome.returns (ok (with_eof len bytes))
