-- ===== src/Vfs/Storage.antt =====
-- The state of `InMemoryStorage` in crates/eryx-vfs/src/storage.rs and the operations on files.
-- Each operation that changes the state returns the new one with its result; `now` is
-- `SystemTime::now()`. Numbers of type `usize` are 64 bits wide and wrap, as in a release build.
pub mod Directories
pub mod Rename
pub mod Entries
pub mod Listing
pub mod Slices
pub mod Moves
pub mod Files
pub mod Bytes
pub mod Operation
pub mod Tree
pub mod Placement
pub mod Parents
pub mod Preservation
pub mod Nesting
use eryx.Prelude.{
  ℕ, ◌+◌, ◌%◌, ◌^◌, min, Bool, true, false, ◌||◌, Option, none, some, List, [], ◌++◌, Result, ok,
  err, ◌>>=◌, ltb, leb, PartialEq, text_keys, length, take, drop, resize, if◌then◌else◌,
}
use eryx.Prelude.HashMap
use eryx.Prelude.HashMap.{HashMap}
use eryx.Prelude.HashSet
use eryx.Prelude.HashSet.{HashSet}
use eryx.Prelude.Text.{Text, codes}
use eryx.Vfs.Path.{VfsError, VfsResult, root, normalize_path, parent_path}

pub record Metadata : Type 0 where
  pub is_dir : Bool
  pub size : ℕ
  pub created : ℕ
  pub modified : ℕ
  pub accessed : ℕ

pub record FileData : Type 0 where
  pub content : Text
  pub created : ℕ
  pub modified : ℕ
  pub accessed : ℕ

pub record StorageState : Type 0 where
  pub files : HashMap Text FileData
  pub directories : HashSet Text

-- What a call of the storage does that may panic.
pub data Outcome (A : Type 0) : Type 0 where
  returns : A → Outcome A
  panics : Outcome A

unfoldable pub new : StorageState
new = record { files = []; directories = HashSet.insert [] root }

-- A snapshot is a copy of the state, and a storage is restored by a copy of it.
unfoldable pub snapshot : StorageState → StorageState
snapshot state = state

unfoldable pub restore : StorageState → StorageState → StorageState
restore state saved = saved

unfoldable pub from_snapshot : StorageState → StorageState
from_snapshot saved = saved

unfoldable pub check_parent_exists_with_state : StorageState → Text → VfsResult (Unit {0})
check_parent_exists_with_state state path = elim (parent_path path) [
  | none ↦ ok tt
  | some parent ↦
      if HashSet.contains state.directories parent
      then ok tt
      else err (VfsError.not_found (codes "parent directory: " ++ parent))
]

-- The error for a path that is no file.
unfoldable pub no_file : {A : Type 0} → StorageState → Text → VfsResult A
no_file state path =
    if HashSet.contains state.directories path
    then err (VfsError.not_file path)
    else err (VfsError.not_found path)

unfoldable pub read_file : StorageState → Text → VfsResult Text
unfolding no_file
read_file state p = elim (HashMap.get state.files p) [
  | some f ↦ ok f.content
  | none ↦ no_file state p
]

unfoldable pub read : StorageState → Text → VfsResult Text
unfolding read_file
read state path = normalize_path path >>= read_file state

-- The bytes of `content` from `offset` on, at most `len`.
unfoldable pub read_content : Text → ℕ → ℕ → Outcome (VfsResult Text)
read_content content offset len =
    let end = min ((offset + len) % 2 ^ 64) (length content) in
    if leb (length content) offset
    then Outcome.returns (ok [])
    else if ltb end offset
    then Outcome.panics
    else Outcome.returns (ok (drop offset (take end content)))

unfoldable pub read_file_at : StorageState → Text → ℕ → ℕ → Outcome (VfsResult Text)
unfolding read_content no_file
read_file_at state p offset len = elim (HashMap.get state.files p) [
  | some f ↦ read_content f.content offset len
  | none ↦ Outcome.returns (no_file state p)
]

unfoldable pub read_at : StorageState → Text → ℕ → ℕ → Outcome (VfsResult Text)
unfolding read_file_at
read_at state path offset len = elim (normalize_path path) [
  | err e ↦ Outcome.returns (err e)
  | ok p ↦ read_file_at state p offset len
]

-- `files.entry(path).or_insert_with(...)`
unfoldable pub file_or_new : ℕ → Option FileData → FileData
file_or_new now none = record { content = []; created = now; modified = now; accessed = now }
file_or_new now (some f) = f

-- The tests that `write` and `write_at` make before they touch the file.
unfoldable pub check_writable : StorageState → Text → VfsResult (Unit {0})
unfolding check_parent_exists_with_state
check_writable state p = check_parent_exists_with_state state p >>= λ _.
    if HashSet.contains state.directories p then err (VfsError.not_file p) else ok tt

abbrev pub put_file : StorageState → Text → FileData → StorageState
put_file state p f = record state { files = HashMap.insert state.files p f }

unfoldable pub write_file : ℕ → StorageState → Text → Text → StorageState
unfolding file_or_new
write_file now state p bytes =
    put_file state p
      (record (file_or_new now (HashMap.get state.files p)) { content = bytes; modified = now })

unfoldable pub write : ℕ → StorageState → Text → Text → StorageState × VfsResult (Unit {0})
unfolding check_writable write_file
write now state path bytes = elim (normalize_path path) [
  | err e ↦ (state, err e)
  | ok p ↦ elim (check_writable state p) [
    | err e ↦ (state, err e)
    | ok _ ↦ (write_file now state p bytes, ok tt)
  ]
]

-- The content, extended to the end of the write.
unfoldable pub extend : Text → ℕ → Text
extend content needed_len =
    if ltb (length content) needed_len then resize content needed_len 0 else content

-- `copy_from_slice` into the range from `offset` to `end`; `end` lies within the content.
unfoldable pub overwrite : Text → ℕ → ℕ → Text → Text
overwrite content offset end bytes = take offset content ++ (bytes ++ drop end content)

-- A range that wraps is refused by the slice; the entry stays, and its extension.
unfoldable pub write_file_at :
    ℕ → StorageState → Text → ℕ → Text → StorageState × Outcome (VfsResult (Unit {0}))
unfolding file_or_new extend overwrite
write_file_at now state p offset bytes =
    let needed_len = (offset + length bytes) % 2 ^ 64 in
    let f = file_or_new now (HashMap.get state.files p) in
    let extended = extend f.content needed_len in
    if ltb needed_len offset
    then (put_file state p (record f { content = extended }), Outcome.panics)
    else (
      put_file state p
          (record f { content = overwrite extended offset needed_len bytes; modified = now }),
      Outcome.returns (ok tt),
    )

unfoldable pub write_at :
    ℕ → StorageState → Text → ℕ → Text → StorageState × Outcome (VfsResult (Unit {0}))
unfolding check_writable write_file_at
write_at now state path offset bytes = elim (normalize_path path) [
  | err e ↦ (state, Outcome.returns (err e))
  | ok p ↦ elim (check_writable state p) [
    | err e ↦ (state, Outcome.returns (err e))
    | ok _ ↦ write_file_at now state p offset bytes
  ]
]

unfoldable pub set_size : ℕ → StorageState → Text → ℕ → StorageState × VfsResult (Unit {0})
set_size now state path size = elim (normalize_path path) [
  | err e ↦ (state, err e)
  | ok p ↦ elim (HashMap.get state.files p) [
    | none ↦ (state, err (VfsError.not_found p))
    | some f ↦
        (put_file state p (record f { content = resize f.content size 0; modified = now }), ok tt)
  ]
]

unfoldable pub delete : StorageState → Text → StorageState × VfsResult (Unit {0})
unfolding no_file
delete state path = elim (normalize_path path) [
  | err e ↦ (state, err e)
  | ok p ↦ elim (HashMap.get state.files p) [
    | some f ↦ (record state { files = HashMap.remove state.files p }, ok tt)
    | none ↦ (state, no_file state p)
  ]
]

unfoldable pub exists : StorageState → Text → VfsResult Bool
exists state path = normalize_path path >>= λ p.
    ok (HashMap.contains_key state.files p || HashSet.contains state.directories p)

abbrev pub file_metadata : FileData → Metadata
file_metadata f = record {
  is_dir = false;
  size = length f.content;
  created = f.created;
  modified = f.modified;
  accessed = f.accessed;
}

abbrev pub directory_metadata : ℕ → Metadata
directory_metadata now = record {
  is_dir = true;
  size = 0;
  created = now;
  modified = now;
  accessed = now;
}

unfoldable pub stat : ℕ → StorageState → Text → VfsResult Metadata
stat now state path = normalize_path path >>= λ p. elim (HashMap.get state.files p) [
  | some f ↦ ok (file_metadata f)
  | none ↦
      if HashSet.contains state.directories p
      then ok (directory_metadata now)
      else err (VfsError.not_found p)
]
