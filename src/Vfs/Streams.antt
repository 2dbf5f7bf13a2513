-- ===== src/Vfs/Streams.antt =====
-- The streams `VfsInputStream` and `VfsOutputStream` of crates/eryx-vfs/src/streams.rs over the storage
-- in memory. The storage is shared, so each call takes its state and returns it; the thread and the
-- runtime that carry a call out are always there, and the lock of the buffer is free.
pub mod Composition
pub mod Chunks
pub mod Drain
pub mod Refinement
mod Examples
use eryx.Prelude.{
  ℕ, zero, suc, ◌+◌, ◌*◌, ◌%◌, ◌^◌, Bool, true, false, Option, none, some, List, [], ◌∷◌, ◌++◌,
  Result, ok, err, leb, ◌==◌, text_keys, length, if◌then◌else◌,
}
use eryx.Prelude.Text.{Text}
use eryx.Vfs.Path.{VfsError, VfsResult}
use eryx.Vfs.Storage.{Outcome, StorageState, stat}
use eryx.Vfs.Storage as Storage

-- A failed operation keeps the error that its message is made of; a trap is a panic below.
pub data StreamError : Type 0 where
  closed : StreamError
  last_operation_failed : VfsError → StreamError
  trap : StreamError

abbrev pub StreamResult : Type 0 → Type 0
StreamResult A = Result A StreamError

pub record VfsInputStream : Type 0 where
  pub path : Text
  pub position : ℕ
  pub is_closed : Bool

unfoldable pub input_new : Text → ℕ → VfsInputStream
input_new path offset = record { path = path; position = offset; is_closed = false }

-- What `read_sync` does with the bytes that came.
abbrev pub received : VfsInputStream → Text → VfsInputStream × StreamResult Text
received stream [] = (record stream { is_closed = true }, err StreamError.closed)
received stream (c ∷ cs) =
    (record stream { position = (stream.position + length (c ∷ cs)) % 2 ^ 64 }, ok (c ∷ cs))

unfoldable pub read_sync : StorageState → VfsInputStream → ℕ → VfsInputStream × StreamResult Text
read_sync storage stream zero = (stream, ok [])
read_sync storage stream (suc n) =
    elim (Storage.read_at storage stream.path stream.position (suc n)) [
      | Outcome.panics ↦ (stream, err StreamError.trap)
      | Outcome.returns (err e) ↦ (stream, err (StreamError.last_operation_failed e))
      | Outcome.returns (ok bytes) ↦ received stream bytes
    ]

unfoldable pub read : StorageState → VfsInputStream → ℕ → VfsInputStream × StreamResult Text
unfolding read_sync
read storage stream size =
    if stream.is_closed then (stream, err StreamError.closed) else read_sync storage stream size

unfoldable pub blocking_read :
    StorageState → VfsInputStream → ℕ → VfsInputStream × StreamResult Text
blocking_read storage stream size = read storage stream size

-- `position` is none in append mode.
pub record VfsOutputStream : Type 0 where
  pub path : Text
  pub buffer : Text
  pub position : Option ℕ
  pub is_closed : Bool

unfoldable pub output_write_at : Text → ℕ → VfsOutputStream
output_write_at path offset = record {
  path = path;
  buffer = [];
  position = some offset;
  is_closed = false;
}

unfoldable pub output_append : Text → VfsOutputStream
output_append path = record { path = path; buffer = []; position = none; is_closed = false }

-- 64 KB
abbrev pub buffer_size : ℕ
buffer_size = 64 * 1024

unfoldable pub write_position : ℕ → StorageState → VfsOutputStream → ℕ
write_position now storage stream = elim stream.position [
  | some p ↦ p
  | none ↦ elim (stat now storage stream.path) [ ok meta ↦ meta.size | err e ↦ 0 ]
]

abbrev pub Written : Type 0
Written = VfsOutputStream × StorageState × StreamResult (Unit {0})

-- The buffer is taken before the write, and stays taken when the write fails.
unfoldable pub flush_sync : ℕ → StorageState → VfsOutputStream → Written
unfolding write_position
flush_sync now storage stream =
    let taken = record stream { buffer = [] } in
    let from = write_position now storage stream in
    let (after, reply) = Storage.write_at now storage stream.path from stream.buffer in
    if stream.buffer == [] then (taken, storage, ok tt) else elim reply [
      | Outcome.panics ↦ (taken, after, err StreamError.trap)
      | Outcome.returns (err e) ↦ (taken, after, err (StreamError.last_operation_failed e))
      | Outcome.returns (ok _) ↦
          (record taken { position = some ((from + length stream.buffer) % 2 ^ 64) }, after, ok tt)
    ]

unfoldable pub write : ℕ → StorageState → VfsOutputStream → Text → Written
write now storage stream bytes =
    let buffered = record stream { buffer = stream.buffer ++ bytes } in
    if stream.is_closed
    then (stream, storage, err StreamError.closed)
    else if bytes == []
    then (stream, storage, ok tt)
    else if leb buffer_size (length buffered.buffer)
    then flush_sync now storage buffered
    else (buffered, storage, ok tt)

unfoldable pub flush : ℕ → StorageState → VfsOutputStream → Written
flush now storage stream =
    if stream.is_closed
    then (stream, storage, err StreamError.closed)
    else flush_sync now storage stream

unfoldable pub check_write : VfsOutputStream → StreamResult ℕ
check_write stream = if stream.is_closed then err StreamError.closed else ok buffer_size

unfoldable pub blocking_write_and_flush : ℕ → StorageState → VfsOutputStream → Text → Written
blocking_write_and_flush now storage stream bytes =
    let (next, after, reply) = write now storage stream bytes in
    elim reply [ err e ↦ (next, after, err e) | ok _ ↦ flush now after next ]

-- `Drop::drop`
unfoldable pub drop : ℕ → StorageState → VfsOutputStream → StorageState
drop now storage stream = (flush_sync now storage stream).1
