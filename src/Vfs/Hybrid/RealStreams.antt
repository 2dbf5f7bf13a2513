-- ===== src/Vfs/Hybrid/RealStreams.antt =====
-- The streams on files of the host of crates/eryx-vfs/src/streams.rs.
use eryx.Prelude.{
  ℕ, zero, suc, ◌+◌, ◌%◌, ◌^◌, Bool, true, false, [], ◌∷◌, Result, ok, err, ◌==◌, text_keys, length,
  if◌then◌else◌,
}
use eryx.Prelude.Text.{Text}
use eryx.Vfs.Hybrid.{IoError, IoResult, CapStd}
use eryx.Vfs.Streams.{buffer_size}

pub data RealStreamError : Type 0 where
  closed : RealStreamError
  last_operation_failed : IoError → RealStreamError

pub record RealFileInputStream (F : Type 0) : Type 0 where
  pub file : F
  pub position : ℕ
  pub is_closed : Bool

pub record RealFileOutputStream (F : Type 0) : Type 0 where
  pub file : F
  pub position : ℕ
  pub append : Bool
  pub is_closed : Bool

module _ {F : Type 0} where
  unfoldable pub real_input_new : F → ℕ → RealFileInputStream F
  real_input_new file offset = record { file = file; position = offset; is_closed = false }

  unfoldable pub real_write_at : F → ℕ → RealFileOutputStream F
  real_write_at file offset = record {
    file = file;
    position = offset;
    append = false;
    is_closed = false;
  }

  unfoldable pub real_append : F → RealFileOutputStream F
  real_append file = record { file = file; position = 0; append = true; is_closed = false }

  -- What a read does with the bytes that came.
  abbrev pub real_received :
      RealFileInputStream F → Text → RealFileInputStream F × Result Text RealStreamError
  real_received stream [] = (record stream { is_closed = true }, err RealStreamError.closed)
  real_received stream (c ∷ cs) =
      (record stream { position = (stream.position + length (c ∷ cs)) % 2 ^ 64 }, ok (c ∷ cs))

  unfoldable pub real_flush : RealFileOutputStream F → Result (Unit {0}) RealStreamError
  real_flush stream = if stream.is_closed then err RealStreamError.closed else ok tt

  unfoldable pub real_check_write : RealFileOutputStream F → Result ℕ RealStreamError
  real_check_write stream = if stream.is_closed then err RealStreamError.closed else ok buffer_size

  -- What a write does with the number of bytes that were written.
  abbrev pub advanced :
      RealFileOutputStream F
      → IoResult ℕ
      → RealFileOutputStream F × Result (Unit {0}) RealStreamError
  advanced stream (err e) = (stream, err (RealStreamError.last_operation_failed e))
  advanced stream (ok n) = (
    if stream.append then stream else record stream { position = (stream.position + n) % 2 ^ 64 },
    ok tt,
  )

module _ {W D F : Type 0} (cap : CapStd W D F) where
  unfoldable pub real_read :
      W → RealFileInputStream F → ℕ → RealFileInputStream F × Result Text RealStreamError
  real_read w stream size =
      if stream.is_closed then (stream, err RealStreamError.closed) else elim size [
        | zero ↦ (stream, ok [])
        | suc n ↦ elim (cap.read_at w stream.file (suc n) stream.position) [
          | err e ↦ (stream, err (RealStreamError.last_operation_failed e))
          | ok bytes ↦ real_received stream bytes
        ]
      ]

  -- The write of the bytes at the position, or at the end of the file in append mode.
  unfoldable pub write_file : W → RealFileOutputStream F → Text → W × IoResult ℕ
  write_file w stream bytes =
      if stream.append
      then elim (cap.file_metadata w stream.file) [
        | err e ↦ (w, err e)
        | ok meta ↦ cap.write_at w stream.file bytes meta.len
      ]
      else cap.write_at w stream.file bytes stream.position

  unfoldable pub real_write :
      W
      → RealFileOutputStream F
      → Text
      → W × RealFileOutputStream F × Result (Unit {0}) RealStreamError
  unfolding write_file
  real_write w stream bytes =
      let (after, r) = write_file w stream bytes in
      let (next, reply) = advanced stream r in
      if stream.is_closed
      then (w, stream, err RealStreamError.closed)
      else if bytes == []
      then (w, stream, ok tt)
      else (after, next, reply)
