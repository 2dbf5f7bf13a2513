-- ===== src/Vfs/Streams/Refinement.antt =====
-- What the streams of crates/eryx-vfs/src/streams.rs promise: an output stream refines one write at an
-- offset, and an input stream reads it back.
use eryx.Prelude.{
  ℕ, suc, ◌+◌, ◌^◌, ◌<◌, ◌≤◌, ◌≡◌, ◌≢◌, refl, ap, subst, ◌∙◌, List, [], ◌∷◌, ◌++◌, ok, err, length,
  length-append, length-drop, drop, some, false, arith,
}
use eryx.Prelude.Text.{Text}
use eryx.Vfs.Storage.{StorageState, read}
use eryx.Vfs.Streams.{
  VfsOutputStream, StreamError, output_write_at, write, flush, flush_sync, input_new,
}
use eryx.Vfs.Streams.Composition.{IsWritable, Filled}
use eryx.Vfs.Storage.Bytes.{byte_at_out, byte_at_ext, byte_at-drop}
use eryx.Vfs.Storage.Files.{content_or_empty}
use eryx.Vfs.Streams.Drain.{read_all, read_all-drop}
use eryx.Vfs.Streams.Chunks.{
  write_all, write_chunks, concat, writing, Stored, Holds, Holds-Filled, flush-Holds, write-Holds,
}
use mathlib.Core.List.{append_assoc, append-nil}

module _ (now : ℕ) (s : StorageState) (w : VfsOutputStream) where
  write_all_next :
      (chunk : Text) (chunks : List Text)
      → (write now s w chunk).2 ≡ ok tt
      → write_all now s w (chunk ∷ chunks)
        ≡ write_all now (write now s w chunk).1 (write now s w chunk).0 chunks
  unfolding write_all
  write_all_next chunk chunks done = ground arith

  write_chunks_last :
      (chunks : List Text)
      → (write_all now s w chunks).2 ≡ ok tt
      → write_chunks now s w chunks
        ≡ flush now (write_all now s w chunks).1 (write_all now s w chunks).0
  unfolding write_chunks
  write_chunks_last chunks done = ground arith

module _ (origin : StorageState) (path p : Text) (offset now : ℕ) where
  write_all-Holds :
      (chunks : List Text) (all : Text) (w : VfsOutputStream) (s : StorageState)
      → offset + length (all ++ concat chunks) < 2 ^ 64
      → Holds origin path p offset all w s
      → Holds origin path p offset
          (all ++ concat chunks)
          (write_all now s w chunks).0
          (write_all now s w chunks).1
        × ((write_all now s w chunks).2 ≡ ok tt)
  unfolding write_all
  write_all-Holds [] all w s fits h = rw (append-nil all) (h, refl)
  write_all-Holds (chunk ∷ chunks) all w s fits h =
      let grouped = append_assoc all chunk (concat chunks) in
      let head_fits : offset + length (all ++ chunk) < 2 ^ 64 =
        omega (arith, ap length grouped, length-append (all ++ chunk) (concat chunks)) in
      let step = write-Holds origin path p offset now all chunk w s head_fits h in
      let rest =
        write_all-Holds chunks (all ++ chunk) (write now s w chunk).0 (write now s w chunk).1
          (omega (arith, ap length grouped)) step.0 in
      rw (write_all_next now s w chunk chunks step.1, ← grouped) rest

-- Chunks that go through a stream opened for a write at an offset, and a flush, succeed and come to one
-- write of all of them at the offset, however they are cut, where the path can be written to, there
-- is a byte, and the end fits a machine word.
pub write_chunks-Filled :
    (now : ℕ) (s : StorageState) (path p : Text) (offset : ℕ) (chunks : List Text)
    → IsWritable s path p
    → concat chunks ≢ []
    → offset + length (concat chunks) < 2 ^ 64
    → ((write_chunks now s (output_write_at path offset) chunks).2 ≡ ok tt)
      × Filled s
          (write_chunks now s (output_write_at path offset) chunks).1
          path
          offset
          (concat chunks)
unfolding output_write_at
write_chunks-Filled now s path p offset chunks writable some_bytes fits =
    let w = output_write_at path offset in
    let starts : Holds s path p offset [] w s = record {
      flushed = [];
      buffer = [];
      split = refl;
      same = ap (writing path []) (omega arith);
      writable = writable;
      stored = Stored.untouched refl refl;
    } in
    let all = write_all-Holds s path p offset now chunks [] w s fits starts in
    let next = (write_all now s w chunks).0 in
    let after = (write_all now s w chunks).1 in
    let done = flush-Holds s path p offset now (concat chunks) next after fits all.0 in
    rw (write_chunks_last now s w chunks all.1) (
      done.1,
      Holds-Filled s path p offset now (concat chunks) (flush now after next).0
          (flush now after next).1 some_bytes done.0 done.2,
    )

Filled-drop :
    {s t : StorageState} {path : Text} {offset : ℕ} (bytes : Text)
    (f : Filled s t path offset bytes)
    → length (content_or_empty (read s path)) ≤ offset + length bytes
    → drop offset f.content ≡ bytes
Filled-drop {s} {path = path} {offset = offset} bytes f ends =
    byte_at_ext (drop offset f.content) bytes (omega (arith, length-drop offset f.content, f.size))
      (λ i.
        byte_at-drop offset f.content i
        ∙ ground (
          arith,
          f.byte (offset + i),
          byte_at_out (content_or_empty (read s path)) (offset + i),
          byte_at_out bytes i,
        ))

-- What chunks write through an output stream at an offset, reads of any positive size from an input
-- stream at that offset give back up to its end, where the path can be written to, there is a
-- byte, the file did not reach behind the chunks, and no position leaves a machine word.
pub write_chunks-read_all :
    (now : ℕ) (s : StorageState) (path p : Text) (offset n : ℕ) (chunks : List Text)
    → IsWritable s path p
    → concat chunks ≢ []
    → length (content_or_empty (read s path)) ≤ offset + length (concat chunks)
    → offset + (offset + length (concat chunks)) + suc n < 2 ^ 64
    → read_all
        (suc (offset + length (concat chunks)))
        (write_chunks now s (output_write_at path offset) chunks).1
        (input_new path offset)
        (suc n)
      ≡ some (concat chunks)
write_chunks-read_all now s path p offset n chunks writable some_bytes ends fits =
    let wrote = write_chunks-Filled now s path p offset chunks writable some_bytes (omega arith) in
    let after = (write_chunks now s (output_write_at path offset) chunks).1 in
    let whole : length wrote.1.content ≡ offset + length (concat chunks) =
      omega (arith, wrote.1.size) in
    subst (λ m. read_all (suc m) after (input_new path offset) (suc n) ≡ some (concat chunks)) whole
      (read_all-drop after path wrote.1.content offset n wrote.1.found (omega (arith, whole))
        ∙ ap some (Filled-drop (concat chunks) wrote.1 ends))

-- A flush that fails leaves the stream empty, so that a second flush succeeds whatever the storage has
-- become, and writes nothing.
pub flush-flush :
    (now later : ℕ) (s t : StorageState) (w : VfsOutputStream) (e : StreamError)
    → w.is_closed ≡ false
    → (flush now s w).2 ≡ err e
    → ((flush later t (flush now s w).0).2 ≡ ok tt) × ((flush later t (flush now s w).0).1 ≡ t)
unfolding flush flush_sync
flush-flush now later s t w e is_open failed = ground arith
