-- ===== src/Vfs/Streams/Composition.antt =====
-- Writes at an offset of crates/eryx-vfs/src/storage.rs one behind the other.
use eryx.Prelude.{
  ℕ, ◌+◌, ◌-◌, ◌^◌, ◌<◌, max, ◌≡◌, ap, ◌∙◌, ◌&&◌, ok, ltb, leb, length, length-append, ◌++◌,
  if◌then◌else◌, arith,
}
use eryx.Prelude.Text.{Text}
use eryx.Vfs.Path.{normalize_path}
use eryx.Vfs.Storage.{
  Outcome, StorageState, read, write_at, write_file_at, check_writable,
  check_parent_exists_with_state,
}
use eryx.Vfs.Storage.Bytes.{byte_at, byte_at-append}
use eryx.Vfs.Storage.Files.{
  SameElsewhere, content_or_empty, WritesAt, write_at-WritesAt, write_file_at_lem,
}

-- The path can be written to: it is `p` when normalised, its parent exists and it is no directory.
abbrev pub IsWritable : StorageState → Text → Text → Type 0
IsWritable s path p = (normalize_path path ≡ ok p) × (check_writable s p ≡ ok tt)

-- The file has the bytes at the offset, zeros in a gap before them, and its old bytes elsewhere.
pub record Filled (before after : StorageState) (path : Text) (offset : ℕ) (bytes : Text)
    : Type 0 where
  pub content : Text
  pub found : read after path ≡ ok content
  pub size :
      length content ≡ max (length (content_or_empty (read before path))) (offset + length bytes)
  pub byte :
      (i : ℕ)
      → byte_at content i ≡ (
          if leb offset i && ltb i (offset + length bytes)
          then byte_at bytes (i - offset)
          else byte_at (content_or_empty (read before path)) i)
  pub elsewhere : SameElsewhere before after path

WritesAt-Filled :
    {before after : StorageState} {path : Text} {offset : ℕ} {bytes : Text}
    → WritesAt before after path offset bytes
    → Filled before after path offset bytes
WritesAt-Filled w = record {
  content = w.content;
  found = w.found;
  size = w.size;
  byte = w.byte;
  elsewhere = w.elsewhere;
}

module _ (now : ℕ) (s : StorageState) (path p : Text) (offset : ℕ) (bytes : Text)
    (fits : offset + length bytes < 2 ^ 64) (writable : IsWritable s path p) where
  pub write_at_runs : (write_at now s path offset bytes).1 ≡ Outcome.returns (ok tt)
  unfolding write_at
  write_at_runs =
      rw (writable.0, write_at)
        (rw (writable.1) (ap (λ r. r.1) (write_file_at_lem now s path offset bytes fits p)))

  pub write_at-IsWritable : IsWritable (write_at now s path offset bytes).0 path p
  unfolding write_at write_file_at check_writable check_parent_exists_with_state
  write_at-IsWritable = (writable.0, rw (writable.0, write_at) (ground (arith, writable.1)))

  pub write_at-Filled : Filled s (write_at now s path offset bytes).0 path offset bytes
  write_at-Filled = WritesAt-Filled (write_at-WritesAt now s path offset bytes fits write_at_runs)

-- A write behind what was written makes one write of both.
pub Filled-append :
    {s t u : StorageState} {path : Text} {offset : ℕ} (front back : Text)
    → Filled s t path offset front
    → Filled t u path (offset + length front) back
    → Filled s u path offset (front ++ back)
Filled-append {s} {t} {u} {path} {offset} front back f g =
    let old : content_or_empty (read t path) ≡ f.content = ap content_or_empty f.found in
    record {
      content = g.content;
      found = g.found;
      size = omega (arith, g.size, ap length old, f.size, length-append front back);
      byte = λ i. ground (
        arith,
        g.byte i,
        ap (λ t. byte_at t i) old,
        f.byte i,
        length-append front back,
        byte_at-append front back (i - offset),
      );
      elsewhere = λ q other. g.elsewhere q other ∙ f.elsewhere q other;
    }
