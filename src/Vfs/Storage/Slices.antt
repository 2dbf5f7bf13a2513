-- ===== src/Vfs/Storage/Slices.antt =====
-- `read_at` of crates/eryx-vfs/src/storage.rs against `read`.
use eryx.Prelude.{
  ℕ, ◌+◌, ◌^◌, ◌<◌, ◌≤◌, ◌≡◌, ◌∙◌, inl, inr, ok, err, length, take, drop, Result-cases, arith,
}
use eryx.Prelude.Text.{Text}
use eryx.Vfs.Path.{VfsError, normalize_path}
use eryx.Vfs.Storage.{
  Outcome, StorageState, read, read_file, read_at, read_file_at, read_content, no_file,
}
use eryx.Vfs.Storage.Bytes.{read_content_lem, read_content_wraps}

module _ (s : StorageState) (path : Text) (offset len : ℕ) where
  read_file_at-err :
      (p : Text) (e : VfsError)
      → read_file s p ≡ err e
      → read_file_at s p offset len ≡ Outcome.returns (err e)
  unfolding read_file read_file_at no_file
  read_file_at-err p e h = ground arith

  read_at-err :
      (e : VfsError) → read s path ≡ err e → read_at s path offset len ≡ Outcome.returns (err e)
  unfolding read read_at
  read_at-err e h = elim (Result-cases (normalize_path path)) [
    | inl (p, f) ↦ ground (arith, read_file_at-err p e)
    | inr (x, f) ↦ ground arith
  ]

  read_file_at-ok :
      (p c : Text) → read_file s p ≡ ok c → read_file_at s p offset len ≡ read_content c offset len
  unfolding read_file read_file_at no_file
  read_file_at-ok p c h = ground arith

  read_at-ok :
      (c : Text) → read s path ≡ ok c → read_at s path offset len ≡ read_content c offset len
  unfolding read read_at
  read_at-ok c h = elim (Result-cases (normalize_path path)) [
    | inl (p, f) ↦ ground (arith, read_file_at-ok p c)
    | inr (x, f) ↦ absurd (ground arith)
  ]

  -- How a read at an offset follows from a read of the whole.
  pub record Slices : Type 0 where
    pub fails :
        (e : VfsError) → read s path ≡ err e → read_at s path offset len ≡ Outcome.returns (err e)
    pub within :
        (c : Text)
        → read s path ≡ ok c
        → offset + len < 2 ^ 64
        → read_at s path offset len ≡ Outcome.returns (ok (take len (drop offset c)))
    pub wraps :
        (c : Text)
        → read s path ≡ ok c
        → offset < length c
        → 2 ^ 64 ≤ offset + len
        → read_at s path offset len ≡ Outcome.panics

  -- A read at an offset fails as a read of the whole file fails; where the end of the range fits a
  -- machine word it returns the bytes of the file from the offset on, at most `len`; and where the
  -- end does not fit and the offset lies in the file, it panics.
  pub read_at-Slices : offset < 2 ^ 64 → len < 2 ^ 64 → Slices
  read_at-Slices a b = record {
    fails = read_at-err;
    within = λ c h fits. read_at-ok c h ∙ read_content_lem c offset len fits;
    wraps = λ c h inside past. read_at-ok c h ∙ read_content_wraps c offset len inside a b past;
  }
