-- ===== src/Vfs/Storage/Files.antt =====
-- Reads after writes in crates/eryx-vfs/src/storage.rs: the file that an operation names has the new
-- content, and every other path reads as before.
use eryx.Prelude.{
  ℕ, ◌+◌, ◌-◌, ◌^◌, ◌<◌, max, ◌≡◌, ◌≢◌, ◌&&◌, ok, err, ltb, leb, length, [], ◌∙◌, resize,
  if◌then◌else◌, arith, ◌==◌, eq_iff, eq_self, text_keys, inl, inr, Result-cases,
}
use eryx.Prelude.HashMap
use eryx.Prelude.HashMap.{HashMap, get-insert, get-remove}
use eryx.Prelude.Text.{Text}
use eryx.Vfs.Path.{VfsResult, normalize_path}
use eryx.Vfs.Storage.{
  Outcome, FileData, StorageState, read, read_file, read_at, read_file_at, read_content, write,
  write_file, write_at, write_file_at, file_or_new, put_file, set_size, no_file,
}
use eryx.Vfs.Storage.Bytes.{
  byte_at, written, length-written, byte_at-written, read_content-written, length-resize,
  byte_at-resize,
}

-- Two paths name the same file.
abbrev pub IsSame : Text → Text → Type 0
IsSame q path = normalize_path q ≡ normalize_path path

-- Every other path reads as before.
abbrev pub SameElsewhere : StorageState → StorageState → Text → Type 0
SameElsewhere before after path = (q : Text) → ¬ IsSame q path → read after q ≡ read before q

abbrev pub content_or_empty : VfsResult Text → Text
content_or_empty (ok c) = c
content_or_empty (err e) = []

read_file-put_file :
    (s : StorageState) (p r : Text) (f : FileData)
    → read_file (put_file s p f) r ≡ (if p == r then ok f.content else read_file s r)
unfolding read_file
read_file-put_file s p r f = ground (arith, get-insert s.files p r f)

-- What `put_file` under a normalised path does to the reads.
abbrev Puts : StorageState → StorageState → Text → Text → Type 0
Puts before after path content = (read after path ≡ ok content) × SameElsewhere before after path

put_file-Puts :
    (s : StorageState) (path p : Text) (f : FileData)
    → normalize_path path ≡ ok p
    → Puts s (put_file s p f) path f.content
unfolding read
put_file-Puts s path p f e = (
  rw e (read_file-put_file s p p f ∙ rw (eq_self p)),
  λ q ne. elim (Result-cases (normalize_path q)) [
    | inl (r, g) ↦
        let other : p ≢ r = λ (same : p ≡ r). ne (ground arith) in
        rw g (ground (arith, read_file-put_file s p r f, eq_iff p r))
    | inr (x, g) ↦ rw g
  ],
)

write_done :
    (now : ℕ) (s : StorageState) (path bytes : Text)
    → (write now s path bytes).1 ≡ ok tt
    → (p : Text) × (normalize_path path ≡ ok p)
      × ((write now s path bytes).0 ≡ write_file now s p bytes)
unfolding write
write_done now s path bytes done = elim (Result-cases (normalize_path path)) [
  | inl (p, e) ↦ (p, e, ground arith)
  | inr (x, e) ↦ absurd (ground arith)
]

-- A write that succeeds is read back, and touches no other path.
pub read-write :
    (now : ℕ) (s : StorageState) (path bytes : Text)
    → (write now s path bytes).1 ≡ ok tt
    → (read (write now s path bytes).0 path ≡ ok bytes)
      × SameElsewhere s (write now s path bytes).0 path
unfolding write_file
read-write now s path bytes done =
    let w = write_done now s path bytes done in
    let f = file_or_new now (HashMap.get s.files w.0) in
    rw w.2 (put_file-Puts s path w.0 (record f { content = bytes; modified = now }) w.1)

old_content :
    (now : ℕ) (s : StorageState) (path p : Text)
    → normalize_path path ≡ ok p
    → content_or_empty (read s path) ≡ (file_or_new now (HashMap.get s.files p)).content
unfolding read read_file no_file file_or_new
old_content now s path p e = rw e (ground arith)

-- The file at `path` after a write of `bytes` at `offset`, in terms of the file before it.
pub record WritesAt (before after : StorageState) (path : Text) (offset : ℕ) (bytes : Text)
    : Type 0 where
  pub content : Text
  pub found : read after path ≡ ok content
  pub size :
      length content ≡ max (length (content_or_empty (read before path))) (offset + length bytes)
  pub byte :
      (i : ℕ)
      → byte_at content i ≡ (
          if leb offset i && ltb i (offset + length bytes)
          then byte_at bytes (i - offset)
          else byte_at (content_or_empty (read before path)) i)
  pub back : read_at after path offset (length bytes) ≡ Outcome.returns (ok bytes)
  pub elsewhere : SameElsewhere before after path

read_file_at-put_file :
    (s : StorageState) (p : Text) (f : FileData) (offset len : ℕ)
    → read_file_at (put_file s p f) p offset len ≡ read_content f.content offset len
unfolding read_file_at
read_file_at-put_file s p f offset len = ground (arith, get-insert s.files p p f, eq_self p)

read_at-put_file :
    (s : StorageState) (path p : Text) (f : FileData) (offset len : ℕ)
    → normalize_path path ≡ ok p
    → read_at (put_file s p f) path offset len ≡ read_content f.content offset len
unfolding read_at
read_at-put_file s path p f offset len e = rw (e, read_at) (read_file_at-put_file s p f offset len)

module _ (now : ℕ) (s : StorageState) (path : Text) (offset : ℕ) (bytes : Text)
    (fits : offset + length bytes < 2 ^ 64) where
  pub written_file : Text → FileData
  written_file p =
      let f = file_or_new now (HashMap.get s.files p) in
      record f { content = written f.content bytes offset; modified = now }

  pub write_file_at_lem :
      (p : Text)
      → write_file_at now s p offset bytes
        ≡ (put_file s p (written_file p), Outcome.returns (ok tt))
  unfolding write_file_at written_file
  write_file_at_lem p = ground arith

  write_at_done :
      (write_at now s path offset bytes).1 ≡ Outcome.returns (ok tt)
      → (p : Text) × (normalize_path path ≡ ok p)
        × ((write_at now s path offset bytes).0 ≡ put_file s p (written_file p))
  unfolding write_at
  write_at_done done = elim (Result-cases (normalize_path path)) [
    | inl (p, e) ↦ (p, e, ground (arith, write_file_at_lem p))
    | inr (x, e) ↦ absurd (ground arith)
  ]

  -- Where the end of the write fits a machine word, a write at an offset that succeeds puts the
  -- bytes there, fills a gap with zeros, leaves the file's other bytes and all other paths alone, and
  -- a read at the offset gives the bytes back.
  pub write_at-WritesAt :
      (write_at now s path offset bytes).1 ≡ Outcome.returns (ok tt)
      → WritesAt s (write_at now s path offset bytes).0 path offset bytes
  unfolding written_file
  write_at-WritesAt done =
      let w = write_at_done done in
      let old = file_or_new now (HashMap.get s.files w.0) in
      let puts = put_file-Puts s path w.0 (written_file w.0) w.1 in
      rw w.2 (record {
        content = written old.content bytes offset;
        found = puts.0;
        size = rw (old_content now s path w.0 w.1) (length-written old.content bytes offset);
        byte =
            λ i. rw (old_content now s path w.0 w.1) (byte_at-written old.content bytes offset i);
        back =
            read_at-put_file s path w.0 (written_file w.0) offset (length bytes) w.1
            ∙ read_content-written old.content bytes offset fits;
        elsewhere = puts.1;
      })

-- The file at `path` after a change of its size.
pub record Resizes (before after : StorageState) (path : Text) (size : ℕ) : Type 0 where
  pub content : Text
  pub found : read after path ≡ ok content
  pub resized : length content ≡ size
  pub byte :
      (i : ℕ)
      → byte_at content i
        ≡ (if ltb i size then byte_at (content_or_empty (read before path)) i else 0)
  pub elsewhere : SameElsewhere before after path

sized_file : ℕ → StorageState → Text → ℕ → FileData
sized_file now s p size =
    let f = file_or_new now (HashMap.get s.files p) in
    record f { content = resize f.content size 0; modified = now }

set_size_done :
    (now : ℕ) (s : StorageState) (path : Text) (size : ℕ)
    → (set_size now s path size).1 ≡ ok tt
    → (p : Text) × (normalize_path path ≡ ok p)
      × ((set_size now s path size).0 ≡ put_file s p (sized_file now s p size))
unfolding set_size sized_file file_or_new
set_size_done now s path size done = elim (Result-cases (normalize_path path)) [
  | inl (p, e) ↦ (p, e, ground arith)
  | inr (x, e) ↦ absurd (ground arith)
]

-- A change of size that succeeds keeps the bytes below the new size, fills up with zeros, and
-- touches no other path.
pub set_size-Resizes :
    (now : ℕ) (s : StorageState) (path : Text) (size : ℕ)
    → (set_size now s path size).1 ≡ ok tt
    → Resizes s (set_size now s path size).0 path size
unfolding sized_file
set_size-Resizes now s path size done =
    let w = set_size_done now s path size done in
    let old = file_or_new now (HashMap.get s.files w.0) in
    let puts = put_file-Puts s path w.0 (sized_file now s w.0 size) w.1 in
    rw w.2 (record {
      content = resize old.content size 0;
      found = puts.0;
      resized = length-resize old.content size;
      byte = λ i. rw (old_content now s path w.0 w.1) (byte_at-resize old.content size i);
      elsewhere = puts.1;
    })
