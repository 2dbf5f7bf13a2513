-- ===== src/Vfs/Storage/Moves.antt =====
-- `delete` and the `rename` of a file in crates/eryx-vfs/src/storage.rs, by what can be read after
-- them.
use eryx.Prelude.{
  ◌≡◌, ◌≢◌, inl, inr, some, ok, err, ◌==◌, eq_iff, eq_self, text_keys, if◌then◌else◌, Option-cases,
  Result-cases, arith,
}
use eryx.Prelude.HashMap
use eryx.Prelude.HashMap.{get-insert, get-remove}
use eryx.Prelude.Text.{Text}
use eryx.Vfs.Path.{VfsError, normalize_path}
use eryx.Vfs.Storage.{FileData, StorageState, read, read_file, delete, no_file}
use eryx.Vfs.Storage.Rename.{rename, rename_entry}
use eryx.Vfs.Storage.Files.{IsSame, SameElsewhere}

abbrev without_file : StorageState → Text → StorageState
without_file s p = record s { files = HashMap.remove s.files p }

read_file-without_file :
    (s : StorageState) (p r : Text)
    → read_file (without_file s p) r ≡ (if p == r then no_file s r else read_file s r)
unfolding read_file no_file
read_file-without_file s p r = ground (arith, get-remove s.files p r)

delete_done :
    (s : StorageState) (path : Text)
    → (delete s path).1 ≡ ok tt
    → (p : Text) × (normalize_path path ≡ ok p) × ((delete s path).0 ≡ without_file s p)
unfolding delete no_file
delete_done s path done = elim (Result-cases (normalize_path path)) [
  | inl (p, e) ↦ (p, e, ground arith)
  | inr (x, e) ↦ absurd (ground arith)
]

no_file-ne-ok : (s : StorageState) (p c : Text) → no_file s p ≢ ok c
unfolding no_file
no_file-ne-ok s p c h = ground arith

-- After a delete that succeeds the path cannot be read, and every other path reads as before.
pub read-delete :
    (s : StorageState) (path : Text)
    → (delete s path).1 ≡ ok tt
    → ((c : Text) → read (delete s path).0 path ≢ ok c) × SameElsewhere s (delete s path).0 path
unfolding read
read-delete s path done =
    let w = delete_done s path done in
    rw w.2 (
      λ c h.
          no_file-ne-ok s w.0 c
            (ground (arith, read_file-without_file s w.0 w.0, eq_self w.0, w.1)),
      λ q ne. elim (Result-cases (normalize_path q)) [
        | inl (r, g) ↦
            let other : w.0 ≢ r = λ (same : w.0 ≡ r). ne (ground (arith, w.1)) in
            rw g (ground (arith, read_file-without_file s w.0 r, eq_iff w.0 r))
        | inr (x, g) ↦ rw g
      ],
    )

abbrev moved : StorageState → Text → Text → FileData → StorageState
moved s from to f = record s { files = HashMap.insert (HashMap.remove s.files from) to f }

read_file-moved :
    (s : StorageState) (from to r : Text) (f : FileData)
    → read_file (moved s from to f) r
      ≡ (if to == r then ok f.content else if from == r then no_file s r else read_file s r)
unfolding read_file no_file
read_file-moved s from to r f =
    ground (arith, get-insert (HashMap.remove s.files from) to r f, get-remove s.files from r)

rename_done :
    (s : StorageState) (from_path to_path from to : Text) (f : FileData)
    → normalize_path from_path ≡ ok from
    → normalize_path to_path ≡ ok to
    → HashMap.get s.files from ≡ some f
    → from ≢ to
    → (rename s from_path to_path).1 ≡ ok tt
    → (rename s from_path to_path).0 ≡ moved s from to f
unfolding rename rename_entry
rename_done s from_path to_path from to f a b g ne done = ground (arith, eq_iff from to)

-- A file that can be read.
read_found :
    (s : StorageState) (path c : Text)
    → read s path ≡ ok c
    → (p : Text) × (f : FileData) × (normalize_path path ≡ ok p)
      × (HashMap.get s.files p ≡ some f)
      × (f.content ≡ c)
unfolding read read_file no_file
read_found s path c h = elim (Result-cases (normalize_path path)) [
  | inl (p, e) ↦ elim (Option-cases (HashMap.get s.files p)) [
    | inl g ↦ absurd (ground arith)
    | inr (f, g) ↦ (p, f, e, g, ground arith)
  ]
  | inr (x, e) ↦ absurd (ground arith)
]

-- What `rename` of a file with content `c` does to the reads.
pub record Moves (before after : StorageState) (from to c : Text) : Type 0 where
  pub there : read after to ≡ ok c
  pub gone : (x : Text) → read after from ≢ ok x
  pub elsewhere : (q : Text) → ¬ IsSame q from → ¬ IsSame q to → read after q ≡ read before q

moved-Moves :
    (s : StorageState) (from_path to_path from to : Text) (f : FileData) (c : Text)
    → normalize_path from_path ≡ ok from
    → normalize_path to_path ≡ ok to
    → from ≢ to
    → f.content ≡ c
    → Moves s (moved s from to f) from_path to_path c
unfolding read
moved-Moves s from_path to_path from to f c a b ne same = record {
  there = rw b (ground (arith, read_file-moved s from to to f, eq_self to));
  gone = λ x h.
      no_file-ne-ok s from x
        (ground (arith, a, read_file-moved s from to from f, eq_self from, eq_iff to from));
  elsewhere = λ q not_from not_to. elim (Result-cases (normalize_path q)) [
    | inl (r, g) ↦
        let old : from ≢ r = λ (e : from ≡ r). not_from (ground (arith, a)) in
        let new : to ≢ r = λ (e : to ≡ r). not_to (ground (arith, b)) in
        rw g (ground (arith, read_file-moved s from to r f, eq_iff from r, eq_iff to r))
    | inr (x, g) ↦ rw g
  ];
}

rename_err :
    (s : StorageState) (from_path to_path from : Text) (x : VfsError)
    → normalize_path from_path ≡ ok from
    → normalize_path to_path ≡ err x
    → (rename s from_path to_path).1 ≢ ok tt
unfolding rename
rename_err s from_path to_path from x a b h = ground arith

-- A rename of a file to another path that succeeds moves its content there; the old path cannot be
-- read any more, and all others read as before.
pub rename-Moves :
    (s : StorageState) (from_path to_path c : Text)
    → read s from_path ≡ ok c
    → ¬ IsSame from_path to_path
    → (rename s from_path to_path).1 ≡ ok tt
    → Moves s (rename s from_path to_path).0 from_path to_path c
rename-Moves s from_path to_path c was ne done =
    let found = read_found s from_path c was in
    elim (Result-cases (normalize_path to_path)) [
      | inl (to, e) ↦
          let other : found.0 ≢ to = λ (same : found.0 ≡ to). ne (ground (arith, found.2)) in
          rw (rename_done s from_path to_path found.0 to found.1 found.2 e found.3 other done)
            (moved-Moves s from_path to_path found.0 to found.1 c found.2 e other found.4)
      | inr (x, e) ↦ absurd (rename_err s from_path to_path found.0 x found.2 e done)
    ]
