-- ===== src/Vfs/Storage/Placement.antt =====
-- The calls of crates/eryx-vfs/src/storage.rs on files keep the tree of the paths.
use eryx.Prelude.{
  ℕ, ◌≡◌, true, inl, inr, some, ok, text_keys, arith, Option-cases, Result-cases, Bool-cases, ◌+◌,
  ◌%◌, ◌^◌, length, ltb,
}
use eryx.Prelude.HashMap
use eryx.Prelude.HashMap.{contains_key, get-insert, get-remove}
use eryx.Prelude.Text.{Text}
use eryx.Vfs.Path.{normalize_path}
use eryx.Vfs.Path.Canonical.{normalize_path_again}
use eryx.Vfs.Storage.{
  FileData, StorageState, check_parent_exists_with_state, check_writable, write, write_file,
  write_at, write_file_at, set_size, delete,
}
use eryx.Vfs.Storage.Tree.{IsTree, IsPlace, insert-IsTree, remove-IsTree}

check_writable-IsPlace :
    (s : StorageState) (path p : Text)
    → normalize_path path ≡ ok p
    → check_writable s p ≡ ok tt
    → IsPlace s p
unfolding check_writable
check_writable-IsPlace s path p e w = elim (Result-cases (check_parent_exists_with_state s p)) [
  | inl (done, f) ↦ record {
    free = ground arith;
    parent = f;
    canonical = normalize_path_again path e;
  }
  | inr (x, f) ↦ absurd (ground arith)
]

pub write-IsTree :
    (now : ℕ) (s : StorageState) (path bytes : Text) → IsTree s → IsTree (write now s path bytes).0
unfolding write write_file
write-IsTree now s path bytes t = elim (Result-cases (normalize_path path)) [
  | inl (p, e) ↦ elim (Result-cases (check_writable s p)) [
    | inl (done, f) ↦
        rw (e, write) (rw f (insert-IsTree s p _ t (check_writable-IsPlace s path p e f)))
    | inr (x, f) ↦ rw (e, write) (rw f t)
  ]
  | inr (x, e) ↦ rw (e, write) t
]

write_file_at-IsTree :
    (now : ℕ) (s : StorageState) (p : Text) (offset : ℕ) (bytes : Text)
    → IsTree s
    → IsPlace s p
    → IsTree (write_file_at now s p offset bytes).0
unfolding write_file_at
write_file_at-IsTree now s p offset bytes t place =
    elim (Bool-cases (ltb ((offset + length bytes) % 2 ^ 64) offset)) [
      | inl e ↦ rw (e, write_file_at) (insert-IsTree s p _ t place)
      | inr e ↦ rw (e, write_file_at) (insert-IsTree s p _ t place)
    ]

pub write_at-IsTree :
    (now : ℕ) (s : StorageState) (path : Text) (offset : ℕ) (bytes : Text)
    → IsTree s
    → IsTree (write_at now s path offset bytes).0
unfolding write_at
write_at-IsTree now s path offset bytes t = elim (Result-cases (normalize_path path)) [
  | inl (p, e) ↦ elim (Result-cases (check_writable s p)) [
    | inl (done, f) ↦
        rw (e, write_at)
          (rw f (write_file_at-IsTree now s p offset bytes t (check_writable-IsPlace s path p e f)))
    | inr (x, f) ↦ rw (e, write_at) (rw f t)
  ]
  | inr (x, e) ↦ rw (e, write_at) t
]

-- A place at which there is a file already.
present-IsPlace :
    (s : StorageState) (p : Text) {f : FileData}
    → IsTree s
    → HashMap.get s.files p ≡ some f
    → IsPlace s p
present-IsPlace s p t e =
    let here : contains_key s.files p ≡ true = rw e in
    record {
      free = t.apart p here;
      parent = t.file_parent p here;
      canonical = t.file_canonical p here;
    }

pub set_size-IsTree :
    (now : ℕ) (s : StorageState) (path : Text) (size : ℕ)
    → IsTree s
    → IsTree (set_size now s path size).0
unfolding set_size
set_size-IsTree now s path size t = elim (Result-cases (normalize_path path)) [
  | inl (p, e) ↦ elim (Option-cases (HashMap.get s.files p)) [
    | inl f ↦ rw (e, set_size) (rw f t)
    | inr (old, f) ↦ rw (e, set_size) (rw f (insert-IsTree s p _ t (present-IsPlace s p t f)))
  ]
  | inr (x, e) ↦ rw (e, set_size) t
]

pub delete-IsTree : (s : StorageState) (path : Text) → IsTree s → IsTree (delete s path).0
unfolding delete
delete-IsTree s path t = elim (Result-cases (normalize_path path)) [
  | inl (p, e) ↦ elim (Option-cases (HashMap.get s.files p)) [
    | inl f ↦ rw (e, delete) (rw f t)
    | inr (old, f) ↦ rw (e, delete) (rw f (remove-IsTree s p t))
  ]
  | inr (x, e) ↦ rw (e, delete) t
]
