-- ===== src/Vfs/Storage/Nesting.antt =====
-- `rename` of a directory to a place below itself, in crates/eryx-vfs/src/storage.rs.
use eryx.Prelude.{
  ◌<◌, ◌≤◌, ◌≡◌, ap, ◌⊎◌, inl, inr, refl, Bool, true, false, ◌||◌, some, List, [], ◌∷◌, ok, ◌==◌,
  eq_iff, eq_self, text_keys, length, drop, filter, length-append, if◌then◌else◌, Bool-cases, arith,
}
use eryx.Prelude.HashMap.{contains_key}
use eryx.Prelude.HashSet
use eryx.Prelude.HashSet.{HashSet, contains-insert, contains-remove}
use eryx.Prelude.Text.{Text}
use eryx.Vfs.Path.{root, starts_with, normalize_path, parent_path}
use eryx.Vfs.Storage.{StorageState, check_parent_exists_with_state}
use eryx.Vfs.Storage.Directories.{with_slash}
use eryx.Vfs.Storage.Rename.{
  replace_prefix, move_directories, rename_directory, rename_entry, rename,
}
use eryx.Vfs.Storage.Tree.{HasParent}

module _ (q : Text → Bool) (d : Text) where
  contains-filter_kept :
      (ds : HashSet Text)
      → q d ≡ true
      → HashSet.contains ds d ≡ true
      → HashSet.contains (filter q ds) d ≡ true
  unfolding HashSet.contains
  contains-filter_kept [] k h = ground arith
  contains-filter_kept (e ∷ ds) k h = ground (arith, eq_iff e d, contains-filter_kept ds k)

  contains-filter_lacking :
      (ds : HashSet Text) → HashSet.contains ds d ≡ false → HashSet.contains (filter q ds) d ≡ false
  unfolding HashSet.contains
  contains-filter_lacking [] h = ground arith
  contains-filter_lacking (e ∷ ds) h = ground (arith, eq_iff e d, contains-filter_lacking ds)

-- The path that a directory moves to.
target : Text → Text → Text → Text
target from to old =
    if old == from then to else replace_prefix (with_slash from) (with_slash to) old

eq-longer : (a b : Text) → length b < length a → (a == b) ≡ false
eq-longer a b h = elim (Bool-cases (a == b)) [
  | inl e ↦ let same = ap length ((eq_iff a b).0 e) in absurd (omega arith)
  | inr e ↦ e
]

eq-shorter : (a b : Text) → length a < length b → (a == b) ≡ false
eq-shorter a b h = elim (Bool-cases (a == b)) [
  | inl e ↦ let same = ap length ((eq_iff a b).0 e) in absurd (omega arith)
  | inr e ↦ e
]

length-target : (from to old : Text) → length to ≤ length (target from to old)
unfolding target
length-target from to old = ground (
  arith,
  length-append to root,
  length-append (with_slash to) (drop (length (with_slash from)) old),
)

target_self : (from to old : Text) → (old == from) ≡ true → target from to old ≡ to
unfolding target
target_self from to old h = rw h

module _ (from to : Text) (longer : length from < length to) where
  target-ne : (old : Text) → (target from to old == from) ≡ false
  target-ne old = eq-longer (target from to old) from (omega (arith, length-target from to old))

  from_step :
      (old : Text) (olds : List Text) (ds : HashSet Text)
      → (HashSet.contains ds from ≡ false) ⊎ (HashSet.contains (old ∷ olds) from ≡ true)
      → (HashSet.contains (HashSet.insert (HashSet.remove ds old) (target from to old)) from
          ≡ false)
        ⊎ (HashSet.contains olds from ≡ true)
  unfolding HashSet.contains
  from_step old olds ds h =
      let next = target from to old in
      elim (Bool-cases (old == from)) [
        | inl e ↦ inl (
            ground (
              arith,
              contains-insert (HashSet.remove ds old) next from,
              contains-remove ds old from,
              target-ne old,
            ))
        | inr e ↦ elim h [
          | inl lacks ↦ inl (
              ground (
                arith,
                contains-insert (HashSet.remove ds old) next from,
                contains-remove ds old from,
                target-ne old,
              ))
          | inr listed ↦ inr (ground arith)
        ]
      ]

  -- The directory itself is gone when all are moved,
  move_directories-from :
      (olds : List Text) (ds : HashSet Text)
      → (HashSet.contains ds from ≡ false) ⊎ (HashSet.contains olds from ≡ true)
      → HashSet.contains (move_directories from to olds ds) from ≡ false
  unfolding move_directories HashSet.contains target
  move_directories-from [] ds h = ground arith
  move_directories-from (old ∷ olds) ds h =
      let next = HashSet.insert (HashSet.remove ds old) (target from to old) in
      move_directories-from olds next (from_step old olds ds h)

  -- and the new path is there, unless it was a directory before.
  to_step :
      (old : Text) (olds : List Text) (ds : HashSet Text)
      → (HashSet.contains ds to ≡ true) ⊎ (HashSet.contains (old ∷ olds) from ≡ true)
      → HashSet.contains (old ∷ olds) to ≡ false
      → (HashSet.contains (HashSet.insert (HashSet.remove ds old) (target from to old)) to ≡ true)
        ⊎ (HashSet.contains olds from ≡ true)
  unfolding HashSet.contains
  to_step old olds ds h free =
      let next = target from to old in
      elim (Bool-cases (old == from)) [
        | inl e ↦ inl (
            ground (
              arith,
              contains-insert (HashSet.remove ds old) next to,
              target_self from to old e,
              eq_self to,
            ))
        | inr e ↦ elim h [
          | inl has ↦ inl (
              ground
                (arith, contains-insert (HashSet.remove ds old) next to, contains-remove ds old to))
          | inr listed ↦ inr (ground arith)
        ]
      ]

  move_directories-to :
      (olds : List Text) (ds : HashSet Text)
      → (HashSet.contains ds to ≡ true) ⊎ (HashSet.contains olds from ≡ true)
      → HashSet.contains olds to ≡ false
      → HashSet.contains (move_directories from to olds ds) to ≡ true
  unfolding move_directories HashSet.contains target
  move_directories-to [] ds h free = ground arith
  move_directories-to (old ∷ olds) ds h free =
      let next = HashSet.insert (HashSet.remove ds old) (target from to old) in
      move_directories-to olds next (to_step old olds ds h free) (ground arith)

-- What the rename leaves: the new path is a directory, and the one it lies in is none.
pub record Detached (after : StorageState) (from to : Text) : Type 0 where
  pub there : HashSet.contains after.directories to ≡ true
  pub gone : HashSet.contains after.directories from ≡ false
  pub orphan : ¬ HasParent after to

orphan_lem :
    (after : StorageState) (from to : Text)
    → parent_path to ≡ some from
    → HashSet.contains after.directories from ≡ false
    → ¬ HasParent after to
unfolding check_parent_exists_with_state
orphan_lem after from to e gone h = ground arith

rename_directory-Detached :
    (s : StorageState) (from to : Text)
    → length from < length to
    → parent_path to ≡ some from
    → HashSet.contains s.directories from ≡ true
    → HashSet.contains s.directories to ≡ false
    → Detached (rename_directory s from to) from to
unfolding rename_directory
rename_directory-Detached s from to longer e here free =
    let moves = λ (p : Text). p == from || starts_with p (with_slash from) in
    let listed =
      contains-filter_kept moves from s.directories (ground (arith, eq_self from)) here in
    let gone =
      move_directories-from from to longer (filter moves s.directories) s.directories
        (inr listed) in
    record {
      there =
          move_directories-to from to longer (filter moves s.directories) s.directories (inr listed)
            (contains-filter_lacking moves to s.directories free);
      gone = gone;
      orphan = orphan_lem (rename_directory s from to) from to e gone;
    }

rename_below :
    (s : StorageState) (from_path to_path from to : Text)
    → normalize_path from_path ≡ ok from
    → normalize_path to_path ≡ ok to
    → (from == to) ≡ false
    → parent_path to ≡ some from
    → contains_key s.files from ≡ false
    → HashSet.contains s.directories from ≡ true
    → contains_key s.files to ≡ false
    → rename s from_path to_path ≡ (rename_directory s from to, ok tt)
unfolding rename rename_entry check_parent_exists_with_state
rename_below s from_path to_path from to a b ne e no_file here free = ground arith

-- A rename of a directory to a name in itself that is not taken succeeds, and leaves the new path
-- without the directory that it lies in. For "/" it removes the root directory.
pub rename_into_itself :
    (s : StorageState) (from_path to_path from to : Text)
    → normalize_path from_path ≡ ok from
    → normalize_path to_path ≡ ok to
    → parent_path to ≡ some from
    → length from < length to
    → contains_key s.files from ≡ false
    → HashSet.contains s.directories from ≡ true
    → contains_key s.files to ≡ false
    → HashSet.contains s.directories to ≡ false
    → ((rename s from_path to_path).1 ≡ ok tt) × Detached (rename s from_path to_path).0 from to
rename_into_itself s from_path to_path from to a b e longer no_file here free_file free =
    rw
      (rename_below s from_path to_path from to a b (eq-shorter from to longer) e no_file here
        free_file)
      (refl, rename_directory-Detached s from to longer e here free)
