-- ===== src/Vfs/Path.antt =====
-- `normalize_path` and `parent_path` of crates/eryx-vfs/src/storage.rs, and the errors of
-- crates/eryx-vfs/src/error.rs. Paths are lists of bytes.
pub mod Canonical
use eryx.Prelude.{
  ℕ, zero, suc, Bool, true, false, ◌||◌, ◌≡◌, Option, none, some, List, [], ◌∷◌, ◌++◌, Result, ok,
  err, ◌==◌, ◌>>=◌, PartialEq, nat_eq, nat_keys, text_keys, take, if◌then◌else◌,
}
use eryx.Prelude.Text.{Text, codes}
unfoldable pub use eryx.Prelude.Text.{starts_with}

pub data VfsError : Type 0 where
  not_found : Text → VfsError
  permission_denied : Text → VfsError
  already_exists : Text → VfsError
  not_directory : Text → VfsError
  not_file : Text → VfsError
  directory_not_empty : Text → VfsError
  invalid_path : Text → VfsError
  io : Text → VfsError
  storage : Text → VfsError
  invalid_seek : Text → VfsError
  busy : Text → VfsError

abbrev pub VfsResult : Type 0 → Type 0
VfsResult A = Result A VfsError

abbrev pub slash : ℕ
slash = b'/'

-- "/"
abbrev pub root : Text
root = slash ∷ []

-- `str::split('/')`
abbrev pub cons_head : ℕ → List Text → List Text
cons_head c [] = (c ∷ []) ∷ []
cons_head c (p ∷ ps) = (c ∷ p) ∷ ps

unfoldable pub split : Text → List Text
split [] = [] ∷ []
split (c ∷ cs) = let rest = split cs in if nat_eq c slash then [] ∷ rest else cons_head c rest

-- `components.join("/")` behind a leading slash; "/" if there are none.
unfoldable pub absolute_path : List Text → Text
absolute_path [] = []
absolute_path (c ∷ cs) = slash ∷ (c ++ absolute_path cs)

unfoldable pub render : List Text → Text
render [] = root
render (c ∷ cs) = absolute_path (c ∷ cs)

-- `Vec::pop`, without its result
unfoldable pub pop : List Text → List Text
pop [] = []
pop (c ∷ []) = []
pop (c ∷ d ∷ cs) = c ∷ pop (d ∷ cs)

abbrev pub is_empty : List Text → Bool
is_empty [] = true
is_empty (c ∷ cs) = false

abbrev pub is_skipped : Text → Bool
is_skipped c = c == [] || c == codes "."

-- The loop over the pieces of the path.
unfoldable pub collect : List Text → List Text → VfsResult (List Text)
collect components [] = ok components
collect components (c ∷ cs) =
    let skip = collect components cs in
    let up = collect (pop components) cs in
    let down = collect (components ++ c ∷ []) cs in
    if is_skipped c
    then skip
    else if c == codes ".."
    then if is_empty components then err (invalid_path (codes "path escapes root")) else up
    else down

unfoldable pub normalize_path : Text → VfsResult Text
normalize_path path =
    if starts_with path root
    then (collect [] (split path) >>= λ components. ok (render components))
    else err (invalid_path (codes "path must be absolute: " ++ path))

-- `str::rfind('/')`
unfoldable pub rfind_slash : Text → Option ℕ
rfind_slash [] = none
rfind_slash (c ∷ cs) = elim (rfind_slash cs) [
  | some i ↦ some (suc i)
  | none ↦ if nat_eq c slash then some zero else none
]

-- Up to the last slash.
unfoldable pub before_slash : Text → Option Text
before_slash normalized = elim (rfind_slash normalized) [
  | none ↦ none
  | some zero ↦ some root
  | some (suc i) ↦ some (take (suc i) normalized)
]

unfoldable pub parent_path : Text → Option Text
parent_path path = if path == root then none else elim (normalize_path path) [
  | err e ↦ none
  | ok normalized ↦ if normalized == root then none else before_slash normalized
]
