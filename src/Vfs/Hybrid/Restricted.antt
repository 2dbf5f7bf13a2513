-- ===== src/Vfs/Hybrid/Restricted.antt =====
-- `RestrictedDir` of crates/eryx-vfs/src/hybrid.rs: each call is checked against the map of file names
-- and translated by it.
use eryx.Prelude.{
  Bool, false, ◌||◌, Option, none, some, List, [], ◌∷◌, ◌++◌, ok, err, ◌>>=◌, ◌==◌, text_keys, drop,
  if◌then◌else◌,
}
use eryx.Prelude.HashMap
use eryx.Prelude.HashMap.{HashMap}
use eryx.Prelude.Text.{Text, codes}
use eryx.Vfs.Path.{starts_with}
use eryx.Vfs.Hybrid.{
  ErrorKind, IoError, IoResult, OpenOptions, CapMetadata, CapEntry, CapStd, RestrictedDir,
}

-- `strip_prefix("./").unwrap_or(path)`
unfoldable pub normalized : Text → Text
normalized path = if starts_with path (codes "./") then drop 2 path else path

abbrev pub io_error : ErrorKind → Text → IoError
io_error kind message = record { kind = kind; message = message }

unfoldable pub map_allows : Option (HashMap Text Text) → Text → IoResult (Unit {0})
unfolding normalized
map_allows none path = ok tt
map_allows (some map) path =
    if HashMap.contains_key map (normalized path)
    then ok tt
    else err (io_error ErrorKind.permission_denied (codes "access denied: " ++ path))

unfoldable pub map_translates : Option (HashMap Text Text) → Text → Text
unfolding normalized
map_translates none path = path
map_translates (some map) path = elim (HashMap.get map (normalized path)) [
  | none ↦ path
  | some host ↦ host
]

-- Whether a host name is one that the map leads to.
unfoldable pub is_host_name : HashMap Text Text → Text → Bool
is_host_name [] name = false
is_host_name ((guest, host) ∷ map) name = host == name || is_host_name map name

-- `collect::<Result<Vec<_>, _>>()`
unfoldable pub collect : List (IoResult CapEntry) → IoResult (List CapEntry)
collect [] = ok []
collect (entry ∷ rest) = entry >>= λ e. collect rest >>= λ es. ok (e ∷ es)

unfoldable pub mapped_entries :
    HashMap Text Text → List (IoResult CapEntry) → IoResult (List CapEntry)
unfolding is_host_name
mapped_entries map [] = ok []
mapped_entries map (entry ∷ rest) = entry >>= λ e.
    mapped_entries map rest >>= λ es. ok (if is_host_name map e.file_name then e ∷ es else es)

unfoldable pub entries_of :
    Option (HashMap Text Text) → List (IoResult CapEntry) → IoResult (List CapEntry)
unfolding collect mapped_entries
entries_of none raw = collect raw
entries_of (some map) raw = mapped_entries map raw

unfoldable pub reverse_lookup : HashMap Text Text → Text → Text
reverse_lookup [] name = name
reverse_lookup ((guest, host) ∷ map) name = if host == name then guest else reverse_lookup map name

unfoldable pub name_of : Option (HashMap Text Text) → Text → Text
unfolding reverse_lookup
name_of none name = name
name_of (some map) name = reverse_lookup map name

module _ {D : Type 0} where
  unfoldable pub check_allowed : RestrictedDir D → Text → IoResult (Unit {0})
  unfolding map_allows
  check_allowed r path = map_allows r.file_map path

  unfoldable pub translate : RestrictedDir D → Text → Text
  unfolding map_translates
  translate r path = map_translates r.file_map path

  unfoldable pub guest_name : RestrictedDir D → CapEntry → Text
  unfolding name_of
  guest_name r entry = name_of r.file_map entry.file_name

  -- A call that is made where the path is allowed; else the host is not touched.
  abbrev pub checked : {W A : Type 0} → RestrictedDir D → Text → W → W × IoResult A → W × IoResult A
  checked r path w call = elim (check_allowed r path) [ err e ↦ (w, err e) | ok _ ↦ call ]

module _ {W D F : Type 0} (cap : CapStd W D F) where
  unfoldable pub open_with : W → RestrictedDir D → Text → OpenOptions → W × IoResult F
  unfolding check_allowed translate
  open_with w r path opts = checked r path w (cap.open_with w r.inner (translate r path) opts)

  unfoldable pub open_dir : W → RestrictedDir D → Text → IoResult (RestrictedDir D)
  unfolding check_allowed translate
  open_dir w r path = check_allowed r path >>= λ _.
      cap.open_dir w r.inner (translate r path) >>= λ sub.
      ok (record { inner = sub; file_map = none })

  unfoldable pub create_dir : W → RestrictedDir D → Text → W × IoResult (Unit {0})
  unfolding check_allowed translate
  create_dir w r path = checked r path w (cap.create_dir w r.inner (translate r path))

  unfoldable pub metadata : W → RestrictedDir D → Text → IoResult CapMetadata
  unfolding check_allowed translate
  metadata w r path = check_allowed r path >>= λ _. cap.metadata w r.inner (translate r path)

  unfoldable pub dir_metadata : W → RestrictedDir D → IoResult CapMetadata
  dir_metadata w r = cap.dir_metadata w r.inner

  unfoldable pub read_link : W → RestrictedDir D → Text → IoResult Text
  unfolding check_allowed translate
  read_link w r path = check_allowed r path >>= λ _. cap.read_link w r.inner (translate r path)

  unfoldable pub remove_dir : W → RestrictedDir D → Text → W × IoResult (Unit {0})
  unfolding check_allowed translate
  remove_dir w r path = checked r path w (cap.remove_dir w r.inner (translate r path))

  unfoldable pub remove_file : W → RestrictedDir D → Text → W × IoResult (Unit {0})
  unfolding check_allowed translate
  remove_file w r path = checked r path w (cap.remove_file w r.inner (translate r path))

  unfoldable pub rename :
      W → RestrictedDir D → Text → RestrictedDir D → Text → W × IoResult (Unit {0})
  unfolding check_allowed translate
  rename w r old_path dest new_path = checked r old_path w (
      checked dest new_path w
        (cap.rename w r.inner (translate r old_path) dest.inner (translate dest new_path)))

  unfoldable pub symlink : W → RestrictedDir D → Text → Text → W × IoResult (Unit {0})
  unfolding check_allowed translate
  symlink w r src dest = checked r dest w (cap.symlink w r.inner src (translate r dest))

  unfoldable pub entries : W → RestrictedDir D → IoResult (List CapEntry)
  unfolding entries_of
  entries w r = cap.entries w r.inner >>= entries_of r.file_map
