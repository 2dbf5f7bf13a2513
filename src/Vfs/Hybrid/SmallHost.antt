-- ===== src/Vfs/Hybrid/SmallHost.antt =====
-- A small host for the directories of crates/eryx-vfs/src/hybrid.rs, whose files are a map from paths to
-- contents.
use eryx.Prelude.{
  true, false, ◌&&◌, ◌||◌, none, some, [], ◌++◌, ok, err, text_keys, length, take, drop,
  if◌then◌else◌,
}
use eryx.Prelude.HashMap
use eryx.Prelude.HashMap.{HashMap}
use eryx.Prelude.Text.{Text, codes}
use eryx.Vfs.Path.{root}
use eryx.Vfs.Hybrid.{ErrorKind, IoError, IoResult, OpenOptions, CapMetadata, CapStd}

abbrev pub Files : Type 0
Files = HashMap Text Text

abbrev pub missing : IoError
missing = record { kind = ErrorKind.not_found; message = codes "no such file" }

abbrev pub metadata_of : Text → CapMetadata
metadata_of content = record {
  file_type = record { is_dir = false; is_symlink = false; is_file = true };
  nlink = 1;
  len = length content;
  accessed = none;
  modified = none;
  created = none;
}

abbrev pub found : {A : Type 0} → Files → Text → (Text → A) → IoResult A
found w path f = elim (HashMap.get w path) [ none ↦ err missing | some c ↦ ok (f c) ]

-- A file is made where it is opened for writing with `create` or `create_new`.
abbrev pub opens : Files → Text → OpenOptions → Files × IoResult Text
opens w path opts =
    if opts.write && (opts.create || opts.create_new)
    then (HashMap.insert w path [], ok path)
    else (w, found w path (λ c. path))

-- Directories are names that stand before the paths.
abbrev pub host : CapStd Files Text Text
host = record {
  open_with = λ w d path opts. opens w (d ++ path) opts;
  open_dir = λ w d path. ok (d ++ (path ++ root));
  create_dir = λ w d path. (w, ok tt);
  metadata = λ w d path. found w (d ++ path) metadata_of;
  dir_metadata = λ w d. err missing;
  read_link = λ w d path. err missing;
  remove_dir = λ w d path. (w, ok tt);
  remove_file = λ w d path. (HashMap.remove w (d ++ path), ok tt);
  rename = λ w d old e new. (w, err missing);
  symlink = λ w d src dest. (w, err missing);
  entries = λ w d. ok [];
  read_at = λ w f len offset. found w f (λ c. take len (drop offset c));
  write_at = λ w f bytes offset. (HashMap.insert w f bytes, ok (length bytes));
  set_len = λ w f size. (HashMap.insert w f [], ok tt);
  file_metadata = λ w f. found w f metadata_of;
  sync_data = λ w f. (w, ok tt);
  sync_all = λ w f. (w, ok tt);
}
