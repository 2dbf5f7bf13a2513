-- ===== src/Vfs/Hybrid/Examples.antt =====
-- The calls of crates/eryx-vfs/src/hybrid_host.rs on a small host, whose files are a map from paths to
-- contents, and on a table that is a list.
use eryx.Prelude.{
  ℕ, zero, suc, ◌≡◌, ◌⊎◌, refl, subst, inl, inr, Bool-cases, Option-cases, eq_self, ◌==◌, true,
  false, Option, none, some, List, [], ◌∷◌, ◌++◌, Result, ok, err, text_keys, length, get_elem?,
  set, if◌then◌else◌, arith,
}
use eryx.Prelude.HashMap
use eryx.Prelude.HashMap.{HashMap, get-insert}
use eryx.Prelude.HashSet
use eryx.Prelude.Text.{Text, codes, starts_with}
use eryx.Vfs.Path.{normalize_path, collect, split, render, absolute_path, pop}
use eryx.Vfs.Storage.{Outcome, StorageState, Metadata, file_metadata}
use eryx.Vfs.Storage as Storage
use eryx.Vfs.Descriptor.{
  no_dir_perms, all_file_perms, OpenFlags, DescriptorFlags, VfsDescriptor, resolve_path,
}
use eryx.Vfs.Hybrid.{
  IoResult, OpenOptions, CapMetadata, CapEntry, CapStd, RealDir, vfs, real_preopen,
}
use eryx.Vfs.Hybrid.SmallHost.{Files, missing, metadata_of, host}
use eryx.Vfs.Hybrid.Reply.{give}
use eryx.Vfs.Hybrid.Opening.{open_at}
use eryx.Vfs.Hybrid.Calls.{Entry, ResourceTable, HostState, Call}
use eryx.Vfs.Hybrid.System.{performs, get_directories}
use eryx.Vfs.Hybrid.ReadOnly.{OpensReadOnly, IsTable}
use eryx.Vfs.Hybrid.Mounts.{performs-world}
use eryx.Vfs.Hybrid.Escalation.{
  plain, for_writing, WritesThrough, open_at-WritesThrough, MakesNew, exclusive_creates,
}

host-OpensReadOnly : OpensReadOnly host
host-OpensReadOnly = record {
  open_with = λ w d path opts h. ground arith;
  sync_data = λ w f. refl;
  sync_all = λ w f. refl;
}

-- The entries by their handles; a dropped one is none.
abbrev Slots : Type 0
Slots = List (Option (Entry Text Text))

abbrev no_such : Text
no_such = codes "resource not present"

abbrev slot : Option (Option (Entry Text Text)) → Result (Entry Text Text) Text
slot none = err no_such
slot (some none) = err no_such
slot (some (some e)) = ok e

abbrev slots : ResourceTable Slots (Entry Text Text)
slots = record {
  get = λ t fd. slot (get_elem? t fd);
  push = λ t e. ok (length t, t ++ some e ∷ []);
  set = λ t fd e. set t fd (some e);
  delete = λ t fd. ok (set t fd none);
}

get-push :
    (t : Slots) (e x : Entry Text Text) (j : ℕ)
    → slot (get_elem? (t ++ some e ∷ []) j) ≡ ok x
    → (x ≡ e) ⊎ (slot (get_elem? t j) ≡ ok x)
get-push [] e x zero h = inl (ground arith)
get-push [] e x (suc j) h = absurd (ground arith)
get-push (s ∷ t) e x zero h = inr h
get-push (s ∷ t) e x (suc j) h = get-push t e x j h

get-set :
    (t : Slots) (e x : Entry Text Text) (fd j : ℕ)
    → slot (get_elem? (set t fd (some e)) j) ≡ ok x
    → (x ≡ e) ⊎ (slot (get_elem? t j) ≡ ok x)
get-set [] e x fd j h = inr h
get-set (s ∷ t) e x zero zero h = inl (ground arith)
get-set (s ∷ t) e x zero (suc j) h = inr h
get-set (s ∷ t) e x (suc fd) zero h = inr h
get-set (s ∷ t) e x (suc fd) (suc j) h = get-set t e x fd j h

get-delete :
    (t : Slots) (x : Entry Text Text) (fd j : ℕ)
    → slot (get_elem? (set t fd none) j) ≡ ok x
    → slot (get_elem? t j) ≡ ok x
get-delete [] x fd j h = h
get-delete (s ∷ t) x zero zero h = absurd (ground arith)
get-delete (s ∷ t) x zero (suc j) h = h
get-delete (s ∷ t) x (suc fd) zero h = h
get-delete (s ∷ t) x (suc fd) (suc j) h = get-delete t x fd j h

slots-IsTable : IsTable slots
slots-IsTable = record {
  push = λ t after e x fd j done h.
      let same : after ≡ t ++ some e ∷ [] = ground arith in
      get-push t e x j (subst (λ u. slot (get_elem? u j) ≡ ok x) same h);
  set = λ t e x fd j h. get-set t e x fd j h;
  delete = λ t after x fd j done h.
      let same : after ≡ set t fd none = ground arith in
      get-delete t x fd j (subst (λ u. slot (get_elem? u j) ≡ ok x) same h);
}

abbrev files : Files
files = (codes "/home/fetch.py", codes "import") ∷ (codes "/home/key", codes "1234") ∷ []

abbrev storage : StorageState
storage = record {
  files =
      (codes "/f", record { content = codes "abc"; created = 1; modified = 2; accessed = 1 }) ∷ [];
  directories = codes "/data" ∷ codes "/" ∷ [];
}

abbrev start : HostState Files Slots
start = record { state = record { storage = storage; world = files }; table = [] }

-- "/home/", mounted for reading.
abbrev home : RealDir Text
home = record {
  dir = record { inner = codes "/home/"; file_map = none };
  dir_perms = record { read = true; mutate = false };
  file_perms = record { read = true; write = false };
  allow_blocking = false;
}

abbrev creating : OpenFlags
creating = record { create = true; directory = false; exclusive = false; truncate = true }

abbrev for_both : DescriptorFlags
for_both = record { read = true; write = true }

abbrev guest_calls : List Call
guest_calls =
    Call.open_at_call 0 (codes "key") creating for_both
    ∷ Call.open_at_call 0 (codes "key") plain (record { read = true; write = false })
    ∷ Call.write 1 (codes "x") 0
    ∷ Call.unlink_file_at 0 (codes "key")
    ∷ []

performs-world_example :
    (performs host slots no_such 7 guest_calls (
      get_directories host slots no_such 7
        (real_preopen (codes "/mnt") home ∷ [])
        start)).state.world
    ≡ files
performs-world_example =
    performs-world host host-OpensReadOnly slots slots-IsTable no_such 7
      (real_preopen (codes "/mnt") home ∷ []) guest_calls start (refl, refl, tt)
      (λ j x h. ground arith)

-- A host that has another key.
abbrev mapped_file : HashMap Text Text
mapped_file = (codes "fetch.py", codes "fetch.py") ∷ []

abbrev listed : Text → IoResult CapEntry
listed name = ok (record {
  file_name = name;
  file_type = ok (record { is_dir = false; is_symlink = false; is_file = true });
})

-- It lists another file too, and has the metadata of no other.
abbrev other_host : CapStd Files Text Text
other_host = record host {
  metadata = λ w d path. if path == codes "fetch.py" then host.metadata w d path else err missing;
  entries = λ w d. ok (listed (codes "key") ∷ []);
}

-- A directory of the storage without any permission.
abbrev barred : VfsDescriptor
barred = record {
  path = codes "/data";
  is_dir = true;
  dir_perms = no_dir_perms;
  file_perms = record { read = false; write = false };
}

abbrev old_file : Metadata
old_file = record { is_dir = false; size = 3; created = 1; modified = 2; accessed = 1 }

file_exists : Storage.exists storage (resolve_path barred (codes "/f")) ≡ ok true
unfolding Storage.exists resolve_path normalize_path collect split starts_with render absolute_path
    pop HashMap.get HashSet.contains
file_exists = refl

file_stat : Storage.stat 7 storage (resolve_path barred (codes "/f")) ≡ ok old_file
unfolding Storage.stat resolve_path normalize_path collect split starts_with render absolute_path
    pop HashMap.get HashSet.contains
file_stat = refl

open_at-WritesThrough_example :
    (opened : VfsDescriptor) × (open_at host 7 start.state
        (vfs barred)
        (codes "/f")
        plain
        for_writing
      ≡ give start.state (vfs opened))
    × WritesThrough host 7 start.state opened (resolve_path barred (codes "/f"))
open_at-WritesThrough_example =
    open_at-WritesThrough host 7 start.state barred (codes "/f") old_file refl file_exists file_stat
      refl

-- "/home/", in which files may be written and not made.
abbrev writable_home : RealDir Text
writable_home = record home { file_perms = all_file_perms }

host_made :
    (w : Files) (d path : Text) (opts : OpenOptions) (f : Text)
    → opts.create_new ≡ true
    → (host.open_with w d path opts).1 ≡ ok f
    → (m : CapMetadata) × (host.metadata (host.open_with w d path opts).0 d path ≡ ok m)
host_made w d path opts f new opened = elim (Bool-cases opts.write) [
  | inl writes ↦
      (metadata_of [], ground (arith, get-insert w (d ++ path) (d ++ path) [], eq_self (d ++ path)))
  | inr only_reads ↦ elim (Option-cases (HashMap.get w (d ++ path))) [
    | inl absent ↦ absurd (ground arith)
    | inr (content, there) ↦ (metadata_of content, ground arith)
  ]
]

exclusive_creates_example : MakesNew host 7 start.state writable_home (codes "/mnt") (codes "new")
unfolding HashMap.get
exclusive_creates_example =
    exclusive_creates host 7 start.state writable_home (codes "/mnt") (codes "new")
      (codes "/home/new") missing (record { made = host_made }) refl refl refl refl refl
