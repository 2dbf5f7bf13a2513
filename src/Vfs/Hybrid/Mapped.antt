-- ===== src/Vfs/Hybrid/Mapped.antt =====
-- Two hosts under a `RestrictedDir` of crates/eryx-vfs/src/hybrid.rs that do the same for its mapped files.
use eryx.Prelude.{
  ◌≡◌, ◌≢◌, refl, sym, ◌∙◌, ap, false, eq_iff, List, [], ◌∷◌, inl, inr, some, ok, err, ◌>>=◌,
  text_keys, Result-cases, arith,
}
use eryx.Prelude.HashMap
use eryx.Prelude.HashMap.{HashMap}
use eryx.Prelude.Text.{Text}
use eryx.Vfs.Hybrid.{IoResult, OpenOptions, CapEntry, CapStd}
use eryx.Vfs.Hybrid.Restricted.{is_host_name, mapped_entries}

-- A name of the host that the map leads to.
abbrev pub Hosts : HashMap Text Text → Text → Type 0
Hosts map path = (guest : Text) × (HashMap.get map guest ≡ some path)

-- No file of the map has the host name.
abbrev pub Unmapped : HashMap Text Text → Text → Type 0
Unmapped [] name = Unit {0}
Unmapped ((guest, host) ∷ map) name = (host ≢ name) × Unmapped map name

-- Two listings that differ in files that are not mapped.
pub data SameMapped (map : HashMap Text Text)
    : List (IoResult CapEntry) → List (IoResult CapEntry) → Type 0 where
  none_listed : SameMapped map [] []
  both_list :
      (r : IoResult CapEntry) (es fs : List (IoResult CapEntry))
      → SameMapped map es fs
      → SameMapped map (r ∷ es) (r ∷ fs)
  first_lists :
      (e : CapEntry) (es fs : List (IoResult CapEntry))
      → Unmapped map e.file_name
      → SameMapped map es fs
      → SameMapped map (ok e ∷ es) fs
  second_lists :
      (e : CapEntry) (es fs : List (IoResult CapEntry))
      → Unmapped map e.file_name
      → SameMapped map es fs
      → SameMapped map es (ok e ∷ fs)

abbrev pub SameListing :
    HashMap Text Text
    → IoResult (List (IoResult CapEntry))
    → IoResult (List (IoResult CapEntry))
    → Type 0
SameListing map (ok es) (ok fs) = SameMapped map es fs
SameListing map (ok es) (err f) = ⊥
SameListing map (err e) (ok fs) = ⊥
SameListing map (err e) (err f) = e ≡ f

-- Two hosts that answer alike about the mapped files of a directory.
pub record AgreeOn {W D F : Type 0} (a b : CapStd W D F) (d : D) (map : HashMap Text Text)
    : Type 0 where
  pub open_with :
      (w : W) (p : Text) (opts : OpenOptions)
      → Hosts map p
      → a.open_with w d p opts ≡ b.open_with w d p opts
  pub open_dir : (w : W) (p : Text) → Hosts map p → a.open_dir w d p ≡ b.open_dir w d p
  pub create_dir : (w : W) (p : Text) → Hosts map p → a.create_dir w d p ≡ b.create_dir w d p
  pub metadata : (w : W) (p : Text) → Hosts map p → a.metadata w d p ≡ b.metadata w d p
  pub read_link : (w : W) (p : Text) → Hosts map p → a.read_link w d p ≡ b.read_link w d p
  pub remove_dir : (w : W) (p : Text) → Hosts map p → a.remove_dir w d p ≡ b.remove_dir w d p
  pub remove_file : (w : W) (p : Text) → Hosts map p → a.remove_file w d p ≡ b.remove_file w d p
  pub symlink : (w : W) (src p : Text) → Hosts map p → a.symlink w d src p ≡ b.symlink w d src p
  pub rename :
      (w : W) (p q : Text) → Hosts map p → Hosts map q → a.rename w d p d q ≡ b.rename w d p d q
  pub entries : (w : W) → SameListing map (a.entries w d) (b.entries w d)

is_host_name-Unmapped :
    (map : HashMap Text Text) (name : Text) → Unmapped map name → is_host_name map name ≡ false
unfolding is_host_name
is_host_name-Unmapped [] name h = refl
is_host_name-Unmapped ((guest, host) ∷ map) name h =
    ground (arith, is_host_name-Unmapped map name h.1, eq_iff host name, h.0)

mapped_entries_skip :
    (map : HashMap Text Text) (e : CapEntry) (es : List (IoResult CapEntry))
    → Unmapped map e.file_name
    → mapped_entries map (ok e ∷ es) ≡ mapped_entries map es
unfolding mapped_entries
mapped_entries_skip map e es h = elim (Result-cases (mapped_entries map es)) [
  | inl (rest, r) ↦ ground (arith, is_host_name-Unmapped map e.file_name h)
  | inr (x, r) ↦ ground arith
]

mapped_entries_same :
    (map : HashMap Text Text) (es fs : List (IoResult CapEntry))
    → SameMapped map es fs
    → mapped_entries map es ≡ mapped_entries map fs
unfolding mapped_entries
mapped_entries_same map es fs none_listed = refl
mapped_entries_same map es fs (both_list r es0 fs0 same) =
    ground (arith, mapped_entries_same map es0 fs0 same)
mapped_entries_same map es fs (first_lists e es0 fs0 h same) =
    mapped_entries_skip map e es0 h ∙ mapped_entries_same map es0 fs0 same
mapped_entries_same map es fs (second_lists e es0 fs0 h same) =
    mapped_entries_same map es0 fs0 same ∙ sym (mapped_entries_skip map e fs0 h)

pub listing_same :
    (map : HashMap Text Text) (r q : IoResult (List (IoResult CapEntry)))
    → SameListing map r q
    → (r >>= mapped_entries map) ≡ (q >>= mapped_entries map)
listing_same map (ok es) (ok fs) same = mapped_entries_same map es fs same
listing_same map (ok es) (err f) same = absurd same
listing_same map (err e) (ok fs) same = absurd same
listing_same map (err e) (err f) same = ap err same
