-- ===== src/Scrubbing/Examples.antt =====
-- Scrubbed writes of crates/eryx-vfs/src/scrubbing.rs at concrete inputs.
use eryx.Prelude.{◌≡◌, refl, true, false, none, some, [], ◌∷◌, ◌++◌, ok, arith}
use eryx.Prelude.HashSet
use eryx.Prelude.Text.{Text, codes, find, starts_with}
use eryx.Vfs.Path.{
  normalize_path, collect, split, render, absolute_path, pop, parent_path, before_slash,
  rfind_slash,
}
use eryx.Vfs.Storage.{Outcome, StorageState, file_metadata, directory_metadata, read}
use eryx.Vfs.Storage as Storage
use eryx.Scrubbing.{
  FileScrubPolicy, ScrubbingStorage, replace_loop, replace_bytes, write, write_at, scrub_text,
  scrub_binary, should_scrub,
}
use eryx.Scrubbing.Split.{split_write}
use eryx.Scrubbing.Clean.{scrub_binary-scrub_text, write-NoneFound, after, NoneFound}
use eryx.Secrets.{generate_placeholder}
use eryx.Secrets.Redaction.{generate_placeholder-IsPlain}

abbrev empty_storage : StorageState
empty_storage = Storage.new

abbrev one_secret : ScrubbingStorage
one_secret = record {
  inner = empty_storage;
  secrets = (codes "name", record { placeholder = codes "KEY" }) ∷ [];
  policy = FileScrubPolicy.all;
}

replaced : replace_bytes (codes "aKEYKEYb") (codes "KEY") (codes "-") ≡ some (codes "a--b")
unfolding replace_bytes replace_loop starts_with
replaced = refl

never_ends : replace_bytes (codes "a") [] (codes "-") ≡ none
unfolding replace_bytes replace_loop starts_with
never_ends = refl

abbrev halfway : StorageState
halfway = (Storage.write 7 empty_storage (codes "/f") (codes "KE")).0

abbrev joined : StorageState
joined = (Storage.write_at 7 halfway (codes "/f") 2 (codes "Y")).0

first_absent : find (codes "KE") (codes "KEY") ≡ none
unfolding find starts_with
first_absent = refl

second_absent : find (codes "Y") (codes "KEY") ≡ none
unfolding find starts_with
second_absent = refl

first_write : (Storage.write 7 empty_storage (codes "/f") (codes "KE")).1 ≡ ok tt
unfolding Storage.write normalize_path collect split starts_with render absolute_path pop
    parent_path before_slash rfind_slash HashSet.contains Storage.new HashSet.insert
first_write = refl

second_write : (Storage.write_at 7 halfway (codes "/f") 2 (codes "Y")).1 ≡ Outcome.returns (ok tt)
unfolding Storage.write Storage.write_at normalize_path collect split starts_with render
    absolute_path pop parent_path before_slash rfind_slash HashSet.contains Storage.new
    HashSet.insert
second_write = refl

split_write_example :
    (write (λ bytes. true) 7 one_secret (codes "/f") (codes "KE")
      ≡ some (record one_secret { inner = halfway }, ok tt))
    × (write_at (λ bytes. true) 7 (record one_secret { inner = halfway }) (codes "/f") 2 (codes "Y")
        ≡ some (record one_secret { inner = joined }, Outcome.returns (ok tt)))
    × (read joined (codes "/f") ≡ ok (codes "KEY"))
split_write_example =
    split_write 7 (λ bytes. true) one_secret (codes "/f") (codes "KE") (codes "Y") (omega arith)
      (first_absent, tt) (second_absent, tt) first_write second_write

scrub_binary-scrub_text_example :
    scrub_binary one_secret.secrets (codes "aKEYb")
    ≡ some (scrub_text one_secret.secrets (codes "aKEYb"))
scrub_binary-scrub_text_example =
    scrub_binary-scrub_text one_secret.secrets (codes "aKEYb") (omega arith, tt)

abbrev generated : ScrubbingStorage
generated = record {
  inner = empty_storage;
  secrets = (codes "name", record { placeholder = generate_placeholder (codes "0af3") }) ∷ [];
  policy = FileScrubPolicy.only (codes "/g" ∷ []);
}

abbrev shown : Text
shown = codes "a" ++ generate_placeholder (codes "0af3")

path_is_scrubbed : should_scrub generated.policy (codes "/f") ≡ true
unfolding should_scrub
path_is_scrubbed = refl

inner_write :
    (Storage.write 7 empty_storage (codes "/f") (scrub_text generated.secrets shown)).1 ≡ ok tt
unfolding Storage.write normalize_path collect split starts_with render absolute_path pop
    parent_path before_slash rfind_slash HashSet.contains Storage.new HashSet.insert
inner_write = refl

write-NoneFound_example :
    (write (λ bytes. false) 7 generated (codes "/f") shown
      ≡ some (
        record generated { inner = after 7 (λ bytes. false) generated (codes "/f") shown },
        ok tt,
      ))
    × (content : Text) × (read (after 7 (λ bytes. false) generated (codes "/f") shown) (codes "/f")
        ≡ ok content)
    × NoneFound generated.secrets content
write-NoneFound_example =
    write-NoneFound 7 (λ bytes. false) generated (codes "/f") shown path_is_scrubbed
      (generate_placeholder-IsPlain (codes "0af3") (refl, (refl, (refl, (refl, tt)))), tt)
      inner_write
