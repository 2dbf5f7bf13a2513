-- ===== src/Vfs/Streams/Examples.antt =====
-- The streams of crates/eryx-vfs/src/streams.rs at concrete inputs.
use eryx.Prelude.{◌≡◌, ◌≢◌, refl, some, List, [], ◌∷◌, ok, arith, text_keys}
use eryx.Prelude.HashMap
use eryx.Prelude.HashSet
use eryx.Prelude.Text.{Text, codes, starts_with}
use eryx.Vfs.Path.{
  normalize_path, collect, split, render, absolute_path, pop, parent_path, before_slash,
  rfind_slash,
}
use eryx.Vfs.Storage.{StorageState, check_writable, check_parent_exists_with_state}
use eryx.Vfs.Storage as Storage
use eryx.Vfs.Streams.{flush_sync, output_write_at, input_new}
use eryx.Vfs.Streams.Composition.{IsWritable, Filled}
use eryx.Vfs.Streams.Chunks.{write_chunks, concat}
use eryx.Vfs.Streams.Drain.{read_all}
use eryx.Vfs.Streams.Refinement.{write_chunks-Filled, write_chunks-read_all}

abbrev one_file : StorageState
one_file = record {
  files =
      (codes "/f", record { content = codes "abc"; created = 1; modified = 2; accessed = 1 }) ∷ [];
  directories = codes "/" ∷ [];
}

abbrev chunks : List Text
chunks = codes "xy" ∷ [] ∷ codes "z" ∷ []

writable : IsWritable one_file (codes "/f") (codes "/f")
unfolding check_writable normalize_path collect split starts_with render absolute_path pop
    parent_path before_slash rfind_slash HashSet.contains flush_sync
writable = (refl, refl)

some_bytes : concat chunks ≢ []
some_bytes h = ground arith

old_size : Storage.read one_file (codes "/f") ≡ ok (codes "abc")
unfolding Storage.read normalize_path collect split starts_with render absolute_path pop HashMap.get
old_size = refl

write_chunks-Filled_example :
    ((write_chunks 7 one_file (output_write_at (codes "/f") 1) chunks).2 ≡ ok tt)
    × Filled one_file
        (write_chunks 7 one_file (output_write_at (codes "/f") 1) chunks).1
        (codes "/f")
        1
        (codes "xyz")
write_chunks-Filled_example =
    write_chunks-Filled 7 one_file (codes "/f") (codes "/f") 1 chunks writable some_bytes
      (omega arith)

write_chunks-read_all_example :
    read_all 5
      (write_chunks 7 one_file (output_write_at (codes "/f") 1) chunks).1
      (input_new (codes "/f") 1)
      2
    ≡ some (codes "xyz")
write_chunks-read_all_example =
    write_chunks-read_all 7 one_file (codes "/f") (codes "/f") 1 1 chunks writable some_bytes
      (rw old_size (omega arith)) (omega arith)

-- A stream to a path whose parent is missing.
