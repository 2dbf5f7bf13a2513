-- ===== src/Vfs/Hybrid/Calls.antt =====
-- The calls of crates/eryx-vfs/src/hybrid_host.rs that change a state, on handles of the table. The table of
-- wasmtime is an interface.
use eryx.Prelude.{ℕ, Option, none, some, List, [], ◌∷◌, Result, ok, err, not, if◌then◌else◌}
use eryx.Prelude.Text.{Text, codes}
use eryx.Vfs.Path.{VfsError}
use eryx.Vfs.Descriptor.{OpenFlags, DescriptorFlags, DirectoryEntry, dir}
use eryx.Vfs.Streams.{VfsInputStream, VfsOutputStream, input_new, output_write_at, output_append}
use eryx.Vfs.Hybrid.{
  HybridDescriptor, vfs, real_dir, real_file, HybridPreopen, vfs_preopen, real_preopen,
}
use eryx.Vfs.Hybrid.Reply.{HybridState}
use eryx.Vfs.Hybrid.RealStreams.{
  RealFileInputStream, RealFileOutputStream, real_input_new, real_write_at, real_append,
}

-- `HybridReaddirIterator::next`
unfoldable pub iterator_next : List DirectoryEntry → List DirectoryEntry × Option DirectoryEntry
iterator_next [] = ([], none)
iterator_next (entry ∷ entries) = (entries, some entry)

-- What the table holds.
pub data Entry (D F : Type 0) : Type 0 where
  descriptor : HybridDescriptor D F → Entry D F
  iterator : List DirectoryEntry → Entry D F
  vfs_input : VfsInputStream → Entry D F
  vfs_output : VfsOutputStream → Entry D F
  real_input : RealFileInputStream F → Entry D F
  real_output : RealFileOutputStream F → Entry D F

-- `ResourceTable` with the calls that the code makes, its errors as texts; `set` is a change through `get_mut`.
pub record ResourceTable (T E : Type 0) : Type 0 where
  pub get : T → ℕ → Result E Text
  pub push : T → E → Result (ℕ × T) Text
  pub set : T → ℕ → E → T
  pub delete : T → ℕ → Result T Text

pub record HostState (W T : Type 0) : Type 0 where
  pub state : HybridState W
  pub table : T

-- The calls that change the table, the storage or the host; the rest only look.
pub data Call : Type 0 where
  sync_data : ℕ → Call
  sync : ℕ → Call
  set_size : ℕ → ℕ → Call
  write : ℕ → Text → ℕ → Call
  read_directory : ℕ → Call
  create_directory_at : ℕ → Text → Call
  open_at_call : ℕ → Text → OpenFlags → DescriptorFlags → Call
  remove_directory_at : ℕ → Text → Call
  rename_at : ℕ → Text → ℕ → Text → Call
  symlink_at : ℕ → Text → Text → Call
  unlink_file_at : ℕ → Text → Call
  read_via_stream : ℕ → ℕ → Call
  write_via_stream : ℕ → ℕ → Call
  append_via_stream : ℕ → Call
  -- `read_directory_entry` too, for which the size says nothing
  stream_read : ℕ → ℕ → Call
  stream_write : ℕ → Text → Call
  stream_flush : ℕ → Call
  drop_resource : ℕ → Call

module _ {D F : Type 0} where
  -- `table.get` of a descriptor; the text of a wrong type is that of the table.
  abbrev pub descriptor_of : Text → Result (Entry D F) Text → Result (HybridDescriptor D F) Text
  descriptor_of wrong (err e) = err e
  descriptor_of wrong (ok (descriptor d)) = ok d
  descriptor_of wrong (ok (iterator i)) = err wrong
  descriptor_of wrong (ok (vfs_input i)) = err wrong
  descriptor_of wrong (ok (vfs_output o)) = err wrong
  descriptor_of wrong (ok (real_input i)) = err wrong
  descriptor_of wrong (ok (real_output o)) = err wrong

  abbrev pub preopen_entry : HybridPreopen D → HybridDescriptor D F
  preopen_entry (vfs_preopen guest_path dir_perms file_perms) =
      vfs (dir guest_path dir_perms file_perms)
  preopen_entry (real_preopen guest_path dir) = real_dir dir guest_path

  abbrev pub read_stream : HybridDescriptor D F → ℕ → Result (Entry D F) VfsError
  read_stream (vfs d) offset =
      if d.is_dir
      then err (VfsError.not_file d.path)
      else if not d.file_perms.read
      then err (VfsError.permission_denied (codes "read"))
      else ok (vfs_input (input_new d.path offset))
  read_stream (real_dir dir guest_path) offset = err (VfsError.not_file guest_path)
  read_stream (real_file f guest_path) offset =
      if not f.readable
      then err (VfsError.permission_denied (codes "read"))
      else ok (real_input (real_input_new f.file offset))

  abbrev pub write_stream : HybridDescriptor D F → ℕ → Result (Entry D F) VfsError
  write_stream (vfs d) offset =
      if d.is_dir
      then err (VfsError.not_file d.path)
      else if not d.file_perms.write
      then err (VfsError.permission_denied (codes "write"))
      else ok (vfs_output (output_write_at d.path offset))
  write_stream (real_dir dir guest_path) offset = err (VfsError.not_file guest_path)
  write_stream (real_file f guest_path) offset =
      if not f.writable
      then err (VfsError.permission_denied (codes "write"))
      else ok (real_output (real_write_at f.file offset))

  abbrev pub append_stream : HybridDescriptor D F → Result (Entry D F) VfsError
  append_stream (vfs d) =
      if d.is_dir
      then err (VfsError.not_file d.path)
      else if not d.file_perms.write
      then err (VfsError.permission_denied (codes "write"))
      else ok (vfs_output (output_append d.path))
  append_stream (real_dir dir guest_path) = err (VfsError.not_file guest_path)
  append_stream (real_file f guest_path) =
      if not f.writable
      then err (VfsError.permission_denied (codes "write"))
      else ok (real_output (real_append f.file))
