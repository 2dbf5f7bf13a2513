-- ===== src/Vfs/Hybrid/System.antt =====
-- The calls of crates/eryx-vfs/src/hybrid_host.rs on handles, with what becomes of the table. A call
-- with a handle that is not in the table, or not of the right type, changes nothing.
use eryx.Prelude.{ℕ, List, [], ◌∷◌, Result, ok, err}
use eryx.Prelude.Text.{Text}
use eryx.Vfs.Path.{VfsResult}
use eryx.Vfs.Storage.{Outcome, StorageState}
use eryx.Vfs.Streams as Streams
use eryx.Vfs.Hybrid.{CapStd, HybridDescriptor, HybridPreopen}
use eryx.Vfs.Hybrid.Reply.{HybridState, Reply}
use eryx.Vfs.Hybrid.RealStreams.{real_read, real_write}
use eryx.Vfs.Hybrid.Host as Host
use eryx.Vfs.Hybrid.Paths as Paths
use eryx.Vfs.Hybrid.Opening.{open_at}
use eryx.Vfs.Hybrid.Calls.{
  Entry, descriptor, iterator, vfs_input, vfs_output, real_input, real_output, ResourceTable,
  HostState, Call, iterator_next, descriptor_of, preopen_entry, read_stream, write_stream,
  append_stream,
}

module _ {W D F T : Type 0} (cap : CapStd W D F) (table : ResourceTable T (Entry D F))
    (wrong : Text) (now : ℕ) where
  -- The state after a call on the descriptor of a handle.
  abbrev pub with_descriptor :
      HostState W T → ℕ → (HybridDescriptor D F → HostState W T) → HostState W T
  with_descriptor host fd go_on = elim (descriptor_of wrong (table.get host.table fd)) [
    | err e ↦ host
    | ok d ↦ go_on d
  ]

  abbrev pub pushed : HostState W T → Entry D F → HostState W T
  pushed host entry = elim (table.push host.table entry) [
    | err e ↦ host
    | ok (fd, after) ↦ record host { table = after }
  ]

  abbrev pub kept : {A : Type 0} → HostState W T → HybridState W × Reply A → HostState W T
  kept host (state, reply) = record host { state = state }

  -- A call that makes a resource.
  abbrev pub made :
      {A : Type 0} → HostState W T → (A → Entry D F) → HybridState W × Reply A → HostState W T
  made host to_entry (state, Outcome.panics) = record host { state = state }
  made host to_entry (state, Outcome.returns (err e)) = record host { state = state }
  made host to_entry (state, Outcome.returns (ok a)) =
      pushed (record host { state = state }) (to_entry a)

  abbrev pub made_stream : HostState W T → VfsResult (Entry D F) → HostState W T
  made_stream host (err e) = host
  made_stream host (ok entry) = pushed host entry

  -- A read from a stream or a directory.
  abbrev pub advance : HostState W T → ℕ → ℕ → Entry D F → Entry D F
  advance host fd size (descriptor d) = descriptor d
  advance host fd size (iterator entries) = iterator (iterator_next entries).0
  advance host fd size (vfs_input i) = vfs_input (Streams.read host.state.storage i size).0
  advance host fd size (vfs_output o) = vfs_output o
  advance host fd size (real_input i) = real_input (real_read cap host.state.world i size).0
  advance host fd size (real_output o) = real_output o

  abbrev pub read_from : HostState W T → ℕ → ℕ → Result (Entry D F) Text → HostState W T
  read_from host fd size (err e) = host
  read_from host fd size (ok entry) = record host {
    table = table.set host.table fd (advance host fd size entry);
  }

  abbrev pub write_to : HostState W T → ℕ → Text → Result (Entry D F) Text → HostState W T
  write_to host fd bytes (ok (vfs_output o)) =
      let (next, storage, reply) = Streams.write now host.state.storage o bytes in
      record {
        state = record (host.state) { storage = storage };
        table = table.set host.table fd (vfs_output next);
      }
  write_to host fd bytes (ok (real_output o)) =
      let (world, next, reply) = real_write cap host.state.world o bytes in
      record {
        state = record (host.state) { world = world };
        table = table.set host.table fd (real_output next);
      }
  write_to host fd bytes (ok (descriptor d)) = host
  write_to host fd bytes (ok (iterator entries)) = host
  write_to host fd bytes (ok (vfs_input i)) = host
  write_to host fd bytes (ok (real_input i)) = host
  write_to host fd bytes (err e) = host

  abbrev pub flush_to : HostState W T → ℕ → Result (Entry D F) Text → HostState W T
  flush_to host fd (ok (vfs_output o)) =
      let (next, storage, reply) = Streams.flush now host.state.storage o in
      record {
        state = record (host.state) { storage = storage };
        table = table.set host.table fd (vfs_output next);
      }
  flush_to host fd (ok (real_output o)) = host
  flush_to host fd (ok (descriptor d)) = host
  flush_to host fd (ok (iterator entries)) = host
  flush_to host fd (ok (vfs_input i)) = host
  flush_to host fd (ok (real_input i)) = host
  flush_to host fd (err e) = host

  -- The storage after the drop of what was in the table; only an output stream flushes.
  abbrev pub dropped : StorageState → Result (Entry D F) Text → StorageState
  dropped storage (ok (vfs_output o)) = Streams.drop now storage o
  dropped storage (ok (real_output o)) = storage
  dropped storage (ok (descriptor d)) = storage
  dropped storage (ok (iterator entries)) = storage
  dropped storage (ok (vfs_input i)) = storage
  dropped storage (ok (real_input i)) = storage
  dropped storage (err e) = storage

  unfoldable pub perform : Call → HostState W T → HostState W T
  perform (Call.sync_data fd) host =
      with_descriptor host fd λ d. kept host (Host.sync_data cap host.state d)
  perform (Call.sync fd) host = with_descriptor host fd λ d. kept host (Host.sync cap host.state d)
  perform (Call.set_size fd size) host =
      with_descriptor host fd λ d. kept host (Host.set_size cap now host.state d size)
  perform (Call.write fd buf offset) host =
      with_descriptor host fd λ d. kept host (Host.write cap now host.state d buf offset)
  perform (Call.read_directory fd) host =
      with_descriptor host fd λ d. made host iterator (Host.read_directory cap now host.state d)
  perform (Call.create_directory_at fd path) host =
      with_descriptor host fd λ d. kept host (Paths.create_directory_at cap host.state d path)
  perform (Call.open_at_call fd path oflags flags) host =
      with_descriptor host fd
        λ d. made host descriptor (open_at cap now host.state d path oflags flags)
  perform (Call.remove_directory_at fd path) host =
      with_descriptor host fd λ d. kept host (Paths.remove_directory_at cap host.state d path)
  perform (Call.rename_at fd old_path new_fd new_path) host = with_descriptor host fd λ old.
      with_descriptor host new_fd
        λ new. kept host (Paths.rename_at cap host.state old old_path new new_path)
  perform (Call.symlink_at fd src_path dest_path) host =
      with_descriptor host fd λ d. kept host (Paths.symlink_at cap host.state d src_path dest_path)
  perform (Call.unlink_file_at fd path) host =
      with_descriptor host fd λ d. kept host (Paths.unlink_file_at cap host.state d path)
  perform (Call.read_via_stream fd offset) host =
      with_descriptor host fd λ d. made_stream host (read_stream d offset)
  perform (Call.write_via_stream fd offset) host =
      with_descriptor host fd λ d. made_stream host (write_stream d offset)
  perform (Call.append_via_stream fd) host =
      with_descriptor host fd λ d. made_stream host (append_stream d)
  perform (Call.stream_read fd size) host = read_from host fd size (table.get host.table fd)
  perform (Call.stream_write fd bytes) host = write_to host fd bytes (table.get host.table fd)
  perform (Call.stream_flush fd) host = flush_to host fd (table.get host.table fd)
  perform (Call.drop_resource fd) host = elim (table.delete host.table fd) [
    | err e ↦ host
    | ok after ↦ record {
      state = record (host.state) {
        storage = dropped host.state.storage (table.get host.table fd);
      };
      table = after;
    }
  ]

  unfoldable pub performs : List Call → HostState W T → HostState W T
  performs [] host = host
  performs (call ∷ calls) host = performs calls (perform call host)

  -- `get_directories`, without the handles that it returns; it stops at a table that is full.
  unfoldable pub get_directories : List (HybridPreopen D) → HostState W T → HostState W T
  get_directories [] host = host
  get_directories (preopen ∷ preopens) host =
      elim (table.push host.table (descriptor (preopen_entry preopen))) [
        | err e ↦ host
        | ok (fd, after) ↦ get_directories preopens (record host { table = after })
      ]
