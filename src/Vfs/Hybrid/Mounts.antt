-- ===== src/Vfs/Hybrid/Mounts.antt =====
-- Mounts of directories of the host through crates/eryx-vfs/src/hybrid_host.rs.
use eryx.Prelude.{ℕ, ◌≡◌, ◌≢◌, refl, List, [], ◌∷◌, Result, ok, err}
use eryx.Prelude.Text.{Text}
use eryx.Vfs.Path.{VfsResult}
use eryx.Vfs.Descriptor.{OpenFlags, DescriptorFlags}
use eryx.Vfs.Hybrid.Reply.{HybridState}
use eryx.Vfs.Hybrid.{CapStd, HybridDescriptor, HybridPreopen, vfs_preopen, real_preopen}
use eryx.Vfs.Hybrid.Host as Host
use eryx.Vfs.Hybrid.Opening.{open_at}
use eryx.Vfs.Hybrid.Calls.{
  Entry, descriptor, iterator, descriptor_of, ResourceTable, HostState, Call, preopen_entry,
  read_stream, write_stream, append_stream,
}
use eryx.Vfs.Hybrid.System.{dropped, made, made_stream, perform, performs, get_directories}
use eryx.Vfs.Hybrid.ReadOnly.{
  OpensReadOnly, IsTable, IsReadOnly, CannotWrite, AreReadOnly, sync_data-Keeps, sync-Keeps,
  set_size-Keeps, write-Keeps, read_directory-Keeps, create_directory_at-Keeps,
  remove_directory_at-Keeps, unlink_file_at-Keeps, symlink_at-Keeps, rename_at-Keeps, open_at-Opens,
}
use eryx.Vfs.Hybrid.Unwritten.{
  Unwritten, with_rule, moved, after_push, made-Unwritten, made_stream-Unwritten,
  opened-CannotWrite, read_stream-CannotWrite, write_stream-CannotWrite, append_stream-CannotWrite,
  read_from-Unwritten, write_to-Unwritten, flush_to-Unwritten,
}

module _ {W D F T : Type 0} (cap : CapStd W D F) (read_only : OpensReadOnly cap)
    (table : ResourceTable T (Entry D F)) (laws : IsTable table) (wrong : Text) (now : ℕ)
    (world : W) where
  abbrev Safe : HostState W T → Type 0
  Safe = Unwritten cap read_only table laws wrong now world

  module _ (host : HostState W T) (h : Safe host) where
    -- A call on a handle is safe where it is safe on a descriptor that cannot write.
    on_descriptor :
        (fd : ℕ) (go_on : HybridDescriptor D F → HostState W T)
        → ((d : HybridDescriptor D F) → IsReadOnly d → Safe (go_on d))
        → Safe
            (elim (descriptor_of wrong (table.get host.table fd)) [ err e ↦ host | ok d ↦ go_on d ])
    on_descriptor fd go_on step =
        with_rule Safe wrong (table.get host.table fd) host go_on h
          (λ d found. step d (h.none fd (descriptor d) found))

    keep :
        (state : HybridState W)
        → state.world ≡ host.state.world
        → Safe (record host { state = state })
    keep state e = moved cap read_only table laws wrong now world host state h e

    stream :
        (r : VfsResult (Entry D F))
        → ((entry : Entry D F) → r ≡ ok entry → CannotWrite entry)
        → Safe (made_stream cap table wrong now host r)
    stream r c = made_stream-Unwritten cap read_only table laws wrong now world host r h c

    open_at-Unwritten :
        (d : HybridDescriptor D F) (path : Text) (oflags : OpenFlags) (flags : DescriptorFlags)
        → IsReadOnly d
        → Safe (
            made cap table wrong now host descriptor
              (open_at cap now host.state d path oflags flags))
    open_at-Unwritten d path oflags flags c =
        let r = open_at cap now host.state d path oflags flags in
        let opens = open_at-Opens cap read_only host.state now d path oflags flags c in
        made-Unwritten cap read_only table laws wrong now world host descriptor r.0 r.1 h opens.0
          (λ e done. opened-CannotWrite cap read_only table laws wrong now world r.1 e opens.1 done)

    read_directory-Unwritten :
        (d : HybridDescriptor D F)
        → Safe (made cap table wrong now host iterator (Host.read_directory cap now host.state d))
    read_directory-Unwritten d =
        let r = Host.read_directory cap now host.state d in
        made-Unwritten cap read_only table laws wrong now world host iterator r.0 r.1 h
          (read_directory-Keeps cap read_only host.state now d) (λ e done. tt)

    drop-Unwritten :
        (fd : ℕ) (r : Result T Text)
        → table.delete host.table fd ≡ r
        → Safe (elim r [
          | err e ↦ host
          | ok after ↦ record {
            state = record (host.state) {
              storage = dropped cap table wrong now host.state.storage (table.get host.table fd);
            };
            table = after;
          }
        ])
    drop-Unwritten fd (err e) done = h
    drop-Unwritten fd (ok after) done = record {
      same = h.same;
      none = λ j x found. h.none j x (laws.delete host.table after x fd j done found);
    }

    perform-Unwritten : (call : Call) → Safe (perform cap table wrong now call host)
    unfolding perform
    perform-Unwritten (Call.sync_data fd) =
        on_descriptor fd _ (λ d c. keep _ (sync_data-Keeps cap read_only host.state d))
    perform-Unwritten (Call.sync fd) =
        on_descriptor fd _ (λ d c. keep _ (sync-Keeps cap read_only host.state d))
    perform-Unwritten (Call.set_size fd size) =
        on_descriptor fd _ (λ d c. keep _ (set_size-Keeps cap read_only host.state now d size c))
    perform-Unwritten (Call.write fd buf offset) =
        on_descriptor fd _ (λ d c. keep _ (write-Keeps cap read_only host.state now d buf offset c))
    perform-Unwritten (Call.read_directory fd) =
        on_descriptor fd _ (λ d c. read_directory-Unwritten d)
    perform-Unwritten (Call.create_directory_at fd path) =
        on_descriptor fd _
          (λ d c. keep _ (create_directory_at-Keeps cap read_only host.state d path c))
    perform-Unwritten (Call.open_at_call fd path oflags flags) =
        on_descriptor fd _ (λ d c. open_at-Unwritten d path oflags flags c)
    perform-Unwritten (Call.remove_directory_at fd path) =
        on_descriptor fd _
          (λ d c. keep _ (remove_directory_at-Keeps cap read_only host.state d path c))
    perform-Unwritten (Call.rename_at fd old_path new_fd new_path) = on_descriptor fd _ (λ old c.
        on_descriptor new_fd _
          (λ new _. keep _ (rename_at-Keeps cap read_only host.state old old_path new new_path c)))
    perform-Unwritten (Call.symlink_at fd src_path dest_path) =
        on_descriptor fd _
          (λ d c. keep _ (symlink_at-Keeps cap read_only host.state d src_path dest_path c))
    perform-Unwritten (Call.unlink_file_at fd path) =
        on_descriptor fd _ (λ d c. keep _ (unlink_file_at-Keeps cap read_only host.state d path c))
    perform-Unwritten (Call.read_via_stream fd offset) = on_descriptor fd _ (λ d c.
        stream (read_stream d offset) (λ e done.
          read_stream-CannotWrite cap read_only table laws wrong now world d offset e done))
    perform-Unwritten (Call.write_via_stream fd offset) = on_descriptor fd _ (λ d c.
        stream (write_stream d offset) (λ e done.
          write_stream-CannotWrite cap read_only table laws wrong now world d offset e c done))
    perform-Unwritten (Call.append_via_stream fd) = on_descriptor fd _ (λ d c.
        stream (append_stream d)
          (λ e done. append_stream-CannotWrite cap read_only table laws wrong now world d e c done))
    perform-Unwritten (Call.stream_read fd size) =
        read_from-Unwritten cap read_only table laws wrong now world host fd size _ h refl
    perform-Unwritten (Call.stream_write fd bytes) =
        write_to-Unwritten cap read_only table laws wrong now world host fd bytes _ h refl
    perform-Unwritten (Call.stream_flush fd) =
        flush_to-Unwritten cap read_only table laws wrong now world host fd _ h
    perform-Unwritten (Call.drop_resource fd) = drop-Unwritten fd (table.delete host.table fd) refl

  performs-Unwritten :
      (calls : List Call) (host : HostState W T)
      → Safe host
      → Safe (performs cap table wrong now calls host)
  unfolding performs
  performs-Unwritten [] host h = h
  performs-Unwritten (call ∷ calls) host h =
      performs-Unwritten calls (perform cap table wrong now call host)
        (perform-Unwritten host h call)

  push_preopen :
      (preopens : List (HybridPreopen D)) (host : HostState W T) (entry : Entry D F)
      (go_on : HostState W T → HostState W T) (r : Result (ℕ × T) Text)
      → table.push host.table entry ≡ r
      → Safe host
      → CannotWrite entry
      → ((after : HostState W T) → Safe after → Safe (go_on after))
      → Safe (elim r [ err e ↦ host | ok (fd, after) ↦ go_on (record host { table = after }) ])
  push_preopen preopens host entry go_on (err e) done h c step = h
  push_preopen preopens host entry go_on (ok (fd, after)) done h c step =
      step (record host { table = after })
        (after_push cap read_only table laws wrong now world host entry (ok (fd, after)) h c done)

  get_directories-Unwritten :
      (preopens : List (HybridPreopen D)) (host : HostState W T)
      → AreReadOnly preopens
      → Safe host
      → Safe (get_directories cap table wrong now preopens host)
  unfolding get_directories
  get_directories-Unwritten [] host c h = h
  get_directories-Unwritten (vfs_preopen guest_path dir_perms file_perms ∷ preopens) host c h =
      push_preopen preopens host
        (descriptor (preopen_entry (vfs_preopen guest_path dir_perms file_perms)))
        (get_directories cap table wrong now preopens) _ refl h tt
        (λ after. get_directories-Unwritten preopens after c)
  get_directories-Unwritten (real_preopen guest_path dir ∷ preopens) host c h =
      push_preopen preopens host (descriptor (preopen_entry (real_preopen guest_path dir)))
        (get_directories cap table wrong now preopens) _ refl h (c.0, c.1)
        (λ after. get_directories-Unwritten preopens after c.2)

-- Where every directory of the host is mounted without write and mutate permission, and the table is
-- empty at first, no sequence of calls on the handles that a guest gets changes the host.
pub performs-world :
    {W D F T : Type 0} (cap : CapStd W D F) (read_only : OpensReadOnly cap)
    (table : ResourceTable T (Entry D F)) (laws : IsTable table) (wrong : Text) (now : ℕ)
    (preopens : List (HybridPreopen D)) (calls : List Call) (host : HostState W T)
    → AreReadOnly preopens
    → ((j : ℕ) (x : Entry D F) → table.get host.table j ≢ ok x)
    → (performs cap table wrong now calls
        (get_directories cap table wrong now preopens host)).state.world
      ≡ host.state.world
performs-world cap read_only table laws wrong now preopens calls host c empty =
    let mounted =
      get_directories-Unwritten cap read_only table laws wrong now host.state.world preopens host c
        (record { same = refl; none = λ j x found. absurd (empty j x found) }) in
    (performs-Unwritten cap read_only table laws wrong now host.state.world calls
      (get_directories cap table wrong now preopens host) mounted).same
