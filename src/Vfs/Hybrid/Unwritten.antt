-- ===== src/Vfs/Hybrid/Unwritten.antt =====
-- Any sequence of the calls of crates/eryx-vfs/src/hybrid_host.rs on a table in which nothing of the host can
-- be written to.
use eryx.Prelude.{ℕ, ◌≡◌, refl, sym, subst, ◌∙◌, inl, inr, Result, ok, err, arith}
use eryx.Prelude.Text.{Text}
use eryx.Vfs.Path.{VfsResult}
use eryx.Vfs.Storage.{Outcome}
use eryx.Vfs.Streams as Streams
use eryx.Vfs.Hybrid.{CapStd, HybridDescriptor, vfs, real_dir, real_file}
use eryx.Vfs.Hybrid.Reply.{HybridState, Reply}
use eryx.Vfs.Hybrid.Calls.{
  Entry, descriptor, iterator, vfs_input, vfs_output, real_input, real_output, ResourceTable,
  HostState, descriptor_of, read_stream, write_stream, append_stream,
}
use eryx.Vfs.Hybrid.System.{pushed, made, made_stream, advance, read_from, write_to, flush_to}
use eryx.Vfs.Hybrid.ReadOnly.{OpensReadOnly, IsTable, IsReadOnly, CannotWrite, OpensCannotWrite}

-- What is found where the text of a wrong type is not met.
pub with_rule :
    {D F S : Type 0} (P : S → Type 0) (wrong : Text) (r : Result (Entry D F) Text) (s : S)
    (go_on : HybridDescriptor D F → S)
    → P s
    → ((d : HybridDescriptor D F) → r ≡ ok (descriptor d) → P (go_on d))
    → P (elim (descriptor_of wrong r) [ err e ↦ s | ok d ↦ go_on d ])
with_rule P wrong (err e) s go_on p q = p
with_rule P wrong (ok (descriptor d)) s go_on p q = q d refl
with_rule P wrong (ok (iterator i)) s go_on p q = p
with_rule P wrong (ok (vfs_input i)) s go_on p q = p
with_rule P wrong (ok (vfs_output o)) s go_on p q = p
with_rule P wrong (ok (real_input i)) s go_on p q = p
with_rule P wrong (ok (real_output o)) s go_on p q = p

module _ {W D F T : Type 0} (cap : CapStd W D F) (read_only : OpensReadOnly cap)
    (table : ResourceTable T (Entry D F)) (laws : IsTable table) (wrong : Text) (now : ℕ)
    (world : W) where
  abbrev pub HoldsNone : T → Type 0
  HoldsNone t = (j : ℕ) (x : Entry D F) → table.get t j ≡ ok x → CannotWrite x

  -- The host is as it was at first, and nothing in the table can write to it.
  pub record Unwritten (host : HostState W T) : Type 0 where
    pub same : host.state.world ≡ world
    pub none : HoldsNone host.table

  pub after_push :
      (host : HostState W T) (entry : Entry D F) (r : Result (ℕ × T) Text)
      → Unwritten host
      → CannotWrite entry
      → table.push host.table entry ≡ r
      → Unwritten (elim r [ err e ↦ host | ok (fd, after) ↦ record host { table = after } ])
  after_push host entry (err e) h c done = h
  after_push host entry (ok (fd, after)) h c done = record {
    same = h.same;
    none = λ j x found. elim (laws.push host.table after entry x fd j done found) [
      | inl new ↦ subst CannotWrite (sym new) c
      | inr old ↦ h.none j x old
    ];
  }

  pub pushed-Unwritten :
      (host : HostState W T) (entry : Entry D F)
      → Unwritten host
      → CannotWrite entry
      → Unwritten (pushed cap table wrong now host entry)
  pushed-Unwritten host entry h c = after_push host entry (table.push host.table entry) h c refl

  set-HoldsNone :
      (t : T) (fd : ℕ) (entry : Entry D F)
      → HoldsNone t
      → CannotWrite entry
      → HoldsNone (table.set t fd entry)
  set-HoldsNone t fd entry h c j x found = elim (laws.set t entry x fd j found) [
    | inl new ↦ subst CannotWrite (sym new) c
    | inr old ↦ h j x old
  ]

  pub moved :
      (host : HostState W T) (state : HybridState W)
      → Unwritten host
      → state.world ≡ host.state.world
      → Unwritten (record host { state = state })
  moved host state h e = record { same = e ∙ h.same; none = h.none }

  pub made-Unwritten :
      {A : Type 0} (host : HostState W T) (to_entry : A → Entry D F) (state : HybridState W)
      (reply : Reply A)
      → Unwritten host
      → state.world ≡ host.state.world
      → ((a : A) → reply ≡ Outcome.returns (ok a) → CannotWrite (to_entry a))
      → Unwritten (made cap table wrong now host to_entry (state, reply))
  made-Unwritten host to_entry state Outcome.panics h e c = moved host state h e
  made-Unwritten host to_entry state (Outcome.returns (err x)) h e c = moved host state h e
  made-Unwritten host to_entry state (Outcome.returns (ok a)) h e c =
      pushed-Unwritten (record host { state = state }) (to_entry a) (moved host state h e)
        (c a refl)

  pub opened-CannotWrite :
      (reply : Reply (HybridDescriptor D F)) (d : HybridDescriptor D F)
      → OpensCannotWrite reply
      → reply ≡ Outcome.returns (ok d)
      → IsReadOnly d
  opened-CannotWrite reply d h e = subst OpensCannotWrite e h

  pub made_stream-Unwritten :
      (host : HostState W T) (r : VfsResult (Entry D F))
      → Unwritten host
      → ((entry : Entry D F) → r ≡ ok entry → CannotWrite entry)
      → Unwritten (made_stream cap table wrong now host r)
  made_stream-Unwritten host (err e) h c = h
  made_stream-Unwritten host (ok entry) h c = pushed-Unwritten host entry h (c entry refl)

  pub read_stream-CannotWrite :
      (d : HybridDescriptor D F) (offset : ℕ) (entry : Entry D F)
      → read_stream d offset ≡ ok entry
      → CannotWrite entry
  read_stream-CannotWrite (vfs d) offset entry e = ground arith
  read_stream-CannotWrite (real_dir dir guest_path) offset entry e = ground arith
  read_stream-CannotWrite (real_file file guest_path) offset entry e = ground arith

  pub write_stream-CannotWrite :
      (d : HybridDescriptor D F) (offset : ℕ) (entry : Entry D F)
      → IsReadOnly d
      → write_stream d offset ≡ ok entry
      → CannotWrite entry
  write_stream-CannotWrite (vfs d) offset entry h e = ground arith
  write_stream-CannotWrite (real_dir dir guest_path) offset entry h e = ground arith
  write_stream-CannotWrite (real_file file guest_path) offset entry h e = ground arith

  pub append_stream-CannotWrite :
      (d : HybridDescriptor D F) (entry : Entry D F)
      → IsReadOnly d
      → append_stream d ≡ ok entry
      → CannotWrite entry
  append_stream-CannotWrite (vfs d) entry h e = ground arith
  append_stream-CannotWrite (real_dir dir guest_path) entry h e = ground arith
  append_stream-CannotWrite (real_file file guest_path) entry h e = ground arith

  pub advance-CannotWrite :
      (host : HostState W T) (fd size : ℕ) (entry : Entry D F)
      → CannotWrite entry
      → CannotWrite (advance cap table wrong now host fd size entry)
  advance-CannotWrite host fd size (descriptor d) c = c
  advance-CannotWrite host fd size (iterator entries) c = tt
  advance-CannotWrite host fd size (vfs_input i) c = tt
  advance-CannotWrite host fd size (vfs_output o) c = tt
  advance-CannotWrite host fd size (real_input i) c = tt
  advance-CannotWrite host fd size (real_output o) c = c

  pub read_from-Unwritten :
      (host : HostState W T) (fd size : ℕ) (r : Result (Entry D F) Text)
      → Unwritten host
      → table.get host.table fd ≡ r
      → Unwritten (read_from cap table wrong now host fd size r)
  read_from-Unwritten host fd size (err e) h found = h
  read_from-Unwritten host fd size (ok entry) h found = record {
    same = h.same;
    none =
        set-HoldsNone host.table fd (advance cap table wrong now host fd size entry) h.none
          (advance-CannotWrite host fd size entry (h.none fd entry found));
  }

  pub write_to-Unwritten :
      (host : HostState W T) (fd : ℕ) (bytes : Text) (r : Result (Entry D F) Text)
      → Unwritten host
      → table.get host.table fd ≡ r
      → Unwritten (write_to cap table wrong now host fd bytes r)
  write_to-Unwritten host fd bytes (err e) h found = h
  write_to-Unwritten host fd bytes (ok (descriptor d)) h found = h
  write_to-Unwritten host fd bytes (ok (iterator entries)) h found = h
  write_to-Unwritten host fd bytes (ok (vfs_input i)) h found = h
  write_to-Unwritten host fd bytes (ok (real_input i)) h found = h
  write_to-Unwritten host fd bytes (ok (real_output o)) h found =
      absurd (h.none fd (real_output o) found)
  write_to-Unwritten host fd bytes (ok (vfs_output o)) h found = record {
    same = h.same;
    none =
        set-HoldsNone host.table fd (vfs_output (Streams.write now host.state.storage o bytes).0)
          h.none tt;
  }

  pub flush_to-Unwritten :
      (host : HostState W T) (fd : ℕ) (r : Result (Entry D F) Text)
      → Unwritten host
      → Unwritten (flush_to cap table wrong now host fd r)
  flush_to-Unwritten host fd (err e) h = h
  flush_to-Unwritten host fd (ok (descriptor d)) h = h
  flush_to-Unwritten host fd (ok (iterator entries)) h = h
  flush_to-Unwritten host fd (ok (vfs_input i)) h = h
  flush_to-Unwritten host fd (ok (real_input i)) h = h
  flush_to-Unwritten host fd (ok (real_output o)) h = h
  flush_to-Unwritten host fd (ok (vfs_output o)) h = record {
    same = h.same;
    none =
        set-HoldsNone host.table fd (vfs_output (Streams.flush now host.state.storage o).0) h.none
          tt;
  }
