-- ===== src/Vfs/Host/Calls.antt =====
-- The calls of crates/eryx-vfs/src/host.rs and of hybrid_host.rs on a descriptor of the storage, as data,
-- with their answers.
use eryx.Prelude.{ℕ, Bool, none, ok, err, Result, text_keys}
use eryx.Prelude.Text.{Text}
use eryx.Vfs.Path.{VfsError}
use eryx.Vfs.Storage.{Outcome, StorageState}
use eryx.Vfs.Descriptor.{
  OpenFlags, DescriptorFlags, DescriptorType, VfsDescriptor, VfsReaddirIterator,
}
use eryx.Vfs.Streams.{VfsInputStream, VfsOutputStream}
use eryx.Vfs.Hybrid.{CapStd, HybridDescriptor, vfs, real_dir, real_file}
use eryx.Vfs.Hybrid.Calls.{Entry, vfs_input, vfs_output, read_stream, write_stream, append_stream}
use eryx.Vfs.Hybrid.Calls as Calls
use eryx.Vfs.Hybrid.Reply.{HybridState, DescriptorStat, Reply, from_vfs}
use eryx.Vfs.Hybrid.Host as Hybrid
use eryx.Vfs.Hybrid.Paths as Paths
use eryx.Vfs.Hybrid.Opening as HybridOpening
use eryx.Vfs.Host as Host
use eryx.Vfs.Host.{metadata_to_stat}
use eryx.Vfs.Host.Opening as Opening

-- The calls on one descriptor, and on two for a rename, a hard link and a comparison. `advise`, `sync`,
-- `sync_data` and the calls that set times are left out.
pub data HostCall : Type 0 where
  set_size : ℕ → HostCall
  read : ℕ → ℕ → HostCall
  write : Text → ℕ → HostCall
  read_directory stat : HostCall
  create_directory_at stat_at remove_directory_at unlink_file_at readlink_at : Text → HostCall
  symlink_at : Text → Text → HostCall
  open_at : Text → OpenFlags → DescriptorFlags → HostCall
  rename_at link_at : Text → VfsDescriptor → Text → HostCall
  get_flags get_type metadata_hash append_via_stream : HostCall
  metadata_hash_at : Text → HostCall
  is_same_object : VfsDescriptor → HostCall
  read_via_stream write_via_stream : ℕ → HostCall

pub data Answer : Type 0 where
  done : Answer
  written : ℕ → Answer
  bytes : Text × Bool → Answer
  link : Text → Answer
  listed : VfsReaddirIterator → Answer
  info : DescriptorStat → Answer
  opened : VfsDescriptor → Answer
  has_flags : DescriptorFlags → Answer
  has_type : DescriptorType → Answer
  same : Bool → Answer
  hash : ℕ → Answer
  input : VfsInputStream → Answer
  output : VfsOutputStream → Answer
  on_host : Answer

module _ {A B : Type 0} where
  abbrev pub replies : (A → B) → Reply A → Reply B
  replies f Outcome.panics = Outcome.panics
  replies f (Outcome.returns (err e)) = Outcome.returns (err e)
  replies f (Outcome.returns (ok a)) = Outcome.returns (ok (f a))

abbrev pub answers : {S A B : Type 0} → (A → B) → S × Reply A → S × Reply B
answers f (s, r) = (s, replies f r)

abbrev pub without_times : DescriptorStat → DescriptorStat
without_times i = record i { data_access = none; data_modification = none; status_change = none }

-- The reply of a call that has nothing to do with the storage.
abbrev stream_reply : {A : Type 0} → (A → Answer) → Result A VfsError → Reply Answer
stream_reply f r = replies f (from_vfs r)

module _ (compute_hash : Text → ℕ → ℕ) where
  abbrev pub host_call : ℕ → StorageState → VfsDescriptor → HostCall → StorageState × Reply Answer
  host_call now s d (set_size size) = answers (λ _. done) (Host.set_size now s d size)
  host_call now s d (read len offset) = answers bytes (Host.read s d len offset)
  host_call now s d (write buf offset) = answers written (Host.write now s d buf offset)
  host_call now s d read_directory = answers listed (Host.read_directory now s d)
  host_call now s d stat = answers (λ i. info (without_times i)) (Host.stat now s d)
  host_call now s d (create_directory_at path) =
      answers (λ _. done) (Host.create_directory_at s d path)
  host_call now s d (stat_at path) =
      answers (λ i. info (without_times i)) (Host.stat_at now s d path)
  host_call now s d (remove_directory_at path) =
      answers (λ _. done) (Host.remove_directory_at s d path)
  host_call now s d (unlink_file_at path) = answers (λ _. done) (Host.unlink_file_at s d path)
  host_call now s d (readlink_at path) = answers link (Host.readlink_at s d path)
  host_call now s d (symlink_at from to) = answers (λ _. done) (Host.symlink_at s d from to)
  host_call now s d (open_at path oflags flags) =
      answers opened (Opening.open_at now s d path oflags flags)
  host_call now s d (rename_at from new to) = answers (λ _. done) (Host.rename_at s d from new to)
  host_call now s d (link_at from new to) = answers (λ _. done) (Host.link_at s)
  host_call now s d get_flags = (s, Outcome.returns (ok (has_flags (Host.get_flags d))))
  host_call now s d get_type = (s, Outcome.returns (ok (has_type (Host.get_type d))))
  host_call now s d (is_same_object other) =
      (s, Outcome.returns (ok (same (Host.is_same_object d other))))
  host_call now s d metadata_hash = answers hash (Host.metadata_hash compute_hash now s d)
  host_call now s d (metadata_hash_at path) =
      answers hash (Host.metadata_hash_at compute_hash now s d path)
  host_call now s d (read_via_stream offset) =
      (s, stream_reply input (Host.read_via_stream d offset))
  host_call now s d (write_via_stream offset) =
      (s, stream_reply output (Host.write_via_stream d offset))
  host_call now s d append_via_stream = (s, stream_reply output (Host.append_via_stream d))

module _ {W D F : Type 0} (cap : CapStd W D F) (compute_hash : Text → ℕ → ℕ) where
  abbrev opened_by : HybridDescriptor D F → Answer
  opened_by (vfs d) = opened d
  opened_by (real_dir dir path) = on_host
  opened_by (real_file file path) = on_host

  abbrev streamed_by : Entry D F → Answer
  streamed_by (Calls.descriptor d) = on_host
  streamed_by (Calls.iterator i) = on_host
  streamed_by (vfs_input i) = input i
  streamed_by (vfs_output o) = output o
  streamed_by (Calls.real_input i) = on_host
  streamed_by (Calls.real_output o) = on_host

  abbrev pub hybrid_call :
      ℕ → HybridState W → VfsDescriptor → HostCall → HybridState W × Reply Answer
  hybrid_call now s d (set_size size) = answers (λ _. done) (Hybrid.set_size cap now s (vfs d) size)
  hybrid_call now s d (read len offset) = answers bytes (Hybrid.read cap s (vfs d) len offset)
  hybrid_call now s d (write buf offset) =
      answers written (Hybrid.write cap now s (vfs d) buf offset)
  hybrid_call now s d read_directory =
      answers (λ es. listed (record { entries = es; index = 0 }))
        (Hybrid.read_directory cap now s (vfs d))
  hybrid_call now s d stat = answers info (Hybrid.stat cap now s (vfs d))
  hybrid_call now s d (create_directory_at path) =
      answers (λ _. done) (Paths.create_directory_at cap s (vfs d) path)
  hybrid_call now s d (stat_at path) = answers info (Paths.stat_at cap now s (vfs d) path)
  hybrid_call now s d (remove_directory_at path) =
      answers (λ _. done) (Paths.remove_directory_at cap s (vfs d) path)
  hybrid_call now s d (unlink_file_at path) =
      answers (λ _. done) (Paths.unlink_file_at cap s (vfs d) path)
  hybrid_call now s d (readlink_at path) = answers link (Paths.readlink_at cap s (vfs d) path)
  hybrid_call now s d (symlink_at from to) =
      answers (λ _. done) (Paths.symlink_at cap s (vfs d) from to)
  hybrid_call now s d (open_at path oflags flags) =
      answers opened_by (HybridOpening.open_at cap now s (vfs d) path oflags flags)
  hybrid_call now s d (rename_at from new to) =
      answers (λ _. done) (Paths.rename_at cap s (vfs d) from (vfs new) to)
  hybrid_call now s d (link_at from new to) = answers (λ _. done) (Paths.link_at cap s)
  hybrid_call now s d get_flags =
      (s, Outcome.returns (ok (has_flags (Hybrid.get_flags {D = D} {F = F} (vfs d)))))
  hybrid_call now s d get_type =
      (s, Outcome.returns (ok (has_type (Hybrid.get_type {D = D} {F = F} (vfs d)))))
  hybrid_call now s d (is_same_object other) =
      (s, Outcome.returns (ok (same (Hybrid.is_same_object {D = D} {F = F} (vfs d) (vfs other)))))
  hybrid_call now s d metadata_hash =
      answers hash (Paths.metadata_hash cap compute_hash now s (vfs d))
  hybrid_call now s d (metadata_hash_at path) =
      answers hash (Paths.metadata_hash_at cap compute_hash now s (vfs d) path)
  hybrid_call now s d (read_via_stream offset) =
      (s, stream_reply streamed_by (read_stream {D = D} {F = F} (vfs d) offset))
  hybrid_call now s d (write_via_stream offset) =
      (s, stream_reply streamed_by (write_stream {D = D} {F = F} (vfs d) offset))
  hybrid_call now s d append_via_stream =
      (s, stream_reply streamed_by (append_stream {D = D} {F = F} (vfs d)))

  abbrev pub beside : {A : Type 0} → HybridState W → StorageState × A → HybridState W × A
  beside s (storage, r) = (record s { storage = storage }, r)
