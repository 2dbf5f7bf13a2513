-- ===== src/Vfs/Host/Examples.antt =====
-- A call of crates/eryx-vfs/src/host.rs at a concrete input, beside the small host.
use eryx.Prelude.{ℕ, ◌+◌, ◌≡◌, true, false, [], length}
use eryx.Prelude.Text.{Text, codes}
use eryx.Vfs.Storage.{StorageState}
use eryx.Vfs.Storage as Storage
use eryx.Vfs.Descriptor.{all_dir_perms, all_file_perms, VfsDescriptor}
use eryx.Vfs.Hybrid.Reply.{HybridState}
use eryx.Vfs.Hybrid.SmallHost.{Files, host}
use eryx.Vfs.Host.Calls.{HostCall, open_at, host_call, hybrid_call, beside}
use eryx.Vfs.Host.Agreement.{hybrid-host_call}

abbrev start : HybridState Files
start = record { storage = Storage.new; world = [] }

abbrev top : VfsDescriptor
top = record {
  path = codes "/";
  is_dir = true;
  dir_perms = all_dir_perms;
  file_perms = all_file_perms;
}

abbrev making : HostCall
making =
    open_at (codes "f")
      (record { create = true; directory = false; exclusive = true; truncate = false })
      (record { read = true; write = true })

-- A hash.
abbrev path_length : Text → ℕ → ℕ
path_length path size = length path + size

hybrid-host_call_example :
    hybrid_call host path_length 7 start top making
    ≡ beside host path_length start (host_call path_length 7 start.storage top making)
hybrid-host_call_example = hybrid-host_call host path_length 7 start top making
