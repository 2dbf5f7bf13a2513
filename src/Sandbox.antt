-- ===== src/Sandbox.antt =====
-- The per-request state of a sandbox: crates/eryx/src/sandbox.rs. Host objects behind an `Arc`
-- (executor, handlers, callbacks, storages) are numbers, equal when they are the same object.
use eryx.Prelude.{ℕ, ◌*◌, Option, none, some, List, [], ◌∷◌, text_keys}
use eryx.Prelude.HashMap.{HashMap, insert}
use eryx.Prelude.Text.{Text}

-- Durations in milliseconds.
pub record ResourceLimits : Type 0 where
  pub execution_timeout : Option ℕ
  pub callback_timeout : Option ℕ
  pub max_memory_bytes : Option ℕ
  pub max_callback_invocations : Option ℕ
  pub max_fuel : Option ℕ

abbrev pub default_limits : ResourceLimits
default_limits = record {
  execution_timeout = some 30_000;
  callback_timeout = some 10_000;
  max_memory_bytes = some (128 * 1024 * 1024);
  max_callback_invocations = some 1000;
  max_fuel = none;
}

-- `executor` stands for it and the other fields that no request changes.
pub record Sandbox : Type 0 where
  pub executor : ℕ
  pub callbacks : HashMap Text ℕ
  pub trace_handler : Option ℕ
  pub output_handler : Option ℕ
  pub resource_limits : ResourceLimits
  pub vfs_storage : Option ℕ

unfoldable pub callbacks_map : HashMap Text ℕ → List (Text × ℕ) → HashMap Text ℕ
callbacks_map m [] = m
callbacks_map m ((name, callback) ∷ rest) = callbacks_map (insert m name callback) rest

unfoldable pub set_callbacks : Sandbox → List (Text × ℕ) → Sandbox
set_callbacks s callbacks = record s { callbacks = callbacks_map [] callbacks }

unfoldable pub set_trace_handler : Sandbox → ℕ → Sandbox
set_trace_handler s handler = record s { trace_handler = some handler }

unfoldable pub set_output_handler : Sandbox → ℕ → Sandbox
set_output_handler s handler = record s { output_handler = some handler }

unfoldable pub set_resource_limits : Sandbox → ResourceLimits → Sandbox
set_resource_limits s limits = record s { resource_limits = limits }

unfoldable pub set_vfs_storage : Sandbox → ℕ → Sandbox
set_vfs_storage s storage = record s { vfs_storage = some storage }

unfoldable pub clear_per_request_state : Sandbox → Sandbox
clear_per_request_state s = record s {
  callbacks = [];
  trace_handler = none;
  output_handler = none;
  resource_limits = default_limits;
  vfs_storage = none;
}
