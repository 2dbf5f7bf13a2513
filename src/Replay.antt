-- ===== src/Replay.antt =====
-- Callback result replay: crates/eryx/src/replay.rs, with `CallbackError` of
-- crates/eryx/src/callback.rs. `V` stands for `serde_json::Value`.
pub mod Fnv
pub mod Journal
pub mod State
pub mod Callback
pub mod Schedule
pub mod Guard
pub mod Slots
pub mod Prefix
pub mod Rerun
pub mod Calls
pub mod Recording
pub mod Resume
pub mod Suspension
pub mod Examples
