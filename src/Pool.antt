-- ===== src/Pool.antt =====
-- The pool of warm sandboxes: crates/eryx/src/pool.rs.
pub mod State
pub mod System
pub mod Invariant
pub mod Eviction
pub mod Isolation
pub mod Examples
