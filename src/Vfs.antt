-- ===== src/Vfs.antt =====
-- The in-memory virtual file system: crates/eryx-vfs/src/storage.rs and error.rs.
pub mod Path
pub mod Storage
pub mod Streams
pub mod Descriptor
pub mod Hybrid
pub mod Host
mod Examples
