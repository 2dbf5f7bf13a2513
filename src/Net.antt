-- ===== src/Net.antt =====
-- Networking of the sandbox: crates/eryx/src/net.rs.
pub mod Config
pub mod Pattern
pub mod Connections
pub mod Strings
pub mod Requests
pub mod Substitution
pub mod Http
mod Examples
