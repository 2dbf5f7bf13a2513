-- ===== src/Server.antt =====
-- The server of crates/eryx-server, of which the signed journals are here.
pub mod Journal
mod Examples
