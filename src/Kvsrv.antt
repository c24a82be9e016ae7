-- ===== src/Kvsrv.antt =====
-- src/kvsrv1: the single key/value server with versioned writes.
pub mod Server
pub mod Versions
pub mod Clerk
pub mod Retries
mod Examples
