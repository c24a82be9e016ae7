-- ===== src/Lock.antt =====
-- src/kvsrv1/lock/lock.go: a lock in one key of the single server, which its holder's id fills.
pub mod Client
pub mod System
pub mod Invariant
pub mod Exclusion
pub mod Mutex
mod Examples
