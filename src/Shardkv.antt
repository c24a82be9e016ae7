-- ===== src/Shardkv.antt =====
-- src/shardkv1/client.go: the clerk that finds the group of a key.
pub mod Clerk
pub mod Routing
pub mod Outcome
pub mod Puts
mod Examples
