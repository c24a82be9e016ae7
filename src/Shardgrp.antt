-- ===== src/Shardgrp.antt =====
-- src/shardkv1/shardgrp: the replicated server of a shard group, and its clerk.
pub mod Server
pub mod Transitions
pub mod Fencing
pub mod Migration
pub mod Snapshots
pub mod Restored
pub mod Clerk
pub mod Rounds
pub mod Calls
pub mod Results
pub mod Tries
mod Examples
