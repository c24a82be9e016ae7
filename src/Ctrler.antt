-- ===== src/Ctrler.antt =====
-- src/shardkv1/shardctrler: the controller, whose record is one key of the single server.
pub mod State
pub mod Swap
pub mod Migration
pub mod System
pub mod Changes
pub mod Fencing
pub mod Runs
pub mod Plans
pub mod Agreement
mod Takeover
mod Examples
