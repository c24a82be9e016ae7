-- ===== src/Shardcfg.antt =====
-- src/shardkv1/shardcfg: configurations, the assignment of shards to groups.
pub mod Constants
pub mod Config
pub mod Balance
pub mod Change
pub mod Loads
pub mod Rebalancing
pub mod Passing
pub mod Balanced
pub mod Names
pub mod Membership
pub mod Departure
mod Examples
