-- ===== src/Raft.antt =====
-- src/raft1: one Raft node. Each RPC handler, and each stretch of a worker that holds the mutex, is
-- a function from the node's state and its inputs to the new state and what it sends or returns.
pub mod Types
pub mod Log
pub mod Encoding
pub mod Roles
pub mod Boot
pub mod Vote
pub mod Append
pub mod Snapshots
pub mod Commit
pub mod Replicate
pub mod Apply
pub mod Heartbeat
pub mod Ballots
pub mod Merging
pub mod Invariant
pub mod Agreement
pub mod Committed
pub mod Majority
pub mod Batches
pub mod Format
pub mod Restart
pub mod Durable
pub mod Ticks
pub mod Node
pub mod Progress
pub mod Compaction
mod Examples
