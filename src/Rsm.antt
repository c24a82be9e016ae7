-- ===== src/Rsm.antt =====
-- src/kvraft1/rsm: a state machine that is replicated by Raft, and the calls that wait for it.
pub mod Server
pub mod System
pub mod Replay
pub mod Waiters
pub mod Replies
mod Examples
