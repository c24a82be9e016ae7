-- ===== src/Kvraft.antt =====
-- src/kvraft1: the replicated key/value server over one Raft group, and its clerk.
pub mod Server
pub mod Refinement
pub mod Machine
pub mod Leader
pub mod Clerk
pub mod Copies
pub mod Answers
pub mod Exactly
mod Examples
