-- ===== src/Cluster.antt =====
-- Several nodes of src/raft1 and the votes between them.
pub mod Counting
pub mod System
pub mod Votes
pub mod Safety
mod Examples
