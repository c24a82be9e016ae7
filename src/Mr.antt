-- ===== src/Mr.antt =====
-- src/mr: the coordinator that hands the map tasks and then the reduce tasks of a job to workers.
pub mod Coordinator
pub mod Phases
pub mod Handout
mod Examples
