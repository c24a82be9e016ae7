-- ===== src/Dedup.antt =====
-- src/kvraft1/dedup/dedup.go: exactly-once writes, by a client side that numbers its requests and a
-- replicated table of their replies.
pub mod Client
pub mod Table
pub mod Once
pub mod Watermark
pub mod Pending
mod Examples
