-- ===== src/Worker/Laws.antt =====
-- src/flow_plane/worker.rs: the laws of the methods of a worker.
pub mod Invariant
pub mod Packets
pub mod Replies
pub mod Leases
pub mod Removal
pub mod Drain
pub mod Queries
pub mod Answers
pub mod Reach
