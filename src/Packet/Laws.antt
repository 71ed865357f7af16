-- ===== src/Packet/Laws.antt =====
-- src/flow_plane/packet.rs: what the functions on packets do.
pub mod Sum
pub mod Writes
pub mod Hop
pub mod Bounds
pub mod Loops
pub mod Reads
