-- ===== src/Packet.antt =====
-- src/flow_plane/packet.rs: IP packets, their flow keys, lengths, checksums and rewriting. A packet
-- is the list of its bytes; a function that writes it returns the new bytes beside its `Result`, on
-- its error branches too.
pub mod Bytes
pub mod Header
pub mod Flow
pub mod Checksum
pub mod Tcp
pub mod Udp
pub mod Rewrite
pub mod Forward
pub mod Laws
