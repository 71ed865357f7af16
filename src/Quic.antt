-- ===== src/Quic.antt =====
-- src/flow_plane/quic_flow.rs: QUIC flows, the worker that a connection identifier (DCID) starts on,
-- and the index of the identifiers that are in use. A DCID is the list of its bytes.
pub mod Hash
pub mod Index
pub mod Invariant
pub mod Publish
pub mod Batch
pub mod Close
pub mod Reach
