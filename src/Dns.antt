-- ===== src/Dns.antt =====
-- src/flow_plane/dns.rs: DNS messages and how a query is routed.
pub mod Name
pub mod Message
pub mod Route
pub mod Keys
pub mod Transactions
pub mod Laws
