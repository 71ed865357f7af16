-- ===== src/Dns/Laws.antt =====
-- src/flow_plane/dns.rs: what the functions on DNS messages do.
pub mod Domains
pub mod Names
pub mod Walks
pub mod Places
pub mod Clamp
