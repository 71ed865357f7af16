-- ===== src/Session.antt =====
-- src/flow_plane/session.rs: the sessions of one flow worker, with their idle deadlines and the
-- NAT table that they lease from. An operation returns the new table beside its `Result`. What the
-- source reads from `Instant::now()` inside an operation is the argument `clock`.
pub mod Tcp
pub mod Deadlines
pub mod Expiry
pub mod Due
pub mod Table
pub mod Bulk
pub mod Invariant
pub mod Replace
pub mod Create
pub mod Again
pub mod Remove
pub mod Expire
pub mod Routing
pub mod TcpLaws
pub mod Flows
pub mod Ephemeral
pub mod Reach
pub mod Spares
