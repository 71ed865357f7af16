-- ===== src/Worker.antt =====
-- src/flow_plane/worker.rs: the channels to the flow workers and the state of one flow worker, which
-- puts the packet functions, the session table and the DNS functions together.
pub mod Dispatch
pub mod State
pub mod Servfail
pub mod Intercept
pub mod Reverse
pub mod Transactions
pub mod Dns
pub mod Answer
pub mod Laws
