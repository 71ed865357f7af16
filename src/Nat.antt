-- ===== src/Nat.antt =====
-- src/flow_plane/nat.rs: the reverse NAT directory and the NAT table of one flow worker.
-- `HashMap` and `BTreeSet` are the association lists of HashMap and BTreeMap. An operation that
-- changes the table returns the new table beside its `Result`, on its error branches too.
pub mod Directory
pub mod Table
pub mod Keys
pub mod Invariant
pub mod Outcome
pub mod Leases
pub mod Removal
pub mod Quarantine
pub mod Sharing
pub mod Start
