-- ===== src/Config/Laws.antt =====
-- src/v1_config.rs: the laws of the configuration.
pub mod Lists
pub mod Accepted
pub mod Soundness
