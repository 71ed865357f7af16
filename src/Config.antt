-- ===== src/Config.antt =====
-- src/v1_config.rs: the configuration file and its validation. A text is the list of its ASCII codes.
-- What the parsers of addresses and of prefixes return, and what files hold, are parameters.
pub mod Text
pub mod Types
pub mod Ini
pub mod Fields
pub mod Domains
pub mod Prefixes
pub mod Dns
pub mod Stages
pub mod Parse
pub mod Laws
