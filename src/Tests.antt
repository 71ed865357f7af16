-- ===== src/Tests.antt =====
-- Concrete runs of the models, after the unit tests of the sources, and the theorems at them.
mod Nat
mod Session
mod Quic
mod Packet
mod Ports
mod Dns
mod Worker
mod Config
