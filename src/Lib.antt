-- ===== src/Lib.antt =====
-- new_proxy forwards the IP packets of a client through QUIC tunnels: IO workers own the XDP queues,
-- flow workers own the sessions. This library models the flow plane, src/flow_plane, the part that
-- decides where a packet goes, and the configuration that it starts from.
--
-- How the parts interact. An IO worker parses a packet into its flow key (packet.rs) and hands it to
-- a flow worker; a packet of the tunnel goes by its connection identifier (quic_flow.rs).
-- The flow worker finds or makes the session (session.rs), which leases a translated source address
-- and port from the worker's NAT table (nat.rs). A returning packet finds its worker by the reverse
-- NAT directory, which all workers share, and its session by the reverse index of the NAT table.
-- Sessions end by idleness, by removal and with their QUIC flow; the port is free at once, the
-- reverse key only after a quarantine.
--
-- The files:
--   Prelude, HashMap, BTreeMap: tests, lists, results, and the maps as association lists.
--   Net: flow keys and addresses (src/flow_plane/packet.rs), identifiers (src/flow_plane/mod.rs).
--   Packet: src/flow_plane/packet.rs. Bytes reads and writes; Header: transport_metadata,
--     ip_packet_is_fragmented and the IPv6 walks; Flow: parse_flow_key; Checksum; Tcp:
--     parse_tcp_flags and clamp_tcp_mss; Udp: the payload and ensure_udp_payload_len; Rewrite:
--     rewrite_packet; Forward: prepare_forwarded_packet; the proofs are in the Laws modules.
--   IoRegistry: src/flow_plane/io_registry.rs, which IO worker owns an interface queue.
--   Nat: src/flow_plane/nat.rs. Directory and Table hold ReverseNatDirectory and NatTable; Keys,
--     Invariant, Outcome, Leases, Removal, Quarantine, Sharing and Start hold the proofs.
--   Session: src/flow_plane/session.rs. Tcp, Deadlines, Table and Bulk hold the operations; the
--     other modules hold the proofs.
--   Quic: src/flow_plane/quic_flow.rs. Hash and Index hold the operations; the others the proofs.
--   Dns: src/flow_plane/dns.rs. Name, Message, Route, Keys and Transactions hold the names, the message
--     walks, the domain rules, the keys and DnsTransactionTable; the proofs are in the Laws modules.
--   Worker: src/flow_plane/worker.rs. Dispatch holds FlowDispatcher; State the worker's state and the
--     monad of its methods; Intercept, Reverse, Dns, Answer and Servfail the packet handlers;
--     Transactions the indexes of the DNS queries; the proofs are in the Laws modules.
--   Config: src/v1_config.rs. Text holds the operations on text; Types the configuration, its errors and
--     what comes from outside; Ini, Fields, Domains, Prefixes and Dns the parts of the file; Stages
--     and Parse ApplianceConfig::parse; the proofs are in the Laws modules.
--   PortReservation: src/xdp_datapath/port_reservation.rs, the check that the kernel reserves the NAT
--     ports; the text of its setting is taken as terms.
--   Tests: concrete runs.
--
-- How state is modelled. A method with `&mut self` is a function that returns the new state beside its
-- result, on its error branches too. A HashMap is an association list without repeated keys, whose
-- order no function but a loop over the map depends on; a BTreeMap is one in ascending order. Numbers
-- are natural numbers; where the source wraps around the modulus is written out (`wrapping_add` of the
-- session identifier, the FNV-1a product, the cast to u32). An Instant is a number of nanoseconds. A
-- method that reads the clock inside takes the reading as an argument, so that it may be later or
-- earlier than the `now` that its caller passes.
--
-- A method of the worker is an action: a function of the state that returns the new state and a result,
-- in a monad whose bind stops at an error and keeps what was written before it. An `expect` on a
-- session that a packet finds or makes, on a transaction that an index names and on the identifier of a
-- query is an error of its own, `panicked`, where it fails. The other `expect`s follow in the source on the
-- test or the insertion that makes them hold (`pop_first` behind `first_key_value`, the NAT binding just
-- inserted); in the model the branch has the value at hand. A packet buffer that is dropped on an error is not part of the state.
--
-- A configuration is read from a text of ASCII codes. What the parsers of socket addresses, IP addresses
-- and prefixes return, and what the files hold, are the fields of a record that the functions take, so
-- that the theorems hold of any parsers.
--
-- Bounds and fuel. The IPv6 walks have the eight rounds of their `for` loops. checksum_finish folds
-- twice, which is enough for a u32. The loop of clamp_tcp_mss has 40 rounds, as many as an options
-- field has bytes; where rounds ran out it would give nothing. The walks of a
-- DNS name have the 128 rounds of their `for` loops. The loop that evicts answered DNS replies has one
-- round for each entry of its order. All other loops recurse on a list or on a count that the message
-- states.
--
-- What is not modelled. The broadcast of the dispatcher (src/flow_plane/worker.rs), the QUIC engine
-- (src/quic_engine.rs), the XDP datapath (src/xdp_datapath) but for its port reservation, and there the
-- splitting of the kernel's text into terms. Hash collisions of a HashMap and allocation failures are
-- left out.
pub mod Prelude
pub mod HashMap
pub mod BTreeMap
pub mod Net
pub mod Packet
pub mod IoRegistry
pub mod Nat
pub mod Session
pub mod Quic
pub mod PortReservation
pub mod Dns
pub mod Worker
pub mod Config
mod Tests
