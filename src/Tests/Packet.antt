-- ===== src/Tests/Packet.antt =====
-- src/flow_plane/packet.rs: an IPv4 UDP packet, and the theorems at it.
use new_proxy.Prelude.{
  ℕ, ◌+◌, ◌≤◌, ◌≡◌, refl, arith, List, [], ◌∷◌, length, take, some, is_some, ok, err, true, false,
}
use new_proxy.Net.{v4, udp, FlowKey}
use new_proxy.Packet.Bytes.{byte, get_range, write}
use new_proxy.Packet.Header.{
  version_of, ipv4_lengths, ipv6_length, transport_metadata, ip_packet_is_fragmented,
  hop_limit_exceeded,
}
use new_proxy.Packet.Flow.{transport_ports, build_flow_key, parse_ipv4_flow_key, parse_flow_key}
use new_proxy.Packet.Checksum.{
  checksum_add, checksum_fold, checksum_finish, internet_checksum, checksum_offset,
}
use new_proxy.Packet.Tcp.{clamp_option, clamp_options}
use new_proxy.Packet.Udp.{validate_udp_layout, udp_payload_range}
use new_proxy.Packet.Rewrite.{
  is_zero_checksum, write_header_checksum, rewrite_transport_fields, rewrite_ipv4_packet,
  rewrite_family, rewrite_packet,
}
use new_proxy.Packet.Forward.{
  validate_ipv4_checksums, validate_packet_checksums, take_hop, check_forwarded,
  prepare_forwarded_packet,
}
use new_proxy.Packet.Laws.Sum.{AreBytes}
use new_proxy.Packet.Laws.Hop.{prepare_forwarded_packet-ipv4, prepare_forwarded_packet-err}
use new_proxy.Packet.Laws.Bounds.{transport_metadata-le, udp_payload_range-le}
use new_proxy.Packet.Laws.Loops.{clamp_options-enough}

program : Unit {0}
unfolding get_range write version_of ipv4_lengths ipv6_length transport_metadata
    ip_packet_is_fragmented transport_ports build_flow_key parse_ipv4_flow_key parse_flow_key
    checksum_add checksum_fold checksum_finish internet_checksum checksum_offset validate_udp_layout
    udp_payload_range is_zero_checksum write_header_checksum rewrite_transport_fields
    rewrite_ipv4_packet rewrite_family rewrite_packet validate_ipv4_checksums
    validate_packet_checksums take_hop check_forwarded prepare_forwarded_packet
program = tt

-- From 10.0.0.1 port 1 to 10.0.0.2 port 2, without a UDP checksum.
abbrev datagram : ℕ → ℕ → ℕ → List ℕ
datagram ttl high low =
    0x45 ∷ 0 ∷ 0 ∷ 28 ∷ 0 ∷ 0 ∷ 0 ∷ 0 ∷ ttl ∷ 17 ∷ high ∷ low ∷ 10 ∷ 0 ∷ 0 ∷ 1 ∷ 10 ∷ 0 ∷ 0 ∷ 2 ∷ 0
    ∷ 1 ∷ 0 ∷ 2 ∷ 0 ∷ 8 ∷ 0 ∷ 0 ∷ []

abbrev fresh : List ℕ
fresh = datagram 64 0x66 0xcf

abbrev spent : List ℕ
spent = datagram 1 0xa5 0xcf

fresh-AreBytes : AreBytes fresh
fresh-AreBytes = ground arith

forwarded : (prepare_forwarded_packet fresh).1 ≡ ok tt
unfolding program
forwarded = refl

dropped : (prepare_forwarded_packet spent).1 ≡ err hop_limit_exceeded
unfolding program
dropped = refl

parsed :
    parse_flow_key fresh
    ≡ ok (record {
      source = v4 (10 ∷ 0 ∷ 0 ∷ 1 ∷ []);
      destination = v4 (10 ∷ 0 ∷ 0 ∷ 2 ∷ []);
      source_port = 1;
      destination_port = 2;
      protocol = udp;
    })
unfolding program
parsed = refl

abbrev other_flow : FlowKey
other_flow = record {
  source = v4 (9 ∷ 8 ∷ 7 ∷ 6 ∷ []);
  destination = v4 (10 ∷ 0 ∷ 0 ∷ 2 ∷ []);
  source_port = 1000;
  destination_port = 2;
  protocol = udp;
}

-- A rewritten packet has the translated flow.
rewritten : parse_flow_key (rewrite_packet fresh other_flow).0 ≡ ok other_flow
unfolding program
rewritten = refl

metadata : transport_metadata fresh ≡ ok (17, 20, 28)
unfolding program
metadata = refl

payload : udp_payload_range fresh ≡ ok (28, 28)
unfolding program
payload = refl

prepare_forwarded_packet-ipv4_example :
    (internet_checksum (take 20 (prepare_forwarded_packet fresh).0) ≡ 0)
    × (byte (prepare_forwarded_packet fresh).0 8 + 1 ≡ 64)
    × (1 ≤ byte (prepare_forwarded_packet fresh).0 8)
    × (length (prepare_forwarded_packet fresh).0 ≡ 28)
prepare_forwarded_packet-ipv4_example =
    prepare_forwarded_packet-ipv4 fresh fresh-AreBytes refl forwarded

prepare_forwarded_packet-err_example : (prepare_forwarded_packet spent).0 ≡ spent
prepare_forwarded_packet-err_example = prepare_forwarded_packet-err spent hop_limit_exceeded dropped

transport_metadata-le_example : (20 ≤ 20) × (20 ≤ 28) × (28 ≤ 28)
transport_metadata-le_example = transport_metadata-le fresh (17, 20, 28) metadata

udp_payload_range-le_example : (28 ≤ 28) × (28 ≤ 28) × (28 ≤ 28)
udp_payload_range-le_example = udp_payload_range-le fresh (28, 28) payload

-- The options of a TCP header: an MSS of 1460.
abbrev options : List ℕ
options = 2 ∷ 4 ∷ 5 ∷ 180 ∷ []

clamped : clamp_options 4 1333 0 4 (options, false) ≡ some ((2 ∷ 4 ∷ 5 ∷ 53 ∷ []), true)
unfolding clamp_options clamp_option write
clamped = refl

clamp_options-enough_example :
    (is_some (clamp_options 40 1333 0 4 (options, false)) ≡ true)
    × (clamp_options 40 1333 0 4 (options, false) ≡ clamp_options 4 1333 0 4 (options, false))
clamp_options-enough_example =
    clamp_options-enough 40 4 1333 0 4 (options, false) (omega arith) (omega arith)
