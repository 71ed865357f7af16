-- ===== src/Packet/Flow.antt =====
-- src/flow_plane/packet.rs: `parse_flow_key`.
use new_proxy.Prelude.{
  ℕ, ◌*◌, ◌/◌, not, ◌||◌, List, length, ltb, nat_beq, if◌then◌else◌, bit_and, Result, ok, err,
  ◌>>=◌, ok_or,
}
use new_proxy.Net.{TransportProtocol, tcp, udp, icmp, icmpv6, IpAddr, v4, v6, FlowKey}
use new_proxy.Packet.Bytes.{byte, from_be_bytes, slice, get_range}
use new_proxy.Packet.Header.{
  PacketError, truncated_transport_header, invalid_ip_length, unsupported_icmp_type,
  unsupported_protocol, unsupported_ip_version, non_initial_fragment, ip_protocol_tcp,
  ip_protocol_udp, ip_protocol_icmp, ip_protocol_icmpv6, version_of, ipv4_lengths, ipv6_length,
  ipv6_transport_offset, rounds,
}

-- The identifier of an echo message stands for the source port, its type and code for the
-- destination port.
unfoldable pub transport_ports : ℕ → List ℕ → Result PacketError (ℕ × ℕ × TransportProtocol)
transport_ports protocol transport =
    if nat_beq protocol ip_protocol_tcp
    then (ok_or (get_range transport 0 20) truncated_transport_header >>= λ header.
        let header_len = byte header 12 / 16 * 4 in
        if ltb header_len 20 || ltb (length transport) header_len
        then err truncated_transport_header
        else ok (from_be_bytes header 0, from_be_bytes header 2, tcp))
    else if nat_beq protocol ip_protocol_udp
    then (ok_or (get_range transport 0 8) truncated_transport_header >>= λ ports.
        let udp_len = from_be_bytes ports 4 in
        if ltb udp_len 8 || not (nat_beq udp_len (length transport))
        then err invalid_ip_length
        else ok (from_be_bytes ports 0, from_be_bytes ports 2, udp))
    else if nat_beq protocol ip_protocol_icmp || nat_beq protocol ip_protocol_icmpv6
    then (ok_or (get_range transport 0 8) truncated_transport_header >>= λ message.
        let supported =
          if nat_beq protocol ip_protocol_icmp
          then nat_beq (byte message 0) 0 || nat_beq (byte message 0) 8
          else nat_beq (byte message 0) 128 || nat_beq (byte message 0) 129 in
        if not supported || not (nat_beq (byte message 1) 0)
        then err (unsupported_icmp_type (byte message 0))
        else ok (
          from_be_bytes message 4,
          from_be_bytes message 0,
          (if nat_beq protocol ip_protocol_icmp then icmp else icmpv6),
        ))
    else err (unsupported_protocol protocol)

unfoldable pub build_flow_key : IpAddr → IpAddr → ℕ → List ℕ → Result PacketError FlowKey
build_flow_key source destination protocol transport =
    transport_ports protocol transport >>= λ ports. ok (record {
      source = source;
      destination = destination;
      source_port = ports.0;
      destination_port = ports.1;
      protocol = ports.2;
    })

unfoldable pub parse_ipv4_flow_key : List ℕ → Result PacketError FlowKey
parse_ipv4_flow_key p = ipv4_lengths p >>= λ l.
    if not (nat_beq (bit_and (from_be_bytes p 6) 0x3fff) 0)
    then err non_initial_fragment
    else build_flow_key (v4 (slice p 12 16)) (v4 (slice p 16 20)) (byte p 9) (slice p l.0 l.1)

unfoldable pub parse_ipv6_flow_key : List ℕ → Result PacketError FlowKey
parse_ipv6_flow_key p = ipv6_length p >>= λ total_len.
    ipv6_transport_offset rounds p total_len (byte p 6) 40 >>= λ e.
    build_flow_key (v6 (slice p 8 24)) (v6 (slice p 24 40)) e.0 (slice p e.1 total_len)

unfoldable pub parse_flow_key : List ℕ → Result PacketError FlowKey
parse_flow_key p = version_of p >>= λ version.
    if nat_beq version 4
    then parse_ipv4_flow_key p
    else if nat_beq version 6
    then parse_ipv6_flow_key p
    else err (unsupported_ip_version version)
