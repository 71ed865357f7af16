-- ===== src/Packet/Forward.antt =====
-- src/flow_plane/packet.rs: `prepare_forwarded_packet`, which checks a packet and takes a hop off.
use new_proxy.Prelude.{
  ℕ, ◌/◌, ◌+◌, ◌-◌, ◌*◌, ◌%◌, not, ◌||◌, ◌&&◌, List, length, take, ltb, leb, nat_beq, if◌then◌else◌,
  Result, ok, err, ◌>>=◌, ◌>>◌, set,
}
use new_proxy.Packet.Bytes.{byte, slice}
use new_proxy.Packet.Header.{
  PacketError, truncated_ip_header, unsupported_ip_version, non_initial_fragment,
  invalid_ip_checksum, invalid_transport_checksum, hop_limit_exceeded, ip_protocol_udp,
  ip_protocol_icmp, version_of, transport_metadata, ip_packet_is_fragmented,
}
use new_proxy.Packet.Checksum.{checksum_finish, internet_checksum, checksum_offset}
use new_proxy.Packet.Udp.{validate_udp_layout}
use new_proxy.Packet.Rewrite.{
  Writes, is_zero_checksum, ipv4_transport_sum, ipv6_transport_sum, write_header_checksum,
}

unfoldable pub validate_ipv4_checksums : List ℕ → ℕ → ℕ → ℕ → Result PacketError (Unit {0})
validate_ipv4_checksums p protocol transport_offset total_len =
    let rest =
      if nat_beq protocol ip_protocol_icmp
      then internet_checksum (slice p transport_offset total_len)
      else checksum_finish (ipv4_transport_sum p transport_offset total_len protocol) in
    if not (nat_beq (internet_checksum (take transport_offset p)) 0)
    then err invalid_ip_checksum
    else if nat_beq protocol ip_protocol_udp && is_zero_checksum p (transport_offset + 6)
    then ok tt
    else if nat_beq rest 0
    then ok tt
    else err invalid_transport_checksum

unfoldable pub validate_ipv6_checksums : List ℕ → ℕ → ℕ → ℕ → Result PacketError (Unit {0})
validate_ipv6_checksums p protocol transport_offset total_len =
    checksum_offset protocol >>= λ offset.
    if nat_beq protocol ip_protocol_udp && is_zero_checksum p (transport_offset + offset)
    then err invalid_transport_checksum
    else if nat_beq (checksum_finish (ipv6_transport_sum p transport_offset total_len protocol)) 0
    then ok tt
    else err invalid_transport_checksum

unfoldable pub validate_packet_checksums : List ℕ → Result PacketError (Unit {0})
validate_packet_checksums p = transport_metadata p >>= λ m.
    let laid_out = if nat_beq m.0 ip_protocol_udp then validate_udp_layout p m.1 m.2 else ok 0 in
    let version = byte p 0 / 16 in
    laid_out >>= λ _.
    if nat_beq version 4
    then validate_ipv4_checksums p m.0 m.1 m.2
    else if nat_beq version 6
    then validate_ipv6_checksums p m.0 m.1 m.2
    else err (unsupported_ip_version version)

-- The hop limit, or time to live, goes down by one; the IPv4 header's checksum is written anew.
unfoldable pub take_hop : List ℕ → ℕ → Writes
take_hop p version =
    let header_len = byte p 0 % 16 * 4 in
    if nat_beq version 4
    then (if ltb header_len 20 || ltb (length p) header_len
        then (p, err truncated_ip_header)
        else if leb (byte p 8) 1
        then (p, err hop_limit_exceeded)
        else (write_header_checksum (set p 8 (byte p 8 - 1)) header_len, ok tt))
    else if nat_beq version 6
    then (if ltb (length p) 40
        then (p, err truncated_ip_header)
        else if leb (byte p 7) 1
        then (p, err hop_limit_exceeded)
        else (set p 7 (byte p 7 - 1), ok tt))
    else (p, err (unsupported_ip_version version))

-- The checks before the packet is written; they give its version.
unfoldable pub check_forwarded : List ℕ → Result PacketError ℕ
check_forwarded p = ip_packet_is_fragmented p >>= λ fragmented.
    if fragmented then err non_initial_fragment else (validate_packet_checksums p >> version_of p)

unfoldable pub prepare_forwarded_packet : List ℕ → Writes
prepare_forwarded_packet p = elim (check_forwarded p) [
  | err e ↦ (p, err e)
  | ok version ↦ take_hop p version
]
