-- ===== src/Packet/Rewrite.antt =====
-- src/flow_plane/packet.rs: `rewrite_packet`, which writes a translated flow into a packet.
use new_proxy.Prelude.{
  ℕ, ◌+◌, ◌-◌, ◌*◌, ◌/◌, ◌%◌, ◌^◌, leb, length, not, ◌&&◌, Bool, List, [], ◌∷◌, ltb, nat_beq, ◌==◌,
  if◌then◌else◌, Result, ok, err, take,
}
use new_proxy.Net.{tcp, udp, icmp, icmpv6, IpAddr, v4, v6, FlowKey, protocol_eq}
use new_proxy.Packet.Bytes.{byte, from_be_bytes, to_be_bytes, slice, write}
use new_proxy.Packet.Header.{
  PacketError, truncated_transport_header, invalid_translation, ip_protocol_udp, ip_protocol_icmp,
  ipv6_transport_offset, rounds,
}
use new_proxy.Packet.Flow.{parse_flow_key}
use new_proxy.Packet.Checksum.{
  checksum_add, checksum_finish, internet_checksum, checksum_offset, encode_udp_zero_checksum,
}

abbrev pub Writes : Type 0
Writes = List ℕ × Result PacketError (Unit {0})

-- On `packet[offset..end]`. The type and the code of an echo message are the bytes of the
-- destination port.
unfoldable pub rewrite_transport_fields : List ℕ → ℕ → ℕ → FlowKey → Writes
rewrite_transport_fields p offset end translated = elim translated.protocol [
  | tcp ↦ ports
  | udp ↦ ports
  | icmp ↦ echo
  | icmpv6 ↦ echo
]
  where
    ports : Writes
    ports = if ltb (end - offset) 4 then (p, err truncated_transport_header) else (
      write (write p offset (to_be_bytes translated.source_port)) (offset + 2)
          (to_be_bytes translated.destination_port),
      ok tt,
    )

    echo : Writes
    echo = if ltb (end - offset) 8 then (p, err truncated_transport_header) else (
      write (write p offset (to_be_bytes translated.destination_port)) (offset + 4)
          (to_be_bytes translated.source_port),
      ok tt,
    )

-- The sum of the IPv4 pseudo header and the transport bytes.
unfoldable pub ipv4_transport_sum : List ℕ → ℕ → ℕ → ℕ → ℕ
ipv4_transport_sum p transport_offset total_len protocol =
    checksum_add
      (checksum_add 0 (slice p 12 20) + protocol + (total_len - transport_offset) % 2 ^ 32)
      (slice p transport_offset total_len)

-- `(value as u32).to_be_bytes()`
abbrev pub u32_bytes : ℕ → List ℕ
u32_bytes value = value / 2 ^ 24 % 256 ∷ value / 2 ^ 16 % 256 ∷ value / 256 % 256 ∷ value % 256 ∷ []

-- The sum of the IPv6 pseudo header and the transport bytes.
unfoldable pub ipv6_transport_sum : List ℕ → ℕ → ℕ → ℕ → ℕ
ipv6_transport_sum p transport_offset total_len protocol =
    checksum_add
      (checksum_add
        (checksum_add (checksum_add 0 (slice p 8 40)) (u32_bytes (total_len - transport_offset)))
        (0 ∷ 0 ∷ 0 ∷ protocol ∷ []))
      (slice p transport_offset total_len)

unfoldable pub write_transport_checksum_ipv4 : List ℕ → ℕ → ℕ → ℕ → Writes
write_transport_checksum_ipv4 p transport_offset total_len protocol =
    elim (checksum_offset protocol) [
      | err e ↦ (p, err e)
      | ok offset ↦
          let cleared = write p (transport_offset + offset) (0 ∷ 0 ∷ []) in
          let checksum =
            if nat_beq protocol ip_protocol_icmp
            then internet_checksum (slice cleared transport_offset total_len)
            else encode_udp_zero_checksum protocol (
                checksum_finish (ipv4_transport_sum cleared transport_offset total_len protocol)) in
          (write cleared (transport_offset + offset) (to_be_bytes checksum), ok tt)
    ]

unfoldable pub write_transport_checksum_ipv6 : List ℕ → ℕ → ℕ → ℕ → Writes
write_transport_checksum_ipv6 p transport_offset total_len protocol =
    elim (checksum_offset protocol) [
      | err e ↦ (p, err e)
      | ok offset ↦
          let cleared = write p (transport_offset + offset) (0 ∷ 0 ∷ []) in
          let checksum =
            encode_udp_zero_checksum protocol
              (checksum_finish (ipv6_transport_sum cleared transport_offset total_len protocol)) in
          (write cleared (transport_offset + offset) (to_be_bytes checksum), ok tt)
    ]

-- `packet.get(offset..offset + 2).is_some_and(|checksum| checksum == [0, 0])`
unfoldable pub is_zero_checksum : List ℕ → ℕ → Bool
is_zero_checksum p offset =
    leb (offset + 2) (length p) && nat_beq (byte p offset) 0 && nat_beq (byte p (offset + 1)) 0

-- The checksum of the IPv4 header, written anew.
unfoldable pub write_header_checksum : List ℕ → ℕ → List ℕ
write_header_checksum p header_len =
    let cleared = write p 10 (0 ∷ 0 ∷ []) in
    write cleared 10 (to_be_bytes (internet_checksum (take header_len cleared)))

unfoldable pub rewrite_ipv4_packet : List ℕ → List ℕ → List ℕ → FlowKey → Writes
rewrite_ipv4_packet p source destination translated =
    let header_len = byte p 0 % 16 * 4 in
    let total_len = from_be_bytes p 2 in
    let addressed = write (write p 12 source) 16 destination in
    let (q, outcome) = rewrite_transport_fields addressed header_len total_len translated in
    elim outcome [
      | err e ↦ (q, err e)
      | ok _ ↦
          let headed = write_header_checksum q header_len in
          let protocol = byte headed 9 in
          if nat_beq protocol ip_protocol_udp && is_zero_checksum headed (header_len + 6)
          then (headed, ok tt)
          else write_transport_checksum_ipv4 headed header_len total_len protocol
    ]

unfoldable pub rewrite_ipv6_packet : List ℕ → List ℕ → List ℕ → FlowKey → Writes
rewrite_ipv6_packet p source destination translated =
    let total_len = 40 + from_be_bytes p 4 in
    elim (ipv6_transport_offset rounds p total_len (byte p 6) 40) [
      | err e ↦ (p, err e)
      | ok (protocol, transport_offset) ↦
          let addressed = write (write p 8 source) 24 destination in
          let (q, outcome) =
            rewrite_transport_fields addressed transport_offset total_len translated in
          elim outcome [
            | err e ↦ (q, err e)
            | ok _ ↦ write_transport_checksum_ipv6 q transport_offset total_len protocol
          ]
    ]

-- The match on the families of the old and the new addresses.
unfoldable pub rewrite_family : List ℕ → IpAddr → IpAddr → FlowKey → IpAddr → IpAddr → Writes
rewrite_family p (v4 _) (v4 _) translated (v4 source) (v4 destination) =
    rewrite_ipv4_packet p source destination translated
rewrite_family p (v6 _) (v6 _) translated (v6 source) (v6 destination) =
    rewrite_ipv6_packet p source destination translated
rewrite_family p _ _ translated _ _ = (p, err invalid_translation)

unfoldable pub rewrite_packet : List ℕ → FlowKey → Writes
rewrite_packet p translated = elim (parse_flow_key p) [
  | err e ↦ (p, err e)
  | ok original ↦
      if not (original.protocol == translated.protocol)
      then (p, err invalid_translation)
      else rewrite_family p original.source original.destination translated translated.source
          translated.destination
]
