-- ===== src/Packet/Header.antt =====
-- src/flow_plane/packet.rs: the errors, the IP headers and the walk along IPv6 extension headers.
use new_proxy.Prelude.{
  ℕ, zero, suc, ◌+◌, ◌*◌, ◌/◌, ◌%◌, Bool, true, false, not, ◌||◌, List, [], ◌∷◌, length, ltb, leb,
  nat_beq, if◌then◌else◌, bit_and, Result, ok, err, ◌>>=◌, ok_or,
}
use new_proxy.Packet.Bytes.{byte, from_be_bytes, get_range}

pub data PacketError : Type 0 where
  truncated_ip_header invalid_ip_length truncated_transport_header : PacketError
  unsupported_ip_version unsupported_protocol unsupported_icmp_type : ℕ → PacketError
  non_initial_fragment extension_header_chain_too_long invalid_translation : PacketError
  invalid_ip_checksum invalid_transport_checksum hop_limit_exceeded : PacketError

abbrev pub ip_protocol_icmp : ℕ
ip_protocol_icmp = 1

abbrev pub ip_protocol_tcp : ℕ
ip_protocol_tcp = 6

abbrev pub ip_protocol_udp : ℕ
ip_protocol_udp = 17

abbrev pub ip_protocol_routing : ℕ
ip_protocol_routing = 43

abbrev pub ip_protocol_fragment : ℕ
ip_protocol_fragment = 44

abbrev pub ip_protocol_esp : ℕ
ip_protocol_esp = 50

abbrev pub ip_protocol_ah : ℕ
ip_protocol_ah = 51

abbrev pub ip_protocol_icmpv6 : ℕ
ip_protocol_icmpv6 = 58

abbrev pub ip_protocol_no_next_header : ℕ
ip_protocol_no_next_header = 59

abbrev pub ip_protocol_destination_options : ℕ
ip_protocol_destination_options = 60

abbrev pub ip_protocol_hop_by_hop : ℕ
ip_protocol_hop_by_hop = 0

-- `packet.first().ok_or(TruncatedIpHeader)? >> 4`
unfoldable pub version_of : List ℕ → Result PacketError ℕ
version_of [] = err truncated_ip_header
version_of (b ∷ p) = ok (b / 16)

-- The checks that the IPv4 branches share: the header's length and the packet's.
unfoldable pub ipv4_lengths : List ℕ → Result PacketError (ℕ × ℕ)
ipv4_lengths p =
    let header_len = byte p 0 % 16 * 4 in
    let total_len = from_be_bytes p 2 in
    if ltb (length p) 20
    then err truncated_ip_header
    else if ltb header_len 20 || ltb (length p) header_len
    then err truncated_ip_header
    else if ltb total_len header_len || ltb (length p) total_len
    then err invalid_ip_length
    else ok (header_len, total_len)

-- The checks that the IPv6 branches share: the packet's length.
unfoldable pub ipv6_length : List ℕ → Result PacketError ℕ
ipv6_length p =
    let total_len = 40 + from_be_bytes p 4 in
    if ltb (length p) 40
    then err truncated_ip_header
    else if ltb (length p) total_len
    then err invalid_ip_length
    else ok total_len

-- The headers whose length counts words of eight bytes.
unfoldable pub is_option_header : ℕ → Bool
is_option_header next =
    nat_beq next ip_protocol_hop_by_hop
    || nat_beq next ip_protocol_routing
    || nat_beq next ip_protocol_destination_options

-- One step along an extension header whose length is `(header[1] + extra) * unit`: the next header
-- and where it starts.
unfoldable pub next_extension : List ℕ → ℕ → ℕ → ℕ → ℕ → Result PacketError (ℕ × ℕ)
next_extension p total_len offset extra unit =
    ok_or (get_range p offset (offset + 2)) truncated_transport_header >>= λ header.
    let end = offset + (byte header 1 + extra) * unit in
    if leb end total_len then ok (byte header 0, end) else err truncated_transport_header

-- `ipv6_transport_offset`; the first argument counts the rounds of its `for` loop.
unfoldable pub ipv6_transport_offset : ℕ → List ℕ → ℕ → ℕ → ℕ → Result PacketError (ℕ × ℕ)
ipv6_transport_offset zero p total_len next offset = err extension_header_chain_too_long
ipv6_transport_offset (suc rounds) p total_len next offset =
    if is_option_header next
    then (next_extension p total_len offset 1 8 >>= λ e.
        ipv6_transport_offset rounds p total_len e.0 e.1)
    else if nat_beq next ip_protocol_fragment
    then (ok_or (get_range p offset (offset + 8)) truncated_transport_header >>= λ _.
        err non_initial_fragment)
    else if nat_beq next ip_protocol_ah
    then (next_extension p total_len offset 2 4 >>= λ e.
        ipv6_transport_offset rounds p total_len e.0 e.1)
    else if nat_beq next ip_protocol_esp || nat_beq next ip_protocol_no_next_header
    then err (unsupported_protocol next)
    else ok (next, offset)

unfoldable pub ipv6_has_fragment_header : ℕ → List ℕ → ℕ → ℕ → ℕ → Result PacketError Bool
ipv6_has_fragment_header zero p total_len next offset = err extension_header_chain_too_long
ipv6_has_fragment_header (suc rounds) p total_len next offset =
    if is_option_header next
    then (next_extension p total_len offset 1 8 >>= λ e.
        ipv6_has_fragment_header rounds p total_len e.0 e.1)
    else if nat_beq next ip_protocol_fragment
    then ok true
    else if nat_beq next ip_protocol_ah
    then (next_extension p total_len offset 2 4 >>= λ e.
        ipv6_has_fragment_header rounds p total_len e.0 e.1)
    else ok false

-- The `for _ in 0..8` of both walks.
abbrev pub rounds : ℕ
rounds = 8

unfoldable pub ip_packet_is_fragmented : List ℕ → Result PacketError Bool
ip_packet_is_fragmented p = version_of p >>= λ version.
    if nat_beq version 4
    then (ipv4_lengths p >>= λ _. ok (not (nat_beq (bit_and (from_be_bytes p 6) 0x3fff) 0)))
    else if nat_beq version 6
    then (ipv6_length p >>= λ total_len. ipv6_has_fragment_header rounds p total_len (byte p 6) 40)
    else err (unsupported_ip_version version)

-- The transport protocol, where its header starts, and the packet's length.
unfoldable pub transport_metadata : List ℕ → Result PacketError (ℕ × ℕ × ℕ)
transport_metadata p = version_of p >>= λ version.
    if nat_beq version 4
    then (ipv4_lengths p >>= λ l. ok (byte p 9, l.0, l.1))
    else if nat_beq version 6
    then (ipv6_length p >>= λ total_len.
        ipv6_transport_offset rounds p total_len (byte p 6) 40 >>= λ e. ok (e.0, e.1, total_len))
    else err (unsupported_ip_version version)
