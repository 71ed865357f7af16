-- ===== src/Packet/Udp.antt =====
-- src/flow_plane/packet.rs: the UDP payload and its padding.
use new_proxy.Prelude.{
  ℕ, zero, suc, ◌+◌, ◌-◌, ◌/◌, not, ◌||◌, List, [], ◌∷◌, ◌++◌, length, take, ltb, leb, nat_beq,
  if◌then◌else◌, Result, ok, err, ◌>>=◌, ok_or,
}
use new_proxy.Packet.Bytes.{byte, from_be_bytes, to_be_bytes, slice, get_range, write}
use new_proxy.Packet.Header.{
  PacketError, truncated_transport_header, invalid_ip_length, unsupported_protocol,
  unsupported_ip_version, ip_protocol_udp, transport_metadata,
}

unfoldable pub validate_udp_layout : List ℕ → ℕ → ℕ → Result PacketError ℕ
validate_udp_layout p transport_offset total_len =
    ok_or (get_range p transport_offset (transport_offset + 8)) truncated_transport_header
    >>= λ header.
        let udp_len = from_be_bytes header 4 in
        if ltb udp_len 8
        then err invalid_ip_length
        else if not (nat_beq (transport_offset + udp_len) total_len)
        then err invalid_ip_length
        else if ltb (length p) (transport_offset + udp_len)
        then err invalid_ip_length
        else ok udp_len

unfoldable pub udp_payload_range : List ℕ → Result PacketError (ℕ × ℕ)
udp_payload_range p = transport_metadata p >>= λ m.
    if not (nat_beq m.0 ip_protocol_udp)
    then err (unsupported_protocol m.0)
    else (validate_udp_layout p m.1 m.2 >>= λ udp_len. ok (m.1 + 8, m.1 + udp_len))

unfoldable pub udp_payload : List ℕ → Result PacketError (List ℕ)
udp_payload p = udp_payload_range p >>= λ range. ok (slice p range.0 range.1)

unfoldable pub zeros : ℕ → List ℕ
zeros zero = []
zeros (suc n) = 0 ∷ zeros n

-- `packet.resize(len, 0)`
unfoldable pub resize : List ℕ → ℕ → List ℕ
resize p len = take len p ++ zeros (len - length p)

-- The writes of `ensure_udp_payload_len` once the packet has its new size: the UDP length, then the
-- length in the IP header.
unfoldable pub grow : List ℕ → ℕ → ℕ → ℕ → ℕ → List ℕ × Result PacketError (Unit {0})
grow p transport_offset total_len missing new_udp_len =
    let grown =
      write (resize p (total_len + missing)) (transport_offset + 4) (to_be_bytes new_udp_len) in
    let version = byte grown 0 / 16 in
    if nat_beq version 4
    then (if ltb 65535 (total_len + missing)
        then (grown, err invalid_ip_length)
        else (write grown 2 (to_be_bytes (total_len + missing)), ok tt))
    else if nat_beq version 6
    then (if ltb total_len 40 || ltb 65535 (total_len - 40 + missing)
        then (grown, err invalid_ip_length)
        else (write grown 4 (to_be_bytes (total_len - 40 + missing)), ok tt))
    else (grown, err (unsupported_ip_version version))

unfoldable pub ensure_udp_payload_len : List ℕ → ℕ → List ℕ × Result PacketError (Unit {0})
ensure_udp_payload_len p minimum = elim (transport_metadata p) [
  | err e ↦ (p, err e)
  | ok (protocol, transport_offset, total_len) ↦
      if not (nat_beq protocol ip_protocol_udp)
      then (p, err (unsupported_protocol protocol))
      else elim (validate_udp_layout p transport_offset total_len) [
        | err e ↦ (p, err e)
        | ok udp_len ↦
            let payload_len = udp_len - 8 in
            let missing = minimum - payload_len in
            if leb minimum payload_len
            then (p, ok tt)
            else if ltb 65535 (udp_len + missing)
            then (p, err invalid_ip_length)
            else grow p transport_offset total_len missing (udp_len + missing)
      ]
]
