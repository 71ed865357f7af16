-- ===== src/Packet/Tcp.antt =====
-- src/flow_plane/packet.rs: the TCP flags, and the clamping of the MSS option.
use new_proxy.Prelude.{
  ℕ, zero, suc, ◌+◌, ◌*◌, ◌/◌, Bool, true, false, not, ◌||◌, ◌&&◌, Option, none, some, List, ltb,
  leb, nat_beq, if◌then◌else◌, bit_and, Result, ok, err, ◌>>=◌, ok_or,
}
use new_proxy.Packet.Bytes.{byte, from_be_bytes, to_be_bytes, get_range, write}
use new_proxy.Packet.Header.{
  PacketError, truncated_transport_header, ip_protocol_tcp, transport_metadata,
}

abbrev pub tcp_max_safe_mss : ℕ
tcp_max_safe_mss = 1333

unfoldable pub parse_tcp_flags : List ℕ → Result PacketError (Option ℕ)
parse_tcp_flags p = transport_metadata p >>= λ m.
    let transport_offset = m.1 in
    if not (nat_beq m.0 ip_protocol_tcp)
    then ok none
    else (ok_or (get_range p transport_offset (transport_offset + 20)) truncated_transport_header
        >>= λ header.
            let header_len = byte header 12 / 16 * 4 in
            if ltb header_len 20 || ltb m.2 (transport_offset + header_len)
            then err truncated_transport_header
            else ok (some (byte header 13)))

-- The write of an MSS option whose value is too large.
unfoldable pub clamp_option : ℕ → List ℕ → ℕ → ℕ → List ℕ × Bool → List ℕ × Bool
clamp_option max_mss p opt_offset len state =
    if nat_beq (byte p opt_offset) 2
      && nat_beq len 4
      && ltb max_mss (from_be_bytes p (opt_offset + 2))
    then (write p (opt_offset + 2) (to_be_bytes max_mss), true)
    else state

-- The `while` loop of `clamp_tcp_mss`. Its first argument bounds the rounds; each goes forward by a
-- byte or more. Nothing where the rounds run out before the loop ends.
unfoldable pub clamp_options : ℕ → ℕ → ℕ → ℕ → List ℕ × Bool → Option (List ℕ × Bool)
clamp_options zero max_mss opt_offset opt_end state =
    if leb opt_end opt_offset then some state else none
clamp_options (suc fuel) max_mss opt_offset opt_end state =
    let p = state.0 in
    let kind = byte p opt_offset in
    let len = byte p (opt_offset + 1) in
    let padded = clamp_options fuel max_mss (opt_offset + 1) opt_end state in
    let clamped =
      clamp_options fuel max_mss (opt_offset + len) opt_end
        (clamp_option max_mss p opt_offset len state) in
    if leb opt_end opt_offset || nat_beq kind 0
    then some state
    else if nat_beq kind 1
    then padded
    else if leb opt_end (opt_offset + 1) || ltb len 2 || ltb opt_end (opt_offset + len)
    then some state
    else clamped

-- An options field has at most 40 bytes, so that the loop of `clamp_tcp_mss` ends in its rounds.
abbrev pub max_options : ℕ
max_options = 40

unfoldable pub clamp_tcp_mss : List ℕ → ℕ → List ℕ × Result PacketError Bool
clamp_tcp_mss p max_mss = elim (transport_metadata p) [
  | err e ↦ (p, err e)
  | ok (protocol, transport_offset, total_len) ↦
      if not (nat_beq protocol ip_protocol_tcp)
      then (p, ok false)
      else elim (get_range p transport_offset (transport_offset + 20)) [
        | none ↦ (p, err truncated_transport_header)
        | some header ↦
            let header_len = byte header 12 / 16 * 4 in
            let clamped =
              clamp_options max_options max_mss (transport_offset + 20)
                (transport_offset + header_len) (p, false) in
            if nat_beq (bit_and (byte header 13) 0x02) 0
            then (p, ok false)
            else if ltb header_len 20 || ltb total_len (transport_offset + header_len)
            then (p, err truncated_transport_header)
            else elim clamped [
              | some (written, changed) ↦ (written, ok changed)
              | none ↦ (p, ok false)
            ]
      ]
]
