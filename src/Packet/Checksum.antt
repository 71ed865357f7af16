-- ===== src/Packet/Checksum.antt =====
-- src/flow_plane/packet.rs: the Internet checksum.
use new_proxy.Prelude.{
  ℕ, zero, suc, ◌+◌, ◌-◌, ◌*◌, ◌/◌, ◌%◌, ◌&&◌, ◌||◌, List, [], ◌∷◌, nat_beq, if◌then◌else◌, Result,
  ok, err,
}
use new_proxy.Packet.Header.{
  PacketError, unsupported_protocol, ip_protocol_tcp, ip_protocol_udp, ip_protocol_icmp,
  ip_protocol_icmpv6,
}

-- The `u32` sum is written without its wrap-around: a packet is too short to reach it.
unfoldable pub checksum_add : ℕ → List ℕ → ℕ
checksum_add sum [] = sum
checksum_add sum (b ∷ []) = sum + b * 256
checksum_add sum (a ∷ b ∷ bytes) = checksum_add (sum + (a * 256 + b)) bytes

-- The `while` loop of `checksum_finish`, in so many rounds at most.
unfoldable pub checksum_fold : ℕ → ℕ → ℕ
checksum_fold zero sum = sum
checksum_fold (suc rounds) sum =
    if nat_beq (sum / 65536) 0 then sum else checksum_fold rounds (sum % 65536 + sum / 65536)

-- Two rounds are enough for a `u32`.
unfoldable pub checksum_finish : ℕ → ℕ
unfolding checksum_fold
checksum_finish sum = 65535 - checksum_fold 2 sum % 65536

unfoldable pub internet_checksum : List ℕ → ℕ
internet_checksum bytes = checksum_finish (checksum_add 0 bytes)

unfoldable pub checksum_offset : ℕ → Result PacketError ℕ
checksum_offset protocol =
    if nat_beq protocol ip_protocol_tcp
    then ok 16
    else if nat_beq protocol ip_protocol_udp
    then ok 6
    else if nat_beq protocol ip_protocol_icmp || nat_beq protocol ip_protocol_icmpv6
    then ok 2
    else err (unsupported_protocol protocol)

unfoldable pub encode_udp_zero_checksum : ℕ → ℕ → ℕ
encode_udp_zero_checksum protocol checksum =
    if nat_beq protocol ip_protocol_udp && nat_beq checksum 0 then 65535 else checksum
