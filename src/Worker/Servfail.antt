-- ===== src/Worker/Servfail.antt =====
-- src/flow_plane/worker.rs: the answer to a DNS query that fails, and the EDNS size of a query.
use new_proxy.Prelude.{
  ℕ, ◌+◌, Bool, true, false, Option, none, some, List, [], ◌∷◌, bit_and, bit_or, Result, ok, err,
  ◌>>=◌,
}
use new_proxy.Net.{IoOwnerKey, FlowKey, udp}
use new_proxy.Packet.Bytes.{from_be_bytes, to_be_bytes, slice, write}
use new_proxy.Packet.Header.{PacketError}
use new_proxy.Packet.Flow.{parse_flow_key}
use new_proxy.Packet.Udp.{udp_payload_range, ensure_udp_payload_len}
use new_proxy.Packet.Rewrite.{rewrite_packet}
use new_proxy.Dns.Message.{clamp_edns_udp_payload}
use new_proxy.Dns.Route.{SocketAddr}
use new_proxy.Worker.State.{IoTransmit, DnsFlowConfig}

-- A buffer that a function has written, or its error.
abbrev pub buffer_of : {A : Type 0} → List ℕ × Result PacketError A → Result PacketError (List ℕ)
buffer_of (p, ok _) = ok p
buffer_of (p, err e) = err e

-- The clamped packet is written anew for its checksums. A payload that cannot be walked leaves the
-- packet as it is.
unfoldable pub edns_clamp_packet : List ℕ → Result PacketError (List ℕ × Option Bool)
edns_clamp_packet packet = parse_flow_key packet >>= λ flow. udp_payload_range packet >>= λ range.
    let (payload, outcome) = clamp_edns_udp_payload (slice packet range.0 range.1) in
    elim outcome [
      | err _ ↦ ok (packet, none)
      | ok false ↦ ok (packet, some false)
      | ok true ↦ buffer_of (rewrite_packet (write packet range.0 payload) flow) >>= λ buffer.
          ok (buffer, some true)
    ]

abbrev pub ensure_minimum_dns_response : List ℕ → List ℕ × Result PacketError (Unit {0})
ensure_minimum_dns_response packet = ensure_udp_payload_len packet 12

-- `flags |= 0x8000; flags = (flags & !0x000f) | 0x0002`
abbrev pub servfail_flags : ℕ → ℕ
servfail_flags flags = bit_or (bit_and (bit_or flags 0x8000) 0xfff0) 0x0002

-- The header of the answer: its flags, and no records.
unfoldable pub write_servfail : List ℕ → ℕ → List ℕ
write_servfail packet start =
    write
      (write packet (start + 2) (to_be_bytes (servfail_flags (from_be_bytes packet (start + 2)))))
      (start + 6) (0 ∷ 0 ∷ 0 ∷ 0 ∷ 0 ∷ 0 ∷ [])

unfoldable pub dns_servfail_transmit_to_listen :
    IoOwnerKey → List ℕ → FlowKey → SocketAddr → Result PacketError IoTransmit
dns_servfail_transmit_to_listen target packet flow listen =
    buffer_of (ensure_minimum_dns_response packet) >>= λ padded.
    udp_payload_range padded >>= λ range.
    buffer_of (
      rewrite_packet (write_servfail padded range.0) (record {
        source = listen.ip;
        destination = flow.source;
        source_port = listen.port;
        destination_port = flow.source_port;
        protocol = udp;
      }))
    >>= λ rewritten. ok (record { target = target; packet = rewritten; outer = none })

abbrev pub dns_servfail_transmit :
    IoOwnerKey → List ℕ → FlowKey → DnsFlowConfig → Result PacketError IoTransmit
dns_servfail_transmit target packet flow config =
    dns_servfail_transmit_to_listen target packet flow config.listen
