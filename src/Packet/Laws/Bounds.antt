-- ===== src/Packet/Laws/Bounds.antt =====
-- src/flow_plane/packet.rs: the offsets that the header walks give.
use new_proxy.Prelude.{ℕ, zero, suc, ◌+◌, ◌≤◌, ◌≡◌, arith, List, length, ok, Result-cases, inl, inr}
use new_proxy.Packet.Bytes.{byte, from_be_bytes}
use new_proxy.Packet.Header.{
  next_extension, ipv6_transport_offset, ipv4_lengths, ipv6_length, version_of, transport_metadata,
}
use new_proxy.Packet.Udp.{validate_udp_layout, udp_payload_range}

next_extension-le :
    (p : List ℕ) (total_len offset extra unit : ℕ) (e : ℕ × ℕ)
    → next_extension p total_len offset extra unit ≡ ok e
    → (offset ≤ e.1) × (e.1 ≤ total_len)
unfolding next_extension
next_extension-le p total_len offset extra unit e h = ground arith

ipv6_transport_offset-le :
    (rounds : ℕ) (p : List ℕ) (total_len next offset : ℕ) (e : ℕ × ℕ)
    → offset ≤ total_len
    → ipv6_transport_offset rounds p total_len next offset ≡ ok e
    → (offset ≤ e.1) × (e.1 ≤ total_len)
unfolding ipv6_transport_offset
ipv6_transport_offset-le zero p total_len next offset e le h = ground arith
ipv6_transport_offset-le (suc rounds) p total_len next offset e le h =
    let walk : (f : ℕ × ℕ)
        → (offset ≤ f.1) × (f.1 ≤ total_len)
        → ipv6_transport_offset rounds p total_len f.0 f.1 ≡ ok e
        → (offset ≤ e.1) × (e.1 ≤ total_len) =
      λ f le' walked.
        let (c, d) = ipv6_transport_offset-le rounds p total_len f.0 f.1 e le'.1 walked in
        (omega (arith, c, le'.0), d) in
    elim (Result-cases (next_extension p total_len offset 1 8)) [
      | inl (f, stepped) ↦ elim (Result-cases (next_extension p total_len offset 2 4)) [
        | inl (g, stepped') ↦ ground (
          arith,
          walk f (next_extension-le p total_len offset 1 8 f stepped),
          walk g (next_extension-le p total_len offset 2 4 g stepped'),
        )
        | inr (y, failed') ↦
            ground (arith, walk f (next_extension-le p total_len offset 1 8 f stepped))
      ]
      | inr (x, failed) ↦ elim (Result-cases (next_extension p total_len offset 2 4)) [
        | inl (g, stepped') ↦
            ground (arith, walk g (next_extension-le p total_len offset 2 4 g stepped'))
        | inr (y, failed') ↦ ground arith
      ]
    ]

-- Where `transport_metadata` succeeds, the transport header starts behind 20 bytes or more and
-- within the length in the IP header, which is within the packet.
pub transport_metadata-le :
    (p : List ℕ) (m : ℕ × ℕ × ℕ)
    → transport_metadata p ≡ ok m
    → (20 ≤ m.1) × (m.1 ≤ m.2) × (m.2 ≤ length p)
unfolding transport_metadata ipv4_lengths ipv6_length
transport_metadata-le p m h = elim (Result-cases (version_of p)) [
  | inr (x, failed) ↦ absurd (ground arith)
  | inl (v, read) ↦
      elim (Result-cases (ipv6_transport_offset 8 p (40 + from_be_bytes p 4) (byte p 6) 40)) [
        | inr (x, failed) ↦ ground arith
        | inl (e, walked) ↦ ground (
          arith,
          ipv6_transport_offset-le 8 p (40 + from_be_bytes p 4) (byte p 6) 40 e (omega arith)
              walked,
        )
      ]
]

-- Where `udp_payload_range` succeeds, the range starts behind 28 bytes or more, is not reversed
-- and ends within the packet.
pub udp_payload_range-le :
    (p : List ℕ) (r : ℕ × ℕ)
    → udp_payload_range p ≡ ok r
    → (28 ≤ r.0) × (r.0 ≤ r.1) × (r.1 ≤ length p)
unfolding udp_payload_range validate_udp_layout
udp_payload_range-le p r h = elim (Result-cases (transport_metadata p)) [
  | inr (x, failed) ↦ absurd (ground arith)
  | inl (m, read) ↦ ground (arith, transport_metadata-le p m read)
]
