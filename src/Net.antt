-- ===== src/Net.antt =====
-- Addresses, flow keys and identifiers: src/flow_plane/packet.rs (`TransportProtocol`, `FlowKey`),
-- src/flow_plane/mod.rs (`SessionId`, `QuicFlowId`) and src/flow_plane/io_registry.rs
-- (`IoOwnerKey`). An address is the list of its octets; ports and identifiers are numbers.
use new_proxy.Prelude.{
  ℕ, Bool, true, false, ◌&&◌, List, [], ◌∷◌, ◌≡◌, ◌↔◌, arith, Eq, ◌==◌, nat_eq, ◌*◌,
}

module _ {ℓ} {A : Type ℓ} ⦃e : Eq A⦄ where
  unfoldable pub list_beq : List A → List A → Bool
  list_beq [] [] = true
  list_beq (x ∷ xs) (y ∷ ys) = x == y && list_beq xs ys
  list_beq _ _ = false

  pub list_beq_iff : (xs ys : List A) → (list_beq xs ys ≡ true) ↔ (xs ≡ ys)
  unfolding list_beq
  list_beq_iff [] [] = ground arith
  list_beq_iff (x ∷ xs) (y ∷ ys) = ground (arith, e.beq_iff x y, list_beq_iff xs ys)
  list_beq_iff [] (y ∷ ys) = ground arith
  list_beq_iff (x ∷ xs) [] = ground arith

  instance abbrev pub list_eq : Eq (List A)
  list_eq = record { beq = list_beq; beq_iff = list_beq_iff }

abbrev pub SessionId : Type 0
SessionId = ℕ

abbrev pub QuicFlowId : Type 0
QuicFlowId = ℕ

-- `Instant` and `Duration`, in nanoseconds.
abbrev pub Instant : Type 0
Instant = ℕ

abbrev pub from_secs : ℕ → ℕ
from_secs s = s * 1_000_000_000

pub data TransportProtocol : Type 0 where
  tcp udp icmp icmpv6 : TransportProtocol

abbrev protocol_beq : TransportProtocol → TransportProtocol → Bool
protocol_beq tcp tcp = true
protocol_beq udp udp = true
protocol_beq icmp icmp = true
protocol_beq icmpv6 icmpv6 = true
protocol_beq _ _ = false

pub protocol_beq_iff : (a b : TransportProtocol) → (protocol_beq a b ≡ true) ↔ (a ≡ b)
protocol_beq_iff a b = ground arith

instance abbrev pub protocol_eq : Eq TransportProtocol
protocol_eq = record { beq = protocol_beq; beq_iff = protocol_beq_iff }

-- `ICMP | ICMPv6`
abbrev pub is_icmp : TransportProtocol → Bool
is_icmp tcp = false
is_icmp udp = false
is_icmp icmp = true
is_icmp icmpv6 = true

pub data IpAddr : Type 0 where
  v4 v6 : List ℕ → IpAddr

unfoldable pub ip_beq : IpAddr → IpAddr → Bool
ip_beq (v4 a) (v4 b) = a == b
ip_beq (v6 a) (v6 b) = a == b
ip_beq _ _ = false

pub ip_beq_iff : (a b : IpAddr) → (ip_beq a b ≡ true) ↔ (a ≡ b)
unfolding ip_beq
ip_beq_iff (v4 a) (v4 b) = ground (arith, list_beq_iff a b)
ip_beq_iff (v6 a) (v6 b) = ground (arith, list_beq_iff a b)
ip_beq_iff (v4 a) (v6 b) = ground arith
ip_beq_iff (v6 a) (v4 b) = ground arith

instance abbrev pub ip_eq : Eq IpAddr
ip_eq = record { beq = ip_beq; beq_iff = ip_beq_iff }

pub record FlowKey : Type 0 where
  pub source : IpAddr
  pub destination : IpAddr
  pub source_port : ℕ
  pub destination_port : ℕ
  pub protocol : TransportProtocol

unfoldable pub flow_beq : FlowKey → FlowKey → Bool
flow_beq a b =
    a.source == b.source
    && (a.destination == b.destination
        && (a.source_port == b.source_port
            && (a.destination_port == b.destination_port && a.protocol == b.protocol)))

pub flow_beq_iff : (a b : FlowKey) → (flow_beq a b ≡ true) ↔ (a ≡ b)
unfolding flow_beq
flow_beq_iff a b = ground (
  arith,
  ip_beq_iff a.source b.source,
  ip_beq_iff a.destination b.destination,
  protocol_beq_iff a.protocol b.protocol,
)

instance abbrev pub flow_eq : Eq FlowKey
flow_eq = record { beq = flow_beq; beq_iff = flow_beq_iff }

-- `FlowKey::reverse`
unfoldable pub reverse : FlowKey → FlowKey
reverse f = record {
  source = f.destination;
  destination = f.source;
  source_port = f.destination_port;
  destination_port = f.source_port;
  protocol = f.protocol;
}

pub record IoOwnerKey : Type 0 where
  pub ifindex : ℕ
  pub queue_id : ℕ

abbrev io_beq : IoOwnerKey → IoOwnerKey → Bool
io_beq a b = a.ifindex == b.ifindex && a.queue_id == b.queue_id

pub io_beq_iff : (a b : IoOwnerKey) → (io_beq a b ≡ true) ↔ (a ≡ b)
io_beq_iff a b = ground arith

instance abbrev pub io_eq : Eq IoOwnerKey
io_eq = record { beq = io_beq; beq_iff = io_beq_iff }
