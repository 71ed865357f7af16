-- ===== src/Nat/Keys.antt =====
-- src/flow_plane/nat.rs: which returning packets a reverse key stands for.
use new_proxy.Prelude.{ℕ, true, false, ◌≡◌, arith, if◌then◌else◌}
use new_proxy.Net.{FlowKey, is_icmp}
use new_proxy.Nat.Directory.{ReverseNatKey, from_translated_flow, from_return_flow}

-- A packet `r` answers the flow `f`. An echo reply keeps the identifier, which stands in the source
-- port, and may have another message type and code.
pub record IsReply (f r : FlowKey) : Type 0 where
  pub from_destination : r.source ≡ f.destination
  pub to_source : r.destination ≡ f.source
  pub same_protocol : r.protocol ≡ f.protocol
  pub same_identifier : is_icmp f.protocol ≡ true → r.source_port ≡ f.source_port
  pub from_port : is_icmp f.protocol ≡ false → r.source_port ≡ f.destination_port
  pub to_port : is_icmp f.protocol ≡ false → r.destination_port ≡ f.source_port

pub reply_key : (f r : FlowKey) → IsReply f r → from_return_flow r ≡ from_translated_flow f
unfolding from_return_flow from_translated_flow
reply_key f r h = ground arith

-- The leased port, read back from a reverse key.
pub port_of : ReverseNatKey → ℕ
port_of key = if is_icmp key.protocol then key.source_port else key.destination_port

pub port_of-from_translated_flow : (f : FlowKey) → port_of (from_translated_flow f) ≡ f.source_port
unfolding port_of from_translated_flow
port_of-from_translated_flow f = ground arith
