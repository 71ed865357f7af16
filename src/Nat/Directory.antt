-- ===== src/Nat/Directory.antt =====
-- src/flow_plane/nat.rs: keys of returning packets and `ReverseNatDirectory`, the index that every
-- worker reads and that the owners publish to.
use new_proxy.Prelude.{
  ℕ, Bool, true, ◌&&◌, ◌≡◌, ◌↔◌, arith, Eq, ◌==◌, nat_eq, Option, none, some, if◌then◌else◌, Result,
  ok, err,
}
use new_proxy.HashMap
use new_proxy.HashMap.{HashMap}
use new_proxy.Net.{SessionId, FlowKey, is_icmp, reverse, flow_eq}

pub record SessionLocator : Type 0 where
  pub flow_worker_id : ℕ
  pub session_id : SessionId

unfoldable pub locator_beq : SessionLocator → SessionLocator → Bool
locator_beq a b = a.flow_worker_id == b.flow_worker_id && a.session_id == b.session_id

pub locator_beq_iff : (a b : SessionLocator) → (locator_beq a b ≡ true) ↔ (a ≡ b)
unfolding locator_beq
locator_beq_iff a b = ground arith

instance abbrev pub locator_eq : Eq SessionLocator
locator_eq = record { beq = locator_beq; beq_iff = locator_beq_iff }

-- `ReverseNatKey(pub FlowKey)`: a tuple struct of one field.
abbrev pub ReverseNatKey : Type 0
ReverseNatKey = FlowKey

unfoldable pub from_translated_flow : FlowKey → ReverseNatKey
unfolding reverse
from_translated_flow flow =
    if is_icmp flow.protocol
    then record flow { source = flow.destination; destination = flow.source; destination_port = 0 }
    else reverse flow

unfoldable pub from_return_flow : FlowKey → ReverseNatKey
from_return_flow flow = if is_icmp flow.protocol then record flow { destination_port = 0 } else flow

pub record NatBinding : Type 0 where
  pub original : FlowKey
  pub translated : FlowKey

pub data NatError : Type 0 where
  invalid_port_range address_family_mismatch port_range_exhausted : NatError
  duplicate_session : SessionId → NatError
  duplicate_reverse_key : ReverseNatKey → NatError
  unknown_session : SessionId → NatError

abbrev pub ReverseNatDirectory : Type 0
ReverseNatDirectory = HashMap ReverseNatKey SessionLocator

unfoldable pub publish :
    ReverseNatDirectory
    → NatBinding
    → SessionLocator
    → ReverseNatDirectory × Result NatError (Unit {0})
publish entries binding locator =
    let key = from_translated_flow binding.translated in
    elim (HashMap.get key entries) [
      | some existing ↦
          if existing == locator
          then (entries, ok tt)
          else (entries, err (duplicate_reverse_key key))
      | none ↦ (HashMap.insert key locator entries, ok tt)
    ]

unfoldable pub lookup : ReverseNatDirectory → FlowKey → Option SessionLocator
lookup entries return_flow = HashMap.get (from_return_flow return_flow) entries

unfoldable pub retire :
    ReverseNatDirectory → NatBinding → SessionLocator → ReverseNatDirectory × Option SessionLocator
retire entries binding expected =
    let key = from_translated_flow binding.translated in
    elim (HashMap.get key entries) [
      | none ↦ (entries, none)
      | some found ↦
          if found == expected then (HashMap.remove key entries, some found) else (entries, none)
    ]
