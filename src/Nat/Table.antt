-- ===== src/Nat/Table.antt =====
-- src/flow_plane/nat.rs: `NatTable`, the translations that one worker has leased.
use new_proxy.Prelude.{
  ℕ, ◌+◌, ◌-◌, Bool, ◌&&◌, not, nat_eq, Option, none, some, List, [], ◌∷◌, if◌then◌else◌, Result,
  ok, err, ltb, length,
}
use new_proxy.HashMap
use new_proxy.HashMap.{HashMap}
use new_proxy.BTreeMap
use new_proxy.BTreeMap.{BTreeSet}
use new_proxy.Net.{
  SessionId, FlowKey, IpAddr, v4, v6, TransportProtocol, tcp, udp, icmp, icmpv6, flow_eq, Instant,
  from_secs,
}
use new_proxy.Nat.Directory.{
  SessionLocator, ReverseNatKey, from_translated_flow, from_return_flow, NatBinding, NatError,
  invalid_port_range, address_family_mismatch, port_range_exhausted, duplicate_session,
  unknown_session,
}

pub record NatTable : Type 0 where
  pub snat_ipv4 : Option (List ℕ)
  pub snat_ipv6 : Option (List ℕ)
  pub available_ports : BTreeSet
  pub forward : HashMap SessionId NatBinding
  pub reverse : HashMap ReverseNatKey SessionLocator
  pub quarantined : HashMap ReverseNatKey Instant

-- The range `start..=end` is empty when `end` lies below `start`.
unfoldable pub new_dual : Option (List ℕ) → Option (List ℕ) → ℕ → ℕ → Result NatError NatTable
new_dual snat_ipv4 snat_ipv6 first last =
    if ltb last first
    then err invalid_port_range
    else ok (record {
      snat_ipv4 = snat_ipv4;
      snat_ipv6 = snat_ipv6;
      available_ports = BTreeMap.range first (last + 1 - first);
      forward = [];
      reverse = [];
      quarantined = [];
    })

unfoldable pub new : IpAddr → ℕ → ℕ → Result NatError NatTable
unfolding new_dual
new (v4 address) first last = new_dual (some address) none first last
new (v6 address) first last = new_dual none (some address) first last

-- The source address of the same family as the flow's.
unfoldable pub snat_for : NatTable → IpAddr → Option IpAddr
snat_for t (v4 _) = elim t.snat_ipv4 [ none ↦ none | some address ↦ some (v4 address) ]
snat_for t (v6 _) = elim t.snat_ipv6 [ none ↦ none | some address ↦ some (v6 address) ]

abbrev pub translate : FlowKey → IpAddr → ℕ → FlowKey
translate original snat_ip port = record original { source = snat_ip; source_port = port }

-- `find_map` over the available ports, in ascending order: the first whose reverse key is free.
unfoldable pub find_port :
    (ReverseNatKey → Bool) → FlowKey → IpAddr → BTreeSet → Option (ℕ × FlowKey × ReverseNatKey)
find_port is_free original snat_ip [] = none
find_port is_free original snat_ip ((port, _) ∷ ports) =
    let translated = translate original snat_ip port in
    let reverse_key = from_translated_flow translated in
    let rest = find_port is_free original snat_ip ports in
    if is_free reverse_key then some (port, translated, reverse_key) else rest

-- No session holds the key, and it is not in quarantine.
unfoldable pub is_free : NatTable → ReverseNatKey → Bool
is_free t key =
    not (HashMap.contains_key key t.reverse) && not (HashMap.contains_key key t.quarantined)

-- `quarantined.retain(|_, expires_at| *expires_at > now)`
unfoldable pub purge : NatTable → Instant → NatTable
purge t now = record t {
  quarantined = HashMap.retain (λ _ expires_at. ltb now expires_at) t.quarantined;
}

-- The three writes of a successful allocation.
unfoldable pub bind :
    NatTable → SessionId → SessionLocator → ℕ → ReverseNatKey → NatBinding → NatTable
bind t session_id locator port reverse_key binding = record t {
  available_ports = BTreeMap.remove port t.available_ports;
  reverse = HashMap.insert reverse_key locator t.reverse;
  forward = HashMap.insert session_id binding t.forward;
}

unfoldable pub allocate_at :
    NatTable
    → SessionId
    → FlowKey
    → SessionLocator
    → Instant
    → NatTable × Result NatError NatBinding
allocate_at t session_id original locator now =
    if HashMap.contains_key session_id t.forward
    then (t, err (duplicate_session session_id))
    else elim (snat_for t original.source) [
      | none ↦ (t, err address_family_mismatch)
      | some snat_ip ↦
          let t' = purge t now in
          elim (find_port (is_free t') original snat_ip t'.available_ports) [
            | none ↦ (t', err port_range_exhausted)
            | some (port, translated, reverse_key) ↦
                let binding : NatBinding = record {
                  original = original;
                  translated = translated;
                } in
                (bind t' session_id locator port reverse_key binding, ok binding)
          ]
    ]

unfoldable pub get : NatTable → SessionId → Option NatBinding
get t session_id = HashMap.get session_id t.forward

unfoldable pub lookup_reverse : NatTable → FlowKey → Option SessionLocator
lookup_reverse t return_flow = HashMap.get (from_return_flow return_flow) t.reverse

abbrev pub tcp_reuse_quarantine : ℕ
tcp_reuse_quarantine = from_secs 120

abbrev pub udp_reuse_quarantine : ℕ
udp_reuse_quarantine = from_secs 60

abbrev pub icmp_reuse_quarantine : ℕ
icmp_reuse_quarantine = from_secs 30

unfoldable pub reuse_quarantine : TransportProtocol → ℕ
reuse_quarantine tcp = tcp_reuse_quarantine
reuse_quarantine udp = udp_reuse_quarantine
reuse_quarantine icmp = icmp_reuse_quarantine
reuse_quarantine icmpv6 = icmp_reuse_quarantine

-- What `remove_at` writes once the binding is found.
unfoldable pub release : NatTable → SessionId → NatBinding → Instant → NatTable
release t session_id binding now =
    let reverse_key = from_translated_flow binding.translated in
    record t {
      forward = HashMap.remove session_id t.forward;
      reverse = HashMap.remove reverse_key t.reverse;
      quarantined =
          HashMap.insert reverse_key (now + reuse_quarantine binding.translated.protocol)
            t.quarantined;
      available_ports = BTreeMap.insert binding.translated.source_port tt t.available_ports;
    }

unfoldable pub remove_at : NatTable → SessionId → Instant → NatTable × Result NatError NatBinding
remove_at t session_id now = elim (HashMap.get session_id t.forward) [
  | none ↦ (t, err (unknown_session session_id))
  | some binding ↦ (release t session_id binding now, ok binding)
]

unfoldable pub len : NatTable → ℕ
len t = length t.forward

unfoldable pub reverse_len : NatTable → ℕ
reverse_len t = length t.reverse
