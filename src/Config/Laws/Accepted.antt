-- ===== src/Config/Laws/Accepted.antt =====
-- src/v1_config.rs: lemmas on what the stages of `ApplianceConfig::parse` accept.
use new_proxy.Prelude.{
  ℕ, ◌+◌, ◌-◌, ◌*◌, ◌^◌, ◌<◌, ◌≤◌, ◌≡◌, refl, true, false, ◌||◌, Option, none, some, List, [], ◌∷◌,
  nat_eq, ok, arith, is_some, map, Result-cases, Option-cases, inl, inr,
}
use new_proxy.Net.{ip_eq, list_eq, list_beq_iff}
use new_proxy.Dns.Route.{SocketAddr}
use new_proxy.Config.Text.{Text, codes, digit, digits_from, from_str_radix}
use new_proxy.Config.Types.{
  Role, client, server, InterceptConfig, NatConfig, DnsConfig, ApplianceConfig, Host,
}
use new_proxy.Config.Ini.{Fields, mem_text}
use new_proxy.Config.Fields.{required, parse_integer, all_zero}
use new_proxy.Config.Dns.{
  check_dns_addresses, DnsAddresses, parse_dns_addresses, parse_dns_limits, parse_dns_config,
  is_nat_address, has_family,
}
use new_proxy.Config.Stages.{
  Parts, Sizes, TunnelPart, NatPart, parse_sizes, check_role_fields, parse_tunnel, check_interfaces,
  parse_nat, or_else,
}
use new_proxy.Config.Parse.{parse_rest, meets_nat, meets_dns}

pub parse_sizes-ok :
    (f : Fields) (s : Sizes)
    → parse_sizes f ≡ ok s
    → (0 < s.flow_worker_count) × (0 < s.channel_capacity) × (8 ≤ s.dcid_len) × (s.dcid_len ≤ 20)
unfolding parse_sizes
parse_sizes-ok f s h = ground arith

digits_from-lt :
    (radix limit n : ℕ) (t : Text) (m : ℕ)
    → n < limit
    → digits_from radix limit n t ≡ some m
    → m < limit
unfolding digits_from
digits_from-lt radix limit n [] m lt h = ground arith
digits_from-lt radix limit n (c ∷ t) m lt h = elim (Option-cases (digit radix c)) [
  | inl no_digit ↦ absurd (ground arith)
  | inr (d, read) ↦ ground (arith, digits_from-lt radix limit (n * radix + d) t m)
]

from_str_radix-lt :
    (radix limit : ℕ) (t : Text) (m : ℕ)
    → 0 < limit
    → from_str_radix radix limit t ≡ some m
    → m < limit
unfolding from_str_radix
from_str_radix-lt radix limit [] m lt h = ground arith
from_str_radix-lt radix limit (c ∷ []) m lt h = digits_from-lt radix limit 0 (c ∷ []) m lt h
from_str_radix-lt radix limit (c ∷ d ∷ t) m lt h = ground (
  arith,
  digits_from-lt radix limit 0 (d ∷ t) m lt,
  digits_from-lt radix limit 0 (c ∷ d ∷ t) m lt,
)

parse_integer-lt :
    (limit : ℕ) (f : Fields) (name : Text) (m : ℕ)
    → 0 < limit
    → parse_integer limit f name ≡ ok m
    → m < limit
unfolding parse_integer
parse_integer-lt limit f name m lt h = elim (Result-cases (required f name)) [
  | inr (e, failed) ↦ absurd (ground arith)
  | inl (value, found) ↦ ground (arith, from_str_radix-lt 10 limit value m lt)
]

pub parse_nat-ok :
    (host : Host) (f : Fields) (workers : ℕ) (n : NatPart)
    → parse_nat host f workers ≡ ok n
    → (0 < n.port_start)
      × (n.port_start ≤ n.port_end)
      × (workers ≤ n.port_end - n.port_start + 1)
      × ((is_some n.address_v4 || is_some n.address_v6) ≡ true)
      × (n.port_end < 65536)
unfolding parse_nat
parse_nat-ok host f workers n h =
    ground (arith, parse_integer-lt (2 ^ 16) f (codes "PortEnd") n.port_end (omega arith))

pub parse_tunnel-ok :
    (host : Host) (role : Role) (f : Fields) (t : TunnelPart)
    → parse_tunnel host role f ≡ ok t
    → (role ≡ client → (is_some t.endpoint ≡ true) × (t.listen ≡ none))
      × (role ≡ server → (is_some t.listen ≡ true) × (t.endpoint ≡ none))
unfolding parse_tunnel check_role_fields
parse_tunnel-ok host role f t h = ground arith

-- What the DNS section promises beside a NAT configuration.
pub record IsSoundDns (nat : NatConfig) (d : DnsConfig) : Type 0 where
  pub vip_port : d.listen.port ≡ 53
  pub capacity : 0 < d.transaction_capacity
  pub timeout : 0 < d.timeout_seconds
  pub apart : is_nat_address nat d.listen.ip ≡ false
  pub local_family : has_family nat d.local_resolver.ip ≡ true
  pub remote_family : has_family nat d.remote_resolver.ip ≡ true

check_dns_addresses-ok :
    (nat : NatConfig) (a b c : SocketAddr)
    → check_dns_addresses nat a b c ≡ ok tt
    → (is_nat_address nat a.ip ≡ false)
      × (has_family nat b.ip ≡ true)
      × (has_family nat c.ip ≡ true)
unfolding check_dns_addresses
check_dns_addresses-ok nat a b c h = ground arith

parse_dns_addresses-ok :
    (host : Host) (f : Fields) (nat : NatConfig) (d : DnsAddresses)
    → parse_dns_addresses host f nat ≡ ok d
    → (d.listen.port ≡ 53)
      × (check_dns_addresses nat d.listen d.local_resolver d.remote_resolver ≡ ok tt)
unfolding parse_dns_addresses
parse_dns_addresses-ok host f nat d h = ground arith

parse_dns_limits-ok :
    (host : Host) (f : Fields) (a : DnsAddresses) (d : DnsConfig)
    → parse_dns_limits host f a ≡ ok d
    → (d.listen ≡ a.listen)
      × (d.local_resolver ≡ a.local_resolver)
      × (d.remote_resolver ≡ a.remote_resolver)
      × (0 < d.transaction_capacity)
      × (0 < d.timeout_seconds)
unfolding parse_dns_limits
parse_dns_limits-ok host f a d h = ground arith

pub parse_dns_config-ok :
    (host : Host) (role : Role) (f : Option Fields) (nat : NatConfig) (d : DnsConfig)
    → parse_dns_config host role f nat ≡ ok (some d)
    → (role ≡ client) × IsSoundDns nat d
unfolding parse_dns_config
parse_dns_config-ok host role none nat d h = absurd (ground arith)
parse_dns_config-ok host server (some f) nat d h = absurd (ground arith)
parse_dns_config-ok host client (some f) nat d h =
    elim (Result-cases (parse_dns_addresses host f nat)) [
      | inr (e, failed) ↦ absurd (ground arith)
      | inl (a, read) ↦
          let (port, checked) = parse_dns_addresses-ok host f nat a read in
          let (apart, near, far) =
            check_dns_addresses-ok nat a.listen a.local_resolver a.remote_resolver checked in
          let (listen, local, remote, capacity, timeout) =
            parse_dns_limits-ok host f a d (ground arith) in
          (
            refl,
            record {
              vip_port = rw listen port;
              capacity = capacity;
              timeout = timeout;
              apart = rw listen apart;
              local_family = rw local near;
              remote_family = rw remote far;
            },
          )
    ]

-- No interface is named twice.
abbrev pub AreDistinct : List InterceptConfig → Type 0
AreDistinct [] = Unit {0}
AreDistinct (i ∷ is) = (mem_text i.interface (map (λ j. j.interface) is) ≡ false) × AreDistinct is

check_interfaces-absent :
    (seen : List Text) (is : List InterceptConfig) (t : Text)
    → check_interfaces seen is ≡ ok tt
    → mem_text t seen ≡ true
    → mem_text t (map (λ j. j.interface) is) ≡ false
unfolding check_interfaces mem_text
check_interfaces-absent seen [] t h known = refl
check_interfaces-absent seen (i ∷ is) t h known =
    ground (arith, check_interfaces-absent (i.interface ∷ seen) is t, list_beq_iff i.interface t)

pub check_interfaces-AreDistinct :
    (seen : List Text) (is : List InterceptConfig)
    → check_interfaces seen is ≡ ok tt
    → AreDistinct is
unfolding check_interfaces mem_text
check_interfaces-AreDistinct seen [] h = tt
check_interfaces-AreDistinct seen (i ∷ is) h = (
  check_interfaces-absent (i.interface ∷ seen) is i.interface (ground arith)
      (ground (arith, list_beq_iff i.interface i.interface)),
  check_interfaces-AreDistinct (i.interface ∷ seen) is (ground arith),
)

-- What the last stage takes over from the earlier ones, and what it checks.
pub record IsFinished (host : Host) (intercepts : List InterceptConfig) (role : Role)
    (sizes : Sizes) (tunnel : TunnelPart) (nat : NatPart) (c : ApplianceConfig) : Type 0 where
  pub same_role : c.role ≡ role
  pub same_intercepts : c.intercept_interfaces ≡ intercepts
  pub same_endpoint : c.endpoint ≡ tunnel.endpoint
  pub same_listen : c.listen ≡ tunnel.listen
  pub same_workers : c.flow_worker_count ≡ sizes.flow_worker_count
  pub same_capacity : c.channel_capacity ≡ sizes.channel_capacity
  pub same_dcid : c.dcid_len ≡ sizes.dcid_len
  pub same_v4 : c.nat.address_v4 ≡ nat.address_v4
  pub same_v6 : c.nat.address_v6 ≡ nat.address_v6
  pub same_start : c.nat.port_start ≡ nat.port_start
  pub same_end : c.nat.port_end ≡ nat.port_end

pub parse_rest-ok :
    (host : Host) (parts : Parts) (intercepts : List InterceptConfig) (role : Role) (sizes : Sizes)
    (tunnel : TunnelPart) (nat : NatPart) (c : ApplianceConfig)
    → parse_rest host parts intercepts role sizes tunnel nat ≡ ok c
    → IsFinished host intercepts role sizes tunnel nat c
unfolding parse_rest
parse_rest-ok host parts intercepts role sizes tunnel nat c h = ground arith

pub parse_rest-key :
    (host : Host) (parts : Parts) (intercepts : List InterceptConfig) (role : Role) (sizes : Sizes)
    (tunnel : TunnelPart) (nat : NatPart) (c : ApplianceConfig)
    → parse_rest host parts intercepts role sizes tunnel nat ≡ ok c
    → (all_zero c.shared_key ≡ false)
      × (meets_nat c.nat (or_else c.endpoint c.listen) ≡ false)
      × (meets_dns c.dns (or_else c.endpoint c.listen) ≡ false)
      × (parse_dns_config host c.role parts.dns c.nat ≡ ok c.dns)
unfolding parse_rest
parse_rest-key host parts intercepts role sizes tunnel nat c h = ground arith
