-- ===== src/Config/Laws/Soundness.antt =====
-- src/v1_config.rs: the fields of a configuration that `ApplianceConfig::parse` accepts.
use new_proxy.Prelude.{
  [], ◌+◌, ◌-◌, ◌<◌, ◌≤◌, ◌≡◌, true, false, ◌||◌, none, some, length, nat_eq, ok, arith, is_some,
  Result-cases, inl, inr,
}
use new_proxy.Config.Text.{Text}
use new_proxy.Config.Types.{client, server, DnsConfig, ApplianceConfig, Host}
use new_proxy.Config.Fields.{all_zero}
use new_proxy.Config.Ini.{parse_ini}
use new_proxy.Config.Stages.{
  parse_parts, parse_intercepts, parse_role, parse_sizes, parse_tunnel, check_interfaces, parse_nat,
  or_else,
}
use new_proxy.Config.Parse.{parse_rest, parse, meets_nat, meets_dns}
use new_proxy.Config.Laws.Accepted.{
  IsSoundDns, AreDistinct, parse_sizes-ok, parse_nat-ok, parse_tunnel-ok, parse_dns_config-ok,
  check_interfaces-AreDistinct, parse_rest-ok, parse_rest-key,
}

pub record IsSound (c : ApplianceConfig) : Type 0 where
  pub workers : 0 < c.flow_worker_count
  pub channel : 0 < c.channel_capacity
  pub dcid : (8 ≤ c.dcid_len) × (c.dcid_len ≤ 20)
  pub ports :
      (0 < c.nat.port_start) × (c.nat.port_start ≤ c.nat.port_end) × (c.nat.port_end < 65536)
  pub enough_ports : c.flow_worker_count ≤ c.nat.port_end - c.nat.port_start + 1
  pub has_nat : (is_some c.nat.address_v4 || is_some c.nat.address_v6) ≡ true
  pub of_client : c.role ≡ client → (is_some c.endpoint ≡ true) × (c.listen ≡ none)
  pub of_server :
      c.role ≡ server
      → (is_some c.listen ≡ true) × (c.endpoint ≡ none) × (length c.intercept_interfaces ≡ 1)
  pub interfaces : AreDistinct c.intercept_interfaces
  pub has_interface : 0 < length c.intercept_interfaces
  pub key : all_zero c.shared_key ≡ false
  pub nat_apart : meets_nat c.nat (or_else c.endpoint c.listen) ≡ false
  pub dns_apart : meets_dns c.dns (or_else c.endpoint c.listen) ≡ false
  pub dns_sound : (d : DnsConfig) → c.dns ≡ some d → (c.role ≡ client) × IsSoundDns c.nat d

-- A configuration that `parse` accepts, whatever the parsers of addresses return, has at least one
-- flow worker, a channel capacity, connection identifiers of 8 to 20 bytes, a NAT range of valid
-- ports with one for each worker, a NAT address, the address that its role asks for and not the
-- other, different intercept interfaces (one for a server), a key that is not zero, a tunnel
-- address that is no NAT address and not the DNS address, and a DNS section only for a client,
-- which listens on port 53 at no NAT address, has resolvers of families that NAT has, a capacity
-- and a timeout.
pub parse-IsSound :
    (host : Host) (text : Text) (c : ApplianceConfig) → parse host text ≡ ok c → IsSound c
unfolding parse
parse-IsSound host text c h = elim (Result-cases (parse_ini text)) [
  | inr (e, x) ↦ absurd (ground arith)
  | inl (sections, e1) ↦ elim (Result-cases (parse_parts sections)) [
    | inr (e, x) ↦ absurd (ground arith)
    | inl (parts, e2) ↦ elim (Result-cases (parse_intercepts sections)) [
      | inr (e, x) ↦ absurd (ground arith)
      | inl (intercepts, e3) ↦ elim (Result-cases (parse_role parts.appliance)) [
        | inr (e, x) ↦ absurd (ground arith)
        | inl (role, e4) ↦ elim (Result-cases (parse_sizes parts.appliance)) [
          | inr (e, x) ↦ absurd (ground arith)
          | inl (sizes, e5) ↦ elim (Result-cases (parse_tunnel host role parts.tunnel)) [
            | inr (e, x) ↦ absurd (ground arith)
            | inl (tunnel, e6) ↦
                elim (Result-cases (parse_nat host parts.nat sizes.flow_worker_count)) [
                  | inr (e, x) ↦ absurd (ground arith)
                  | inl (nat, e7) ↦
                      let rest : parse_rest host parts intercepts role sizes tunnel nat ≡ ok c =
                        ground arith in
                      let apart : check_interfaces [] intercepts ≡ ok tt = ground arith in
                      let some_interface : 0 < length intercepts = ground arith in
                      let one : role ≡ server → length intercepts ≡ 1 = λ s. ground arith in
                      let f = parse_rest-ok host parts intercepts role sizes tunnel nat c rest in
                      let (key, nat_apart, dns_apart, dns) =
                        parse_rest-key host parts intercepts role sizes tunnel nat c rest in
                      let (workers, channel, dcid_min, dcid_max) =
                        parse_sizes-ok parts.appliance sizes e5 in
                      let (start, order, enough, addresses, end) =
                        parse_nat-ok host parts.nat sizes.flow_worker_count nat e7 in
                      let (of_client, of_server) =
                        parse_tunnel-ok host role parts.tunnel tunnel e6 in
                      record {
                        workers = rw f.same_workers workers;
                        channel = rw f.same_capacity channel;
                        dcid = rw f.same_dcid (dcid_min, dcid_max);
                        ports = rw (f.same_start, f.same_end) (start, order, end);
                        enough_ports = rw (f.same_workers, f.same_start, f.same_end) enough;
                        has_nat = rw (f.same_v4, f.same_v6) addresses;
                        of_client = rw (f.same_role, f.same_endpoint, f.same_listen) of_client;
                        of_server =
                            rw (f.same_role, f.same_listen, f.same_endpoint, f.same_intercepts)
                              (λ s. let (there, away) = of_server s in (there, away, one s));
                        interfaces =
                            rw f.same_intercepts (check_interfaces-AreDistinct [] intercepts apart);
                        has_interface = rw f.same_intercepts some_interface;
                        key = key;
                        nat_apart = nat_apart;
                        dns_apart = dns_apart;
                        dns_sound =
                            λ d e. parse_dns_config-ok host c.role parts.dns c.nat d (rw e at dns);
                      }
                ]
          ]
        ]
      ]
    ]
  ]
]
