-- ===== src/Config/Parse.antt =====
-- src/v1_config.rs: `ApplianceConfig::parse`, and the methods that read the file.
use new_proxy.Prelude.{
  ℕ, Bool, false, not, ◌&&◌, Option, none, some, List, [], length, nat_beq, nat_eq, Result, ok, err,
  ok_or, ◌>>=◌, ◌==◌, is_some,
}
use new_proxy.Net.{ip_eq, list_eq}
use new_proxy.Dns.Route.{SocketAddr}
use new_proxy.Config.Text.{Text, codes}
use new_proxy.Config.Types.{
  ConfigError, missing_field, unknown_section, invalid_ip_address, server_intercept_count,
  placeholder_shared_key, invalid_dns, io, Role, InterceptConfig, NatConfig, DnsConfig,
  ApplianceConfig, Host,
}
use new_proxy.Config.Ini.{Fields, parse_ini}
use new_proxy.Config.Fields.{optional, required, parse_auto_reserve_ports, parse_hex_key, all_zero}
use new_proxy.Config.Dns.{reject, parse_dns_config, is_nat_address}
use new_proxy.Config.Stages.{
  Parts, parse_parts, parse_intercepts, parse_role, Sizes, parse_sizes, TunnelPart, is_some_and,
  parse_tunnel, check_interfaces, is_server, NatPart, parse_nat, parse_policy, parse_mode, or_else,
}

unfoldable pub reject_server_policy : Role → Option Fields → Result ConfigError (Unit {0})
reject_server_policy role allowed =
    reject (is_server role && is_some allowed) (unknown_section (codes "AllowedIPs"))

-- `tunnel.ip() == nat_config.address…` of the endpoint or else of the listening address
abbrev pub meets_nat : NatConfig → Option SocketAddr → Bool
meets_nat nat = is_some_and (is_nat_address nat)

abbrev pub meets_dns : Option DnsConfig → Option SocketAddr → Bool
meets_dns none tunnel = false
meets_dns (some dns) tunnel = is_some_and (λ ip. ip == dns.listen.ip) tunnel

-- What is left after the tunnel, the interfaces and the NAT fields.
unfoldable pub parse_rest :
    Host
    → Parts
    → List InterceptConfig
    → Role
    → Sizes
    → TunnelPart
    → NatPart
    → Result ConfigError ApplianceConfig
unfolding parse_policy parse_mode
parse_rest host parts intercepts role sizes tunnel nat =
    let address = or_else tunnel.endpoint tunnel.listen in
    parse_policy host role parts.allowed >>= λ ip_policy. parse_mode parts.xdp >>= λ xdp_mode.
    required parts.appliance (codes "SharedKey") >>= λ key. parse_hex_key key >>= λ shared_key.
    reject (all_zero shared_key) placeholder_shared_key >>= λ _.
    parse_fingerprint (optional parts.tunnel (codes "ServerCertificateSha256")) >>= λ fingerprint.
    parse_auto_reserve_ports (optional parts.nat (codes "AutoReservePorts"))
    >>= λ auto_reserve_ports.
        let nat_config : NatConfig = record {
          address_v4 = nat.address_v4;
          address_v6 = nat.address_v6;
          port_start = nat.port_start;
          port_end = nat.port_end;
          auto_reserve_ports = auto_reserve_ports;
        } in
        reject (meets_nat nat_config address)
          (invalid_ip_address (codes "NAT address must not equal Tunnel.Endpoint or Tunnel.Listen"))
        >>= λ _. parse_dns_config host role parts.dns nat_config >>= λ dns.
            reject (meets_dns dns address)
              (invalid_dns (codes "DNS.Listen must not equal Tunnel.Endpoint or Tunnel.Listen"))
            >>= λ _. ok (record {
              role = role;
              tunnel_interface = tunnel.interface;
              tunnel_next_hop_mac = tunnel.next_hop_mac;
              intercept_interfaces = intercepts;
              endpoint = tunnel.endpoint;
              listen = tunnel.listen;
              flow_worker_count = sizes.flow_worker_count;
              channel_capacity = sizes.channel_capacity;
              dcid_len = sizes.dcid_len;
              stats_path = sizes.stats_path;
              shared_key = shared_key;
              server_certificate = optional parts.tunnel (codes "ServerCertificate");
              server_private_key = optional parts.tunnel (codes "ServerPrivateKey");
              server_certificate_sha256 = fingerprint;
              nat = nat_config;
              ip_policy = ip_policy;
              dns = dns;
              xdp_mode = xdp_mode;
              config_source_path = none;
            })
  where
    parse_fingerprint : Option Text → Result ConfigError (Option (List ℕ))
    parse_fingerprint none = ok none
    parse_fingerprint (some value) = parse_hex_key value >>= λ key. ok (some key)

unfoldable pub parse : Host → Text → Result ConfigError ApplianceConfig
unfolding parse_parts parse_intercepts parse_role parse_sizes parse_tunnel check_interfaces
    parse_nat reject_server_policy parse_rest
parse host text = parse_ini text >>= λ sections. parse_parts sections >>= λ parts.
    parse_intercepts sections >>= λ intercepts.
    reject (nat_beq (length intercepts) 0) (missing_field (codes "Intercept.Interface")) >>= λ _.
    parse_role parts.appliance >>= λ role. reject_server_policy role parts.allowed >>= λ _.
    parse_sizes parts.appliance >>= λ sizes. parse_tunnel host role parts.tunnel >>= λ tunnel.
    reject (is_server role && not (nat_beq (length intercepts) 1)) server_intercept_count >>= λ _.
    check_interfaces [] intercepts >>= λ _.
    parse_nat host parts.nat sizes.flow_worker_count >>= λ nat.
    parse_rest host parts intercepts role sizes tunnel nat

unfoldable pub load : Host → Text → Result ConfigError ApplianceConfig
unfolding parse
load host path = ok_or (host.read_to_string path) (io (codes "failed to read config")) >>= λ text.
    parse host text >>= λ config. ok (record config { config_source_path = some path })

-- On an error the configuration stays as it was.
unfoldable pub reload_policy_from_source :
    Host → ApplianceConfig → ApplianceConfig × Result ConfigError (Unit {0})
unfolding load
reload_policy_from_source host config = elim config.config_source_path [
  | none ↦ (config, ok tt)
  | some path ↦ elim (load host path) [
    | err e ↦ (config, err e)
    | ok reloaded ↦ (record config { ip_policy = reloaded.ip_policy; dns = reloaded.dns }, ok tt)
  ]
]
