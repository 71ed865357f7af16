-- ===== src/Tests/Config.antt =====
-- src/v1_config.rs: a client's file that is accepted, and the theorem at it.
use new_proxy.Prelude.{
  ℕ, ◌≡◌, ◌≤◌, ◌<◌, length, refl, Option, none, some, List, [], ◌∷◌, ◌++◌, ok, if◌then◌else◌, ◌==◌,
  nat_eq,
}
use new_proxy.HashMap
use new_proxy.Dns
use new_proxy.Config
use new_proxy.Net.{v4, list_eq, list_beq, ip_beq}
use new_proxy.Dns.Route.{SocketAddr}
use new_proxy.Config.Text.{Text, codes}
use new_proxy.Config.Types.{IpNet, Family, Host, ApplianceConfig, client, no, tunnel_prefixes, skb}
use new_proxy.Config.Domains.{parse_remote_domain_lines}
use new_proxy.Config.Prefixes.{parse_cidr_terms, count_family, lpm_prefix_capacity_per_family}
use new_proxy.Config.Parse.{parse}
use new_proxy.Config.Laws.Lists.{
  AreDomains, AreUnrepeated, parse_remote_domain_lines-ok, parse_cidr_terms-count,
}
use new_proxy.Config.Laws.Soundness.{IsSound, parse-IsSound}

program : Unit {0}
unfolding HashMap.get HashMap.insert HashMap.remove list_beq ip_beq Dns.Name.is_label
    Dns.Name.all_label_bytes Dns.Name.is_alphanumeric Dns.Name.starts_with_dash
    Dns.Name.ends_with_dash Dns.Name.to_ascii_lowercase Config.Text.is_whitespace
    Config.Text.trim_start Config.Text.trim_end Config.Text.trim Config.Text.any_whitespace
    Config.Text.contains_char Config.Text.split_first Config.Text.lines Config.Text.split_once
    Config.Text.strip_prefix Config.Text.starts_with Config.Text.last_char Config.Text.init
    Config.Text.digit Config.Text.digits_from Config.Text.from_str_radix Config.Ini.bracketed
    Config.Ini.add_field Config.Ini.parse_line Config.Ini.parse_lines Config.Ini.parse_ini
    Config.Ini.all_digits Config.Ini.is_index Config.Ini.is_intercept_section Config.Ini.mem_text
    Config.Ini.reject_unknown_sections Config.Fields.section Config.Fields.validate_fields
    Config.Fields.optional Config.Fields.required Config.Fields.parse_integer
    Config.Fields.parse_optional_integer Config.Fields.parse_interface Config.Fields.parse_octets
    Config.Fields.all_zero Config.Fields.parse_mac Config.Fields.parse_auto_reserve_ports
    Config.Fields.pairs Config.Fields.parse_hex_key Config.Fields.all_ones
    Config.Fields.is_usable_host_address Config.Domains.without_dot Config.Domains.all_labels
    Config.Domains.is_domain Config.Domains.normalize_domain Config.Domains.add_domains
    Config.Domains.parse_remote_domain_lines Config.Domains.load_remote_domains
    Config.Prefixes.is_file_term Config.Prefixes.normalize_prefix Config.Prefixes.mem_net
    Config.Prefixes.count_family Config.Prefixes.add_prefix Config.Prefixes.add_prefixes
    Config.Prefixes.parse_cidr_terms Config.Prefixes.not_empty Config.Prefixes.load_cidr_file
    Config.Prefixes.file_terms Config.Prefixes.policy_of Config.Prefixes.parse_ip_policy
    Config.Dns.parse_dns_socket Config.Dns.is_nat_address Config.Dns.check_dns_addresses
    Config.Dns.parse_dns_addresses Config.Dns.parse_dns_limits Config.Dns.parse_dns_config
    Config.Stages.parse_parts Config.Stages.parse_intercept Config.Stages.parse_intercepts
    Config.Stages.parse_role Config.Stages.parse_sizes Config.Stages.check_role_fields
    Config.Stages.parse_tunnel Config.Stages.check_interfaces Config.Stages.parse_nat
    Config.Stages.parse_policy Config.Stages.parse_mode Config.Parse.reject_server_policy
    Config.Parse.parse_rest Config.Parse.parse Config.Parse.load
    Config.Parse.reload_policy_from_source
program = tt

-- Each name stands for its address.
abbrev socket_addr : Text → Option SocketAddr
socket_addr t =
    if t == codes "A:443"
    then some (record { ip = v4 (198 ∷ 51 ∷ 100 ∷ 1 ∷ []); port = 443 })
    else if t == codes "D:53"
    then some (record { ip = v4 (10 ∷ 0 ∷ 0 ∷ 53 ∷ []); port = 53 })
    else if t == codes "L:53"
    then some (record { ip = v4 (10 ∷ 0 ∷ 0 ∷ 1 ∷ []); port = 53 })
    else if t == codes "R:53"
    then some (record { ip = v4 (8 ∷ 8 ∷ 8 ∷ 8 ∷ []); port = 53 })
    else none

abbrev host : Host
host = record {
  read_to_string = λ path. some (codes "a.example");
  file_size = λ path. some 9;
  parse_socket_addr = socket_addr;
  parse_ipv4 = λ t. some (192 ∷ 0 ∷ 2 ∷ 1 ∷ []);
  parse_ipv6 = λ t. none;
  parse_ip_net = λ t. some (record { address = v4 (10 ∷ 0 ∷ 0 ∷ 0 ∷ []); prefix_len = 8 });
  network = λ net. net.address;
}

abbrev unlines : List Text → Text
unlines [] = []
unlines (t ∷ ts) = t ++ 10 ∷ unlines ts

abbrev file : Text
file = unlines (
    codes "[Appliance]"
    ∷ codes "Role = Client"
    ∷ codes "FlowWorkerCount = 2"
    ∷ codes "ChannelCapacity = 8"
    ∷ codes "DcidLength = 8"
    ∷ codes "StatsPath = /run/s"
    ∷ codes "SharedKey = 0101010101010101010101010101010101010101010101010101010101010101"
    ∷ codes "[Tunnel]"
    ∷ codes "Interface = eth0"
    ∷ codes "NextHopMac = 02:00:00:00:00:01"
    ∷ codes "Endpoint = A:443"
    ∷ codes
        "ServerCertificateSha256 = 0101010101010101010101010101010101010101010101010101010101010101"
    ∷ codes "[NAT]"
    ∷ codes "AddressV4 = N"
    ∷ codes "PortStart = 40000"
    ∷ codes "PortEnd = 40001"
    ∷ codes "[AllowedIPs]"
    ∷ codes "Prefixes = P"
    ∷ codes "[DNS]"
    ∷ codes "Listen = D:53"
    ∷ codes "LocalResolver = L:53"
    ∷ codes "RemoteResolver = R:53"
    ∷ codes "RemoteDomainsFile = f"
    ∷ codes "[XDP]"
    ∷ codes "Mode = skb"
    ∷ codes "[Intercept]"
    ∷ codes "Interface = eth1"
    ∷ codes "NextHopMac = 02:00:00:00:00:02"
    ∷ [])

abbrev key : List ℕ
key =
    1 ∷ 1 ∷ 1 ∷ 1 ∷ 1 ∷ 1 ∷ 1 ∷ 1 ∷ 1 ∷ 1 ∷ 1 ∷ 1 ∷ 1 ∷ 1 ∷ 1 ∷ 1 ∷ 1 ∷ 1 ∷ 1 ∷ 1 ∷ 1 ∷ 1 ∷ 1 ∷ 1
    ∷ 1 ∷ 1 ∷ 1 ∷ 1 ∷ 1 ∷ 1 ∷ 1 ∷ 1 ∷ []

abbrev running : ApplianceConfig
running = record {
  role = client;
  tunnel_interface = codes "eth0";
  tunnel_next_hop_mac = 2 ∷ 0 ∷ 0 ∷ 0 ∷ 0 ∷ 1 ∷ [];
  intercept_interfaces =
      record { interface = codes "eth1"; next_hop_mac = 2 ∷ 0 ∷ 0 ∷ 0 ∷ 0 ∷ 2 ∷ [] } ∷ [];
  endpoint = some (record { ip = v4 (198 ∷ 51 ∷ 100 ∷ 1 ∷ []); port = 443 });
  listen = none;
  flow_worker_count = 2;
  channel_capacity = 8;
  dcid_len = 8;
  stats_path = codes "/run/s";
  shared_key = key;
  server_certificate = none;
  server_private_key = none;
  server_certificate_sha256 = some key;
  nat = record {
    address_v4 = some (192 ∷ 0 ∷ 2 ∷ 1 ∷ []);
    address_v6 = none;
    port_start = 40000;
    port_end = 40001;
    auto_reserve_ports = no;
  };
  ip_policy = tunnel_prefixes (record { address = v4 (10 ∷ 0 ∷ 0 ∷ 0 ∷ []); prefix_len = 8 } ∷ []);
  dns = some (record {
    listen = record { ip = v4 (10 ∷ 0 ∷ 0 ∷ 53 ∷ []); port = 53 };
    local_resolver = record { ip = v4 (10 ∷ 0 ∷ 0 ∷ 1 ∷ []); port = 53 };
    remote_resolver = record { ip = v4 (8 ∷ 8 ∷ 8 ∷ 8 ∷ []); port = 53 };
    remote_domains = codes "a.example" ∷ [];
    transaction_capacity = 4096;
    timeout_seconds = 5;
  });
  xdp_mode = skb;
  config_source_path = none;
}

parsed : parse host file ≡ ok running
unfolding program
parsed = refl

parse-IsSound_example : IsSound running
parse-IsSound_example = parse-IsSound host file running parsed

abbrev domain_lines : List Text
domain_lines = codes "# none" ∷ codes "B.example." ∷ [] ∷ codes " a.example # one" ∷ []

abbrev domains : List Text
domains = codes "b.example" ∷ codes "a.example" ∷ []

read_domains : parse_remote_domain_lines domain_lines ≡ ok domains
unfolding program
read_domains = refl

parse_remote_domain_lines-ok_example :
    (0 < length domains) × (length domains ≤ 65536) × AreDomains domains × AreUnrepeated domains
parse_remote_domain_lines-ok_example =
    parse_remote_domain_lines-ok domain_lines domains read_domains

abbrev nets : List IpNet
nets = record { address = v4 (10 ∷ 0 ∷ 0 ∷ 0 ∷ []); prefix_len = 8 } ∷ []

read_nets : parse_cidr_terms host (codes "P" ∷ codes "Q" ∷ []) ≡ ok nets
unfolding program
read_nets = refl

parse_cidr_terms-count_example :
    (0 < length nets) × ((f : Family) → count_family f nets ≤ lpm_prefix_capacity_per_family)
parse_cidr_terms-count_example =
    parse_cidr_terms-count host (codes "P" ∷ codes "Q" ∷ []) nets read_nets
