-- ===== src/Config/Types.antt =====
-- src/v1_config.rs: the configuration and the errors of its validation.
use new_proxy.Prelude.{ℕ, Option, List, nat_eq}
use new_proxy.Net.{IpAddr, list_eq}
use new_proxy.Dns.Route.{SocketAddr}
use new_proxy.Config.Text.{Text}

pub data Role : Type 0 where
  client server : Role

pub data XdpAttachMode : Type 0 where
  native skb : XdpAttachMode

pub data AutoReservePorts : Type 0 where
  no : AutoReservePorts

-- The octets of a MAC address.
abbrev pub MacAddress : Type 0
MacAddress = List ℕ

pub record InterceptConfig : Type 0 where
  pub interface : Text
  pub next_hop_mac : MacAddress

pub record NatConfig : Type 0 where
  pub address_v4 : Option (List ℕ)
  pub address_v6 : Option (List ℕ)
  pub port_start : ℕ
  pub port_end : ℕ
  pub auto_reserve_ports : AutoReservePorts

-- A prefix: its address, which tells the family, and its length.
pub record IpNet : Type 0 where
  pub address : IpAddr
  pub prefix_len : ℕ

pub data IpPolicy : Type 0 where
  tunnel_prefixes direct_prefixes : List IpNet → IpPolicy

pub record DnsConfig : Type 0 where
  pub listen : SocketAddr
  pub local_resolver : SocketAddr
  pub remote_resolver : SocketAddr
  pub remote_domains : List Text
  pub transaction_capacity : ℕ
  pub timeout_seconds : ℕ

pub record ApplianceConfig : Type 0 where
  pub role : Role
  pub tunnel_interface : Text
  pub tunnel_next_hop_mac : MacAddress
  pub intercept_interfaces : List InterceptConfig
  pub endpoint : Option SocketAddr
  pub listen : Option SocketAddr
  pub flow_worker_count : ℕ
  pub channel_capacity : ℕ
  pub dcid_len : ℕ
  pub stats_path : Text
  pub shared_key : List ℕ
  pub server_certificate : Option Text
  pub server_private_key : Option Text
  pub server_certificate_sha256 : Option (List ℕ)
  pub nat : NatConfig
  pub ip_policy : IpPolicy
  pub dns : Option DnsConfig
  pub xdp_mode : XdpAttachMode
  pub config_source_path : Option Text

pub data Family : Type 0 where
  ipv4 ipv6 : Family

-- A syntax error carries the number of its line, and an error of an address or of the DNS section the
-- message that it is reported with.
pub data ConfigError : Type 0 where
  io allowed_ip_file invalid_role invalid_interface invalid_mac_address invalid_integer :
      Text → ConfigError
  syntax : ℕ → ConfigError
  missing_field unknown_section invalid_socket_address invalid_ip_address : Text → ConfigError
  unknown_field unsupported_legacy_field : Text → Text → ConfigError
  placeholder_shared_key missing_nat_address mixed_allowed_ip_modes : ConfigError
  invalid_allowed_ip invalid_dns invalid_remote_domain duplicate_remote_domain : Text → ConfigError
  remote_domain_file_too_large remote_domain_capacity : ℕ → ConfigError
  server_intercept_count invalid_client_addressing invalid_server_addressing : ConfigError
  duplicate_interface : Text → ConfigError
  wildcard_listen zero_flow_workers zero_channel_capacity zero_dcid_length : ConfigError
  invalid_dcid_length insecure_dcid_length invalid_nat_port_range nat_range_too_small : ConfigError
  invalid_auto_reserve_ports empty_allowed_ips : ConfigError
  allowed_ip_capacity : Family → ℕ → ConfigError

-- What the configuration takes from elsewhere: the files, and the parsers of addresses and prefixes.
-- A file is its size in bytes and its text.
pub record Host : Type 0 where
  pub read_to_string : Text → Option Text
  pub file_size : Text → Option ℕ
  pub parse_socket_addr : Text → Option SocketAddr
  pub parse_ipv4 : Text → Option (List ℕ)
  pub parse_ipv6 : Text → Option (List ℕ)
  pub parse_ip_net : Text → Option IpNet
  pub network : IpNet → IpAddr
