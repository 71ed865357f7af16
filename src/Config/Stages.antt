-- ===== src/Config/Stages.antt =====
-- src/v1_config.rs: the stages of `ApplianceConfig::parse`.
use new_proxy.Prelude.{
  ℕ, ◌+◌, ◌-◌, ◌^◌, Bool, true, false, not, ◌&&◌, ◌||◌, Option, none, some, List, [], ◌∷◌, map,
  nat_beq, nat_eq, ltb, if◌then◌else◌, Result, ok, err, ok_or, ◌>>=◌, ◌==◌, is_some,
}
use new_proxy.HashMap
use new_proxy.HashMap.{HashMap}
use new_proxy.Net.{IpAddr, v4, v6, ip_eq, list_eq}
use new_proxy.Dns.Name.{to_ascii_lowercase}
use new_proxy.Dns.Route.{SocketAddr}
use new_proxy.Config.Text.{Text, codes, starts_with}
use new_proxy.Config.Types.{
  ConfigError, missing_field, invalid_role, unknown_field, zero_flow_workers, zero_channel_capacity,
  zero_dcid_length, invalid_dcid_length, insecure_dcid_length, invalid_client_addressing,
  invalid_server_addressing, wildcard_listen, invalid_ip_address, invalid_socket_address,
  duplicate_interface, missing_nat_address, invalid_nat_port_range, nat_range_too_small, Role,
  client, server, XdpAttachMode, native, skb, InterceptConfig, MacAddress, IpPolicy,
  tunnel_prefixes, Host,
}
use new_proxy.Config.Ini.{Fields, Sections, reject_unknown_sections, mem_text}
use new_proxy.Config.Fields.{
  section, validate_fields, optional, required, parse_integer, parse_interface, parse_mac,
  is_unspecified, is_usable_host_address,
}
use new_proxy.Config.Prefixes.{parse_ip_policy}
use new_proxy.Config.Dns.{reject}

-- The sections that a file must have, and those that it may have.
pub record Parts : Type 0 where
  pub appliance : Fields
  pub tunnel : Fields
  pub nat : Fields
  pub allowed : Option Fields
  pub dns : Option Fields
  pub xdp : Fields

abbrev pub validate_optional : Text → Option Fields → List Text → Result ConfigError (Unit {0})
validate_optional name none allowed = ok tt
validate_optional name (some fields) allowed = validate_fields name fields allowed

unfoldable pub parse_parts : Sections → Result ConfigError Parts
unfolding reject_unknown_sections validate_fields section
parse_parts sections = reject_unknown_sections sections >>= λ _.
    section sections (codes "Appliance") >>= λ appliance.
    section sections (codes "Tunnel") >>= λ tunnel. section sections (codes "NAT") >>= λ nat.
    let allowed = HashMap.get (codes "AllowedIPs") sections in
    let dns = HashMap.get (codes "DNS") sections in
    section sections (codes "XDP") >>= λ xdp.
    validate_fields (codes "Appliance") appliance (
      codes "Role"
      ∷ codes "FlowWorkerCount"
      ∷ codes "ChannelCapacity"
      ∷ codes "DcidLength"
      ∷ codes "StatsPath"
      ∷ codes "SharedKey"
      ∷ [])
    >>= λ _.
        validate_fields (codes "Tunnel") tunnel (
          codes "Interface"
          ∷ codes "Endpoint"
          ∷ codes "Listen"
          ∷ codes "ServerCertificate"
          ∷ codes "ServerPrivateKey"
          ∷ codes "ServerCertificateSha256"
          ∷ codes "NextHopMac"
          ∷ [])
        >>= λ _.
            validate_fields (codes "NAT") nat (
              codes "AddressV4"
              ∷ codes "AddressV6"
              ∷ codes "PortStart"
              ∷ codes "PortEnd"
              ∷ codes "AutoReservePorts"
              ∷ [])
            >>= λ _. validate_optional (codes "AllowedIPs") allowed (codes "Prefixes" ∷ []) >>= λ _.
                validate_optional (codes "DNS") dns (
                  codes "Listen"
                  ∷ codes "LocalResolver"
                  ∷ codes "RemoteResolver"
                  ∷ codes "RemoteDomainsFile"
                  ∷ codes "TransactionCapacity"
                  ∷ codes "TimeoutSeconds"
                  ∷ [])
                >>= λ _. validate_fields (codes "XDP") xdp (codes "Mode" ∷ []) >>= λ _. ok (record {
                  appliance = appliance;
                  tunnel = tunnel;
                  nat = nat;
                  allowed = allowed;
                  dns = dns;
                  xdp = xdp;
                })

unfoldable pub parse_intercept : Text → Fields → Result ConfigError InterceptConfig
parse_intercept name fields =
    validate_fields name fields (codes "Interface" ∷ codes "NextHopMac" ∷ []) >>= λ _.
    required fields (codes "Interface") >>= λ value. parse_interface value >>= λ interface.
    required fields (codes "NextHopMac") >>= λ mac. parse_mac mac >>= λ next_hop_mac.
    ok (record { interface = interface; next_hop_mac = next_hop_mac })

unfoldable pub parse_intercepts : Sections → Result ConfigError (List InterceptConfig)
unfolding parse_intercept
parse_intercepts [] = ok []
parse_intercepts ((name, fields) ∷ sections) =
    let rest = parse_intercepts sections in
    if starts_with (codes "Intercept") name
    then (parse_intercept name fields >>= λ intercept.
        rest >>= λ intercepts. ok (intercept ∷ intercepts))
    else rest

unfoldable pub parse_role : Fields → Result ConfigError Role
parse_role appliance = required appliance (codes "Role") >>= λ value.
    let name = map to_ascii_lowercase value in
    if name == codes "client"
    then ok client
    else if name == codes "server"
    then ok server
    else err (invalid_role name)

pub record Sizes : Type 0 where
  pub flow_worker_count : ℕ
  pub channel_capacity : ℕ
  pub dcid_len : ℕ
  pub stats_path : Text

unfoldable pub parse_sizes : Fields → Result ConfigError Sizes
parse_sizes appliance =
    parse_integer (2 ^ 64) appliance (codes "FlowWorkerCount") >>= λ flow_worker_count.
    parse_integer (2 ^ 64) appliance (codes "ChannelCapacity") >>= λ channel_capacity.
    parse_integer (2 ^ 64) appliance (codes "DcidLength") >>= λ dcid_len.
    required appliance (codes "StatsPath") >>= λ stats_path.
    reject (nat_beq flow_worker_count 0) zero_flow_workers >>= λ _.
    reject (nat_beq channel_capacity 0) zero_channel_capacity >>= λ _.
    reject (nat_beq dcid_len 0) zero_dcid_length >>= λ _.
    reject (ltb 20 dcid_len) invalid_dcid_length >>= λ _.
    reject (ltb dcid_len 8) insecure_dcid_length >>= λ _. ok (record {
      flow_worker_count = flow_worker_count;
      channel_capacity = channel_capacity;
      dcid_len = dcid_len;
      stats_path = stats_path;
    })

-- An optional field with its parser.
abbrev pub transpose :
    {A : Type 0} → (Text → Option A) → Option Text → ConfigError → Result ConfigError (Option A)
transpose parse none e = ok none
transpose parse (some value) e = ok_or (parse value) e >>= λ a. ok (some a)

pub record TunnelPart : Type 0 where
  pub interface : Text
  pub next_hop_mac : MacAddress
  pub endpoint : Option SocketAddr
  pub listen : Option SocketAddr

-- The fields that the role asks for and those that it forbids.
unfoldable pub check_role_fields :
    Role → Fields → Option SocketAddr → Option SocketAddr → Result ConfigError (Unit {0})
check_role_fields client tunnel endpoint listen =
    reject
      (not (is_some endpoint)
        || is_some listen
        || not (is_some (optional tunnel (codes "ServerCertificateSha256")))
        || is_some (optional tunnel (codes "ServerCertificate"))
        || is_some (optional tunnel (codes "ServerPrivateKey")))
      invalid_client_addressing
check_role_fields server tunnel endpoint listen =
    reject
      (not (is_some listen)
        || is_some endpoint
        || not (is_some (optional tunnel (codes "ServerCertificate")))
        || not (is_some (optional tunnel (codes "ServerPrivateKey")))
        || is_some (optional tunnel (codes "ServerCertificateSha256")))
      invalid_server_addressing

-- `address.is_some_and(p)`
abbrev pub is_some_and : (IpAddr → Bool) → Option SocketAddr → Bool
is_some_and p none = false
is_some_and p (some address) = p address.ip

unfoldable pub parse_tunnel : Host → Role → Fields → Result ConfigError TunnelPart
unfolding check_role_fields
parse_tunnel host role tunnel = required tunnel (codes "Interface") >>= λ name.
    parse_interface name >>= λ interface. required tunnel (codes "NextHopMac") >>= λ mac.
    parse_mac mac >>= λ next_hop_mac.
    transpose host.parse_socket_addr (optional tunnel (codes "Endpoint"))
      (invalid_socket_address (codes "Tunnel.Endpoint"))
    >>= λ endpoint.
        transpose host.parse_socket_addr (optional tunnel (codes "Listen"))
          (invalid_socket_address (codes "Tunnel.Listen"))
        >>= λ listen. check_role_fields role tunnel endpoint listen >>= λ _.
            reject (is_some_and is_unspecified listen) wildcard_listen >>= λ _.
            reject (is_some_and (λ ip. not (is_usable_host_address ip)) endpoint)
              (invalid_ip_address (codes "Tunnel.Endpoint must use a usable unicast address"))
            >>= λ _.
                reject (is_some_and (λ ip. not (is_usable_host_address ip)) listen)
                  (invalid_ip_address (codes "Tunnel.Listen must use a usable unicast address"))
                >>= λ _. ok (record {
                  interface = interface;
                  next_hop_mac = next_hop_mac;
                  endpoint = endpoint;
                  listen = listen;
                })

-- The interfaces are different; `seen` are those before.
unfoldable pub check_interfaces : List Text → List InterceptConfig → Result ConfigError (Unit {0})
unfolding mem_text
check_interfaces seen [] = ok tt
check_interfaces seen (intercept ∷ intercepts) =
    let rest = check_interfaces (intercept.interface ∷ seen) intercepts in
    if mem_text intercept.interface seen
    then err (duplicate_interface intercept.interface)
    else rest

abbrev pub is_server : Role → Bool
is_server client = false
is_server server = true

-- Whether an address is there that no host can use.
abbrev pub is_unusable : Option (List ℕ) → (List ℕ → IpAddr) → Bool
is_unusable none family = false
is_unusable (some octets) family = not (is_usable_host_address (family octets))

pub record NatPart : Type 0 where
  pub address_v4 : Option (List ℕ)
  pub address_v6 : Option (List ℕ)
  pub port_start : ℕ
  pub port_end : ℕ

unfoldable pub parse_nat : Host → Fields → ℕ → Result ConfigError NatPart
parse_nat host nat flow_worker_count =
    transpose host.parse_ipv4 (optional nat (codes "AddressV4"))
      (invalid_ip_address (codes "NAT.AddressV4"))
    >>= λ address_v4.
        transpose host.parse_ipv6 (optional nat (codes "AddressV6"))
          (invalid_ip_address (codes "NAT.AddressV6"))
        >>= λ address_v6.
            reject (not (is_some address_v4) && not (is_some address_v6)) missing_nat_address
            >>= λ _.
                reject (is_unusable address_v4 v4 || is_unusable address_v6 v6)
                  (invalid_ip_address (codes "NAT address must use a usable unicast address"))
                >>= λ _. parse_integer (2 ^ 16) nat (codes "PortStart") >>= λ port_start.
                    parse_integer (2 ^ 16) nat (codes "PortEnd") >>= λ port_end.
                    reject (nat_beq port_start 0 || ltb port_end port_start) invalid_nat_port_range
                    >>= λ _.
                        reject (ltb (port_end - port_start + 1) flow_worker_count)
                          nat_range_too_small
                        >>= λ _. ok (record {
                          address_v4 = address_v4;
                          address_v6 = address_v6;
                          port_start = port_start;
                          port_end = port_end;
                        })

-- A server with AllowedIPs has been refused before.
unfoldable pub parse_policy : Host → Role → Option Fields → Result ConfigError IpPolicy
unfolding parse_ip_policy
parse_policy host client (some allowed) =
    required allowed (codes "Prefixes") >>= λ value. parse_ip_policy host value
parse_policy host client none = err (missing_field (codes "AllowedIPs"))
parse_policy host server allowed = ok (tunnel_prefixes [])

unfoldable pub parse_mode : Fields → Result ConfigError XdpAttachMode
parse_mode xdp = required xdp (codes "Mode") >>= λ value.
    if value == codes "native"
    then ok native
    else if value == codes "skb"
    then ok skb
    else err (unknown_field (codes "XDP") value)

-- `endpoint.or(listen)`
abbrev pub or_else : Option SocketAddr → Option SocketAddr → Option SocketAddr
or_else none b = b
or_else (some a) b = some a
