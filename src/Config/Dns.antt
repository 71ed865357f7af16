-- ===== src/Config/Dns.antt =====
-- src/v1_config.rs: the DNS section.
use new_proxy.Prelude.{
  Bool, true, false, not, ◌||◌, Option, none, some, nat_beq, nat_eq, Result, ok, err, ok_or, ◌>>=◌,
  ◌>>◌, ◌==◌, is_some, ◌++◌,
}
use new_proxy.Net.{IpAddr, v4, v6, ip_eq, list_eq}
use new_proxy.Dns.Route.{SocketAddr}
use new_proxy.Config.Text.{Text, codes}
use new_proxy.Config.Types.{
  ConfigError, invalid_dns, invalid_socket_address, NatConfig, DnsConfig, Role, client, server,
  Host,
}
use new_proxy.Config.Ini.{Fields}
use new_proxy.Config.Fields.{
  required, parse_optional_integer, is_unspecified, is_usable_host_address,
}
use new_proxy.Config.Domains.{load_remote_domains}

-- `if condition { return Err(error) }`
abbrev pub reject : Bool → ConfigError → Result ConfigError (Unit {0})
reject true e = err e
reject false e = ok tt

unfoldable pub parse_dns_socket : Host → Fields → Text → Result ConfigError SocketAddr
parse_dns_socket host fields field = required fields field >>= λ value.
    ok_or (host.parse_socket_addr value) (invalid_socket_address (codes "DNS." ++ field))

abbrev pub is_ipv4 : IpAddr → Bool
is_ipv4 (v4 _) = true
is_ipv4 (v6 _) = false

-- Whether NAT has an address of the family.
abbrev pub has_family : NatConfig → IpAddr → Bool
has_family nat (v4 _) = is_some nat.address_v4
has_family nat (v6 _) = is_some nat.address_v6

abbrev pub ensure_resolver_family : Text → IpAddr → NatConfig → Result ConfigError (Unit {0})
ensure_resolver_family field (v4 address) nat =
    reject (not (is_some nat.address_v4)) (invalid_dns (field ++ codes " requires NAT.AddressV4"))
ensure_resolver_family field (v6 address) nat =
    reject (not (is_some nat.address_v6)) (invalid_dns (field ++ codes " requires NAT.AddressV6"))

-- `Some(address) == nat.address_v4.map(IpAddr::V4) || …`
unfoldable pub is_nat_address : NatConfig → IpAddr → Bool
is_nat_address nat (v4 a) = elim nat.address_v4 [ none ↦ false | some b ↦ a == b ]
is_nat_address nat (v6 a) = elim nat.address_v6 [ none ↦ false | some b ↦ a == b ]

abbrev pub different : Bool → Bool → Bool
different true b = not b
different false b = b

-- The checks of the three addresses, in the order of the source.
unfoldable pub check_dns_addresses :
    NatConfig → SocketAddr → SocketAddr → SocketAddr → Result ConfigError (Unit {0})
unfolding is_nat_address
check_dns_addresses nat listen local_resolver remote_resolver =
    reject
      (not (is_usable_host_address listen.ip)
        || not (is_usable_host_address local_resolver.ip)
        || not (is_usable_host_address remote_resolver.ip))
      (invalid_dns (codes "DNS addresses must use usable unicast addresses"))
    >> reject
        (different (is_ipv4 listen.ip) (is_ipv4 local_resolver.ip)
          || different (is_ipv4 listen.ip) (is_ipv4 remote_resolver.ip))
        (invalid_dns
          (codes "DNS.Listen, LocalResolver and RemoteResolver must use the same address family"))
    >> ensure_resolver_family (codes "DNS.LocalResolver") local_resolver.ip nat
    >> ensure_resolver_family (codes "DNS.RemoteResolver") remote_resolver.ip nat
    >> reject (is_nat_address nat listen.ip)
        (invalid_dns (codes "DNS.Listen must not equal a NAT address"))
    >> reject (listen.ip == local_resolver.ip || listen.ip == remote_resolver.ip)
        (invalid_dns (codes "DNS.Listen must not equal a resolver address"))

pub record DnsAddresses : Type 0 where
  pub listen : SocketAddr
  pub local_resolver : SocketAddr
  pub remote_resolver : SocketAddr

-- The addresses of the DNS section.
unfoldable pub parse_dns_addresses : Host → Fields → NatConfig → Result ConfigError DnsAddresses
unfolding parse_dns_socket check_dns_addresses
parse_dns_addresses host fields nat = parse_dns_socket host fields (codes "Listen") >>= λ listen.
    reject (not (nat_beq listen.port 53) || is_unspecified listen.ip)
      (invalid_dns (codes "DNS.Listen must use a concrete UDP/53 VIP"))
    >>= λ _. parse_dns_socket host fields (codes "LocalResolver") >>= λ local_resolver.
        parse_dns_socket host fields (codes "RemoteResolver") >>= λ remote_resolver.
        reject (not (nat_beq local_resolver.port 53) || not (nat_beq remote_resolver.port 53))
          (invalid_dns (codes "DNS resolvers must use UDP port 53"))
        >>= λ _. check_dns_addresses nat listen local_resolver remote_resolver >>= λ _. ok (record {
          listen = listen;
          local_resolver = local_resolver;
          remote_resolver = remote_resolver;
        })

-- The limits and the domains of the DNS section.
unfoldable pub parse_dns_limits : Host → Fields → DnsAddresses → Result ConfigError DnsConfig
unfolding load_remote_domains
parse_dns_limits host fields addresses =
    parse_optional_integer fields (codes "TransactionCapacity") 4096 >>= λ transaction_capacity.
    reject (nat_beq transaction_capacity 0)
      (invalid_dns (codes "DNS.TransactionCapacity must be greater than zero"))
    >>= λ _. parse_optional_integer fields (codes "TimeoutSeconds") 5 >>= λ timeout_seconds.
        reject (nat_beq timeout_seconds 0)
          (invalid_dns (codes "DNS.TimeoutSeconds must be greater than zero"))
        >>= λ _. required fields (codes "RemoteDomainsFile") >>= λ path.
            load_remote_domains host path >>= λ remote_domains. ok (record {
              listen = addresses.listen;
              local_resolver = addresses.local_resolver;
              remote_resolver = addresses.remote_resolver;
              remote_domains = remote_domains;
              transaction_capacity = transaction_capacity;
              timeout_seconds = timeout_seconds;
            })

unfoldable pub parse_dns_config :
    Host → Role → Option Fields → NatConfig → Result ConfigError (Option DnsConfig)
unfolding parse_dns_addresses parse_dns_limits
parse_dns_config host role none nat = ok none
parse_dns_config host server (some fields) nat =
    err (invalid_dns (codes "[DNS] is only valid for client configs"))
parse_dns_config host client (some fields) nat =
    parse_dns_addresses host fields nat >>= λ addresses.
    parse_dns_limits host fields addresses >>= λ dns. ok (some dns)
