-- ===== src/Config/Prefixes.antt =====
-- src/v1_config.rs: the AllowedIPs policy.
use new_proxy.Prelude.{
  ℕ, suc, ◌+◌, ◌-◌, Bool, true, false, not, ◌&&◌, ◌||◌, none, some, List, [], ◌∷◌, ◌++◌, length,
  map, nat_beq, nat_eq, ltb, if◌then◌else◌, Result, ok, err, ok_or, ◌>>=◌, ◌==◌,
}
use new_proxy.Net.{IpAddr, v4, v6, ip_eq}
use new_proxy.Config.Text.{
  Text, codes, trim, before, split, split_first, starts_with, strip_prefix, lines,
}
use new_proxy.Config.Types.{
  ConfigError, empty_allowed_ips, mixed_allowed_ip_modes, invalid_allowed_ip, allowed_ip_file,
  allowed_ip_capacity, Family, ipv4, ipv6, IpNet, IpPolicy, tunnel_prefixes, direct_prefixes, Host,
}

abbrev pub lpm_prefix_capacity_per_family : ℕ
lpm_prefix_capacity_per_family = 65536 - 16

unfoldable pub is_file_term : Text → Bool
unfolding starts_with
is_file_term term = starts_with (codes "file:") term || starts_with (codes "!file:") term

unfoldable pub normalize_prefix : Host → IpNet → IpNet
normalize_prefix host prefix = record {
  address = host.network prefix;
  prefix_len = prefix.prefix_len;
}

unfoldable pub mem_net : IpNet → List IpNet → Bool
mem_net n [] = false
mem_net n (m ∷ nets) =
    (m.address == n.address && nat_beq m.prefix_len n.prefix_len) || mem_net n nets

abbrev pub family_of : IpAddr → Family
family_of (v4 _) = ipv4
family_of (v6 _) = ipv6

abbrev pub same_family : Family → Family → Bool
same_family ipv4 ipv4 = true
same_family ipv6 ipv6 = true
same_family _ _ = false

-- How many of the prefixes have the family: `ipv4_count` and `ipv6_count`.
unfoldable pub count_family : Family → List IpNet → ℕ
count_family f [] = 0
count_family f (n ∷ nets) =
    let rest = count_family f nets in if same_family f (family_of n.address) then suc rest else rest

-- A prefix that has not been seen is counted and added.
unfoldable pub add_prefix : List IpNet → IpNet → Result ConfigError (List IpNet)
unfolding mem_net count_family
add_prefix prefixes prefix =
    let family = family_of prefix.address in
    if mem_net prefix prefixes
    then ok prefixes
    else if ltb lpm_prefix_capacity_per_family (count_family family prefixes + 1)
    then err (allowed_ip_capacity family lpm_prefix_capacity_per_family)
    else ok (prefixes ++ prefix ∷ [])

-- The loop of `parse_cidr_terms`; `prefixes` are those that have been seen.
unfoldable pub add_prefixes : Host → List IpNet → List Text → Result ConfigError (List IpNet)
unfolding is_file_term normalize_prefix add_prefix
add_prefixes host prefixes [] = ok prefixes
add_prefixes host prefixes (term ∷ terms) =
    if is_file_term term
    then err mixed_allowed_ip_modes
    else ok_or (host.parse_ip_net term) (invalid_allowed_ip term) >>= λ net.
        add_prefix prefixes (normalize_prefix host net) >>= λ added. add_prefixes host added terms

unfoldable pub parse_cidr_terms : Host → List Text → Result ConfigError (List IpNet)
unfolding add_prefixes
parse_cidr_terms host terms = elim (add_prefixes host [] terms) [
  | err e ↦ err e
  | ok [] ↦ err empty_allowed_ips
  | ok (prefix ∷ prefixes) ↦ ok (prefix ∷ prefixes)
]

-- `filter(|term| !term.is_empty())`
unfoldable pub not_empty : List Text → List Text
not_empty [] = []
not_empty ([] ∷ terms) = not_empty terms
not_empty ((c ∷ term) ∷ terms) = (c ∷ term) ∷ not_empty terms

abbrev pub without_comment : Text → Text
without_comment line = trim (before 35 line)

unfoldable pub load_cidr_file : Host → Text → Result ConfigError (List IpNet)
unfolding parse_cidr_terms not_empty lines
load_cidr_file host path =
    if nat_beq (length (trim path)) 0
    then err (allowed_ip_file (trim path))
    else ok_or (host.read_to_string (trim path))
        (allowed_ip_file (codes "failed to read AllowedIPs file"))
      >>= λ text. parse_cidr_terms host (not_empty (map without_comment (lines text)))

-- The terms that name files.
unfoldable pub file_terms : List Text → ℕ
unfolding is_file_term
file_terms [] = 0
file_terms (term ∷ terms) =
    let rest = file_terms terms in if is_file_term term then suc rest else rest

-- The policy of the terms, the first of which tells its mode.
unfoldable pub policy_of : Host → Text → List Text → Result ConfigError IpPolicy
unfolding load_cidr_file
policy_of host first terms = elim (strip_prefix (codes "file:") first) [
  | some path ↦ load_cidr_file host path >>= λ nets. ok (tunnel_prefixes nets)
  | none ↦ elim (strip_prefix (codes "!file:") first) [
    | some path ↦ load_cidr_file host path >>= λ nets. ok (direct_prefixes nets)
    | none ↦ parse_cidr_terms host (first ∷ terms) >>= λ nets. ok (tunnel_prefixes nets)
  ]
]

unfoldable pub parse_ip_policy : Host → Text → Result ConfigError IpPolicy
unfolding file_terms policy_of not_empty split_first
parse_ip_policy host value = elim (not_empty (map trim (split 44 (trim value)))) [
  | [] ↦ err empty_allowed_ips
  | first ∷ terms ↦
      let files = file_terms (first ∷ terms) in
      if ltb 0 files && (not (nat_beq files 1) || not (nat_beq (length terms) 0))
      then err mixed_allowed_ip_modes
      else policy_of host first terms
]
