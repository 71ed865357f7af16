-- ===== src/Dns/Route.antt =====
-- src/flow_plane/dns.rs: which resolver a query goes to, and the key of its transaction.
use new_proxy.Prelude.{
  ℕ, Bool, false, ◌&&◌, ◌||◌, Option, none, some, List, [], ◌∷◌, nat_beq, if◌then◌else◌, ok, err,
  ◌==◌, nat_eq,
}
use new_proxy.Net.{IpAddr, ip_eq, list_eq}
use new_proxy.Quic.Hash.{fnv1a}
use new_proxy.Dns.Message.{DnsQuestion, validate_query, dns_id}

pub record SocketAddr : Type 0 where
  pub ip : IpAddr
  pub port : ℕ

pub data DnsRoute : Type 0 where
  local remote : DnsQuestion → DnsRoute
  local_fallback : DnsRoute

pub data DnsTransactionKey : Type 0 where
  question : SocketAddr → ℕ → List ℕ → ℕ → ℕ → DnsTransactionKey
  opaque : SocketAddr → Option ℕ → ℕ → DnsTransactionKey

-- A set of suffixes, as a list.
abbrev pub RemoteDomainRules : Type 0
RemoteDomainRules = List (List ℕ)

unfoldable pub contains : RemoteDomainRules → List ℕ → Bool
contains [] name = false
contains (rule ∷ rules) name = rule == name || contains rules name

-- `qname.match_indices('.').any(|(offset, _)| suffixes.contains(&qname[offset + 1..]))`
unfoldable pub any_suffix : RemoteDomainRules → List ℕ → Bool
any_suffix rules [] = false
any_suffix rules (c ∷ qname) = (nat_beq c b'.' && contains rules qname) || any_suffix rules qname

unfoldable pub matches : RemoteDomainRules → List ℕ → Bool
matches rules qname = contains rules qname || any_suffix rules qname

-- `name.strip_suffix(suffix)`
unfoldable pub strip_suffix : List ℕ → List ℕ → Option (List ℕ)
strip_suffix [] suffix = if [] == suffix then some [] else none
strip_suffix (c ∷ name) suffix =
    let rest : Option (List ℕ) = elim (strip_suffix name suffix) [
      | none ↦ none
      | some prefix ↦ some (c ∷ prefix)
    ] in
    if c ∷ name == suffix then some [] else rest

-- `prefix.ends_with('.')`
unfoldable pub ends_with_dot : List ℕ → Bool
ends_with_dot [] = false
ends_with_dot (c ∷ []) = nat_beq c b'.'
ends_with_dot (c ∷ d ∷ prefix) = ends_with_dot (d ∷ prefix)

abbrev pub is_dotted : Option (List ℕ) → Bool
is_dotted none = false
is_dotted (some prefix) = ends_with_dot prefix

unfoldable pub domain_matches : List ℕ → List ℕ → Bool
domain_matches rule qname = qname == rule || is_dotted (strip_suffix qname rule)

unfoldable pub classify_query : List ℕ → RemoteDomainRules → DnsRoute
classify_query payload remote_domains = elim (validate_query payload) [
  | ok q ↦ if matches remote_domains q.qname then remote q else local q
  | err _ ↦ local_fallback
]

-- Nothing where the `expect` on the identifier of a valid query fails.
unfoldable pub transaction_key : SocketAddr → List ℕ → Option DnsTransactionKey
transaction_key client payload = elim (validate_query payload) [
  | ok q ↦ elim (dns_id payload) [
    | some id ↦ some (question client id q.qname q.qtype q.qclass)
    | none ↦ none
  ]
  | err _ ↦ some (opaque client (dns_id payload) (fnv1a payload))
]
