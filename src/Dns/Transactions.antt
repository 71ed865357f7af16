-- ===== src/Dns/Transactions.antt =====
-- src/flow_plane/dns.rs: `DnsTransactionTable`, the queries in flight.
use new_proxy.Prelude.{
  ℕ, ◌+◌, ◌-◌, ◌%◌, ◌^◌, max, Bool, true, false, ◌&&◌, Option, none, some, [], length, ltb, leb,
  ◌≡◌, ◌↔◌, arith, nat_beq, if◌then◌else◌, Result, ok, err, Eq, ◌==◌, nat_eq,
}
use new_proxy.HashMap
use new_proxy.HashMap.{HashMap}
use new_proxy.BTreeMap
use new_proxy.BTreeMap.{BTreeSet}
use new_proxy.Net.{IpAddr, ip_eq, ip_beq_iff}
use new_proxy.Dns.Name.{DnsError, capacity_exhausted, nat_port_exhausted, invalid_port_range}
use new_proxy.Dns.Route.{SocketAddr, DnsTransactionKey}
use new_proxy.Dns.Keys.{socket_beq, socket_beq_iff, key_eq}

pub record DnsReverseKey : Type 0 where
  pub resolver : SocketAddr
  pub nat_ip : IpAddr
  pub nat_port : ℕ

unfoldable pub reverse_beq : DnsReverseKey → DnsReverseKey → Bool
reverse_beq a b =
    socket_beq a.resolver b.resolver && (a.nat_ip == b.nat_ip && nat_beq a.nat_port b.nat_port)

pub reverse_beq_iff : (a b : DnsReverseKey) → (reverse_beq a b ≡ true) ↔ (a ≡ b)
unfolding reverse_beq
reverse_beq_iff a b =
    ground (arith, socket_beq_iff a.resolver b.resolver, ip_beq_iff a.nat_ip b.nat_ip)

instance abbrev pub reverse_eq : Eq DnsReverseKey
reverse_eq = record { beq = reverse_beq; beq_iff = reverse_beq_iff }

pub record DnsTransaction : Type 0 where
  pub id : ℕ
  pub key : DnsTransactionKey
  pub client : SocketAddr
  pub resolver : SocketAddr
  pub nat_ip : IpAddr
  pub nat_port : ℕ

pub record DnsTransactionTable : Type 0 where
  pub capacity : ℕ
  pub nat_ip : IpAddr
  pub available_ports : BTreeSet
  pub next_id : ℕ
  pub by_key : HashMap DnsTransactionKey DnsTransaction
  pub by_id : HashMap ℕ DnsTransactionKey
  pub reverse : HashMap DnsReverseKey ℕ

unfoldable pub new : ℕ → IpAddr → ℕ → ℕ → Result DnsError DnsTransactionTable
new capacity nat_ip first last =
    if ltb last first
    then err invalid_port_range
    else ok (record {
      capacity = capacity;
      nat_ip = nat_ip;
      available_ports = BTreeMap.range first (last + 1 - first);
      next_id = 1;
      by_key = [];
      by_id = [];
      reverse = [];
    })

abbrev pub reverse_of : DnsTransaction → DnsReverseKey
reverse_of d = record { resolver = d.resolver; nat_ip = d.nat_ip; nat_port = d.nat_port }

-- The writes for a new transaction on a port.
unfoldable pub add : DnsTransactionTable → DnsTransaction → DnsTransactionTable
add t d = record t {
  available_ports = BTreeMap.remove d.nat_port t.available_ports;
  next_id = max ((t.next_id + 1) % 2 ^ 64) 1;
  by_id = HashMap.insert d.id d.key t.by_id;
  reverse = HashMap.insert (reverse_of d) d.id t.reverse;
  by_key = HashMap.insert d.key d t.by_key;
}

unfoldable pub get_or_create :
    DnsTransactionTable
    → DnsTransactionKey
    → SocketAddr
    → SocketAddr
    → DnsTransactionTable × Result DnsError DnsTransaction
get_or_create t key client resolver = elim (HashMap.get key t.by_key) [
  | some d ↦ (t, ok d)
  | none ↦ elim (leb t.capacity (length t.by_key)) [
    | true ↦ (t, err capacity_exhausted)
    | false ↦ elim (BTreeMap.first t.available_ports) [
      | none ↦ (t, err nat_port_exhausted)
      | some (port, _) ↦
          let d : DnsTransaction = record {
            id = t.next_id;
            key = key;
            client = client;
            resolver = resolver;
            nat_ip = t.nat_ip;
            nat_port = port;
          } in
          (add t d, ok d)
    ]
  ]
]

unfoldable pub lookup_reverse : DnsTransactionTable → DnsReverseKey → Option DnsTransaction
lookup_reverse t key = elim (HashMap.get key t.reverse) [
  | none ↦ none
  | some id ↦ elim (HashMap.get id t.by_id) [ none ↦ none | some k ↦ HashMap.get k t.by_key ]
]

unfoldable pub complete : DnsTransactionTable → ℕ → DnsTransactionTable × Option DnsTransaction
complete t id = elim (HashMap.get id t.by_id) [
  | none ↦ (t, none)
  | some key ↦
      let t' : DnsTransactionTable = record t { by_id = HashMap.remove id t.by_id } in
      elim (HashMap.get key t.by_key) [
        | none ↦ (t', none)
        | some d ↦ (
          record t' {
            by_key = HashMap.remove key t.by_key;
            reverse = HashMap.remove (reverse_of d) t.reverse;
            available_ports = BTreeMap.insert d.nat_port tt t.available_ports;
          },
          some d,
        )
      ]
]
