-- ===== src/Dns/Keys.antt =====
-- src/flow_plane/dns.rs: equality of socket addresses and of transaction keys.
use new_proxy.Prelude.{
  ℕ, Bool, true, false, ◌&&◌, Option, none, some, ◌≡◌, ◌↔◌, arith, Eq, ◌==◌, nat_eq, nat_beq,
}
use new_proxy.Net.{ip_eq, ip_beq_iff, io_eq, list_beq_iff, list_beq}
use new_proxy.Dns.Route.{SocketAddr, DnsTransactionKey, question, opaque}

unfoldable pub socket_beq : SocketAddr → SocketAddr → Bool
socket_beq a b = a.ip == b.ip && nat_beq a.port b.port

pub socket_beq_iff : (a b : SocketAddr) → (socket_beq a b ≡ true) ↔ (a ≡ b)
unfolding socket_beq
socket_beq_iff a b = ground (arith, ip_beq_iff a.ip b.ip)

instance abbrev pub socket_eq : Eq SocketAddr
socket_eq = record { beq = socket_beq; beq_iff = socket_beq_iff }

abbrev id_beq : Option ℕ → Option ℕ → Bool
id_beq none none = true
id_beq (some a) (some b) = nat_beq a b
id_beq _ _ = false

unfoldable pub key_beq : DnsTransactionKey → DnsTransactionKey → Bool
key_beq (question a i n t c) (question a' i' n' t' c') =
    socket_beq a a' && (nat_beq i i' && (list_beq n n' && (nat_beq t t' && nat_beq c c')))
key_beq (opaque a i h) (opaque a' i' h') = socket_beq a a' && (id_beq i i' && nat_beq h h')
key_beq _ _ = false

pub key_beq_iff : (a b : DnsTransactionKey) → (key_beq a b ≡ true) ↔ (a ≡ b)
unfolding key_beq
key_beq_iff (question a i n t c) (question a' i' n' t' c') =
    ground (arith, socket_beq_iff a a', list_beq_iff n n')
key_beq_iff (opaque a i h) (opaque a' i' h') = ground (arith, socket_beq_iff a a')
key_beq_iff (question a i n t c) (opaque a' i' h') = ground arith
key_beq_iff (opaque a i h) (question a' i' n' t' c') = ground arith

instance abbrev pub key_eq : Eq DnsTransactionKey
key_eq = record { beq = key_beq; beq_iff = key_beq_iff }
