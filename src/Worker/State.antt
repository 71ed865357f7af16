-- ===== src/Worker/State.antt =====
-- src/flow_plane/worker.rs: the state of a flow worker, and its methods as actions on it.
use new_proxy.Prelude.{
  ℕ, Bool, true, ◌&&◌, Option, none, some, List, [], ◌≡◌, ◌↔◌, arith, Result, ok, err, Eq, ◌==◌,
  nat_eq,
}
use new_proxy.HashMap.{HashMap}
use new_proxy.BTreeMap.{BTreeMap}
use new_proxy.Net.{
  SessionId, Instant, IpAddr, v4, v6, FlowKey, flow_eq, IoOwnerKey, io_eq, io_beq_iff,
}
use new_proxy.Packet.Header.{PacketError}
use new_proxy.Nat.Directory.{NatBinding}
use new_proxy.Session
use new_proxy.Session.Table.{SessionTable, Session, SessionError}
use new_proxy.Dns.Route.{SocketAddr, RemoteDomainRules, DnsTransactionKey}
use new_proxy.Dns.Keys.{key_eq, key_beq_iff}

pub record OuterRoute : Type 0 where
  pub source_ip : Option IpAddr
  pub source_port : ℕ
  pub destination : SocketAddr

pub record IoTransmit : Type 0 where
  pub target : IoOwnerKey
  pub packet : List ℕ
  pub outer : Option OuterRoute

pub record FlowWorkerStats : Type 0 where
  pub queue_mismatch_drops : ℕ
  pub unknown_dcid_drops : ℕ
  pub session_nat_exhausted : ℕ
  pub dns_query_local : ℕ
  pub dns_query_remote : ℕ
  pub dns_response_local : ℕ
  pub dns_response_remote : ℕ
  pub dns_servfail : ℕ
  pub dns_capacity_exhausted : ℕ
  pub dns_nat_exhausted : ℕ
  pub dns_malformed_local_fallback : ℕ
  pub dns_spoofed_response_drop : ℕ
  pub dns_late_response_drop : ℕ
  pub dns_edns_clamped : ℕ
  pub dns_timeout : ℕ
  pub dns_transactions_active : ℕ

abbrev pub no_stats : FlowWorkerStats
no_stats = record {
  queue_mismatch_drops = 0;
  unknown_dcid_drops = 0;
  session_nat_exhausted = 0;
  dns_query_local = 0;
  dns_query_remote = 0;
  dns_response_local = 0;
  dns_response_remote = 0;
  dns_servfail = 0;
  dns_capacity_exhausted = 0;
  dns_nat_exhausted = 0;
  dns_malformed_local_fallback = 0;
  dns_spoofed_response_drop = 0;
  dns_late_response_drop = 0;
  dns_edns_clamped = 0;
  dns_timeout = 0;
  dns_transactions_active = 0;
}

pub record DnsFlowConfig : Type 0 where
  pub listen : SocketAddr
  pub local_resolver : SocketAddr
  pub remote_resolver : SocketAddr
  pub remote_domains : RemoteDomainRules
  pub transaction_capacity : ℕ
  pub timeout : ℕ
  pub remote_available : Bool

pub record DnsFlowTransaction : Type 0 where
  pub token : SessionId
  pub client : SocketAddr
  pub dns_vip : SocketAddr
  pub binding : NatBinding
  pub local_target : IoOwnerKey
  pub is_remote : Bool
  pub created_at : Instant
  pub expires_at : Instant
  pub original_packet : List ℕ

pub record DnsFlowTransactionKey : Type 0 where
  pub io_owner : IoOwnerKey
  pub dns : DnsTransactionKey

unfoldable pub flow_key_beq : DnsFlowTransactionKey → DnsFlowTransactionKey → Bool
flow_key_beq a b = a.io_owner == b.io_owner && a.dns == b.dns

pub flow_key_beq_iff : (a b : DnsFlowTransactionKey) → (flow_key_beq a b ≡ true) ↔ (a ≡ b)
unfolding flow_key_beq
flow_key_beq_iff a b = ground (arith, io_beq_iff a.io_owner b.io_owner, key_beq_iff a.dns b.dns)

instance abbrev pub flow_key_eq : Eq DnsFlowTransactionKey
flow_key_eq = record { beq = flow_key_beq; beq_iff = flow_key_beq_iff }

pub data DnsFlowError : Type 0 where
  not_dns_query capacity_exhausted : DnsFlowError

-- `panicked` stands for an `expect` that fails.
pub data FlowWorkerError : Type 0 where
  packet_error : PacketError → FlowWorkerError
  session_error : SessionError → FlowWorkerError
  dns_error : DnsFlowError → FlowWorkerError
  wrong_quic_flow_owner : ℕ → ℕ → FlowWorkerError
  panicked : FlowWorkerError

pub record FlowWorkerState : Type 0 where
  pub worker_id : ℕ
  pub sessions : SessionTable
  pub next_dns_token : ℕ
  pub dns_by_key : HashMap DnsFlowTransactionKey DnsFlowTransaction
  pub dns_by_reverse : HashMap FlowKey DnsFlowTransactionKey
  pub dns_deadlines : BTreeMap (HashMap DnsFlowTransactionKey (Unit {0}))
  pub dns_completed_reverse : HashMap FlowKey ℕ
  pub dns_completed_order : BTreeMap FlowKey
  pub next_dns_completed_sequence : ℕ
  pub stats : FlowWorkerStats

unfoldable pub new_dual :
    ℕ → Option (List ℕ) → Option (List ℕ) → ℕ → ℕ → Result SessionError FlowWorkerState
new_dual worker_id snat_ipv4 snat_ipv6 first last =
    elim (Session.Table.new_dual worker_id snat_ipv4 snat_ipv6 first last) [
      | err e ↦ err e
      | ok sessions ↦ ok (record {
        worker_id = worker_id;
        sessions = sessions;
        next_dns_token = 1;
        dns_by_key = [];
        dns_by_reverse = [];
        dns_deadlines = [];
        dns_completed_reverse = [];
        dns_completed_order = [];
        next_dns_completed_sequence = 1;
        stats = no_stats;
      })
    ]

unfoldable pub new : ℕ → IpAddr → ℕ → ℕ → Result SessionError FlowWorkerState
unfolding new_dual
new worker_id (v4 address) first last = new_dual worker_id (some address) none first last
new worker_id (v6 address) first last = new_dual worker_id none (some address) first last

-- A method: what it writes before an error stays written.
abbrev pub Action : Type 0 → Type 0
Action A = FlowWorkerState → FlowWorkerState × Result FlowWorkerError A

module _ {A : Type 0} where
  unfoldable pub pure : A → Action A
  pure a w = (w, ok a)

  unfoldable pub fail : FlowWorkerError → Action A
  fail e w = (w, err e)

  unfoldable pub of_packet : Result PacketError A → Action A
  of_packet (ok a) w = (w, ok a)
  of_packet (err e) w = (w, err (packet_error e))

  unfoldable pub expect : Option A → Action A
  expect (some a) w = (w, ok a)
  expect none w = (w, err panicked)

  -- A method of the session table.
  unfoldable pub of_sessions : (SessionTable → SessionTable × Result SessionError A) → Action A
  of_sessions m w =
      let (t, outcome) = m w.sessions in
      (record w { sessions = t }, elim outcome [ ok a ↦ ok a | err e ↦ err (session_error e) ])

  unfoldable pub gets : (FlowWorkerState → A) → Action A
  gets f w = (w, ok (f w))

unfoldable pub modify : (FlowWorkerState → FlowWorkerState) → Action (Unit {0})
modify f w = (f w, ok tt)

unfoldable pub count : (FlowWorkerStats → FlowWorkerStats) → Action (Unit {0})
count f w = (record w { stats = f w.stats }, ok tt)

infixl 5 ◌>>=◌ ◌>>◌
unfoldable pub ◌>>=◌ : {A B : Type 0} → Action A → (A → Action B) → Action B
◌>>=◌ m f w = let (w', r) = m w in elim r [ ok a ↦ f a w' | err e ↦ (w', err e) ]

abbrev pub ◌>>◌ : {A B : Type 0} → Action A → Action B → Action B
m >> k = m >>= λ _. k

-- The buffer that a packet function has written; on an error it is dropped.
unfoldable pub written : {A : Type 0} → List ℕ × Result PacketError A → Action (List ℕ)
written (p, ok _) w = (w, ok p)
written (p, err e) w = (w, err (packet_error e))
