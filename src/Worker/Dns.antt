-- ===== src/Worker/Dns.antt =====
-- src/flow_plane/worker.rs: DNS queries to the worker's address, their answers, and their end. A
-- query's checks stand in `check_query`, its route in `admit_query`.
use new_proxy.Prelude.{
  ℕ, Option, ◌+◌, Bool, true, false, not, ◌&&◌, none, some, List, length, ltb, leb, nat_beq, nat_eq,
  if◌then◌else◌, ok, err, ◌==◌, is_some,
}
use new_proxy.HashMap
use new_proxy.HashMap.{HashMap}
use new_proxy.Net
use new_proxy.Net.{
  SessionId, Instant, FlowKey, flow_eq, IoOwnerKey, udp, IpAddr, ip_eq, TransportProtocol,
  protocol_eq,
}
use new_proxy.Packet.Header.{ip_packet_is_fragmented}
use new_proxy.Packet.Flow.{parse_flow_key}
use new_proxy.Packet.Udp.{udp_payload}
use new_proxy.Packet.Rewrite.{rewrite_packet}
use new_proxy.Packet.Forward.{prepare_forwarded_packet}
use new_proxy.Nat.Directory.{NatBinding}
use new_proxy.Session.Bulk.{allocate_ephemeral_nat}
use new_proxy.Dns.Message.{dns_payload_max, parse_question}
use new_proxy.Dns.Route.{
  DnsRoute, SocketAddr, local, remote, local_fallback, classify_query, transaction_key,
}
use new_proxy.Worker.State.{
  dns_error, not_dns_query, IoTransmit, DnsFlowConfig, DnsFlowTransaction, DnsFlowTransactionKey,
  flow_key_eq, Action, pure, fail, expect, of_packet, of_sessions, gets, modify, count, written,
  ◌>>=◌, ◌>>◌,
}
use new_proxy.Worker.Servfail.{edns_clamp_packet, dns_servfail_transmit}
use new_proxy.Worker.Intercept.{is_exhausted}
use new_proxy.Worker.Transactions.{
  set_active, next_dns_session_token, add_transaction, forget_completed_dns_reverse,
}

pub data HandledDnsQuery : Type 0 where
  sent_local : IoTransmit → NatBinding → SessionId → HandledDnsQuery
  sent_remote : List ℕ → NatBinding → SessionId → HandledDnsQuery
  servfail : IoTransmit → HandledDnsQuery

pub record HandledDnsResponse : Type 0 where
  pub local_target : IoOwnerKey
  pub packet : List ℕ
  pub binding : NatBinding
  pub transaction_id : SessionId

pub record ExpiredDnsTransaction : Type 0 where
  pub transmit : IoTransmit
  pub binding : NatBinding
  pub transaction_id : SessionId

abbrev pub count_servfail : Action (Unit {0})
count_servfail = count (λ s. record s { dns_servfail = s.dns_servfail + 1 })

unfoldable pub rewrite_dns_query : List ℕ → DnsFlowTransaction → Action HandledDnsQuery
rewrite_dns_query packet d = do
  rewritten ← written (rewrite_packet packet d.binding.translated)
  pure (
      if d.is_remote
      then sent_remote rewritten d.binding d.token
      else sent_local (record { target = d.local_target; packet = rewritten; outer = none })
          d.binding d.token)

-- `self.stats.dns_servfail += 1; return Ok(Servfail(dns_servfail_transmit(…)?))`
unfoldable pub refuse : IoOwnerKey → List ℕ → FlowKey → DnsFlowConfig → Action HandledDnsQuery
refuse io_owner packet flow config = do
  count_servfail
  transmit ← of_packet (dns_servfail_transmit io_owner packet flow config)
  pure (servfail transmit)

unfoldable pub is_dns_query : FlowKey → DnsFlowConfig → Bool
is_dns_query flow config =
    (flow.protocol == udp)
    && (flow.destination == config.listen.ip)
    && nat_beq flow.destination_port config.listen.port

-- The transaction of a query that has its token and its binding.
abbrev pub transaction_of :
    IoOwnerKey
    → List ℕ
    → FlowKey
    → DnsFlowConfig
    → Instant
    → Bool
    → SessionId
    → NatBinding
    → DnsFlowTransaction
transaction_of io_owner packet flow config now is_remote token binding = record {
  token = token;
  client = record { ip = flow.source; port = flow.source_port };
  dns_vip = config.listen;
  binding = binding;
  local_target = io_owner;
  is_remote = is_remote;
  created_at = now;
  expires_at = now + config.timeout;
  original_packet = packet;
}

-- `if remote { dns_query_remote += 1 } else { dns_query_local += 1 }`
abbrev pub count_query : Bool → Action (Unit {0})
count_query true = count (λ s. record s { dns_query_remote = s.dns_query_remote + 1 })
count_query false = count (λ s. record s { dns_query_local = s.dns_query_local + 1 })

-- A query that has its token and its binding enters the indexes.
unfoldable pub start_transaction :
    DnsFlowTransactionKey → List ℕ → DnsFlowTransaction → Action HandledDnsQuery
unfolding rewrite_dns_query
start_transaction key packet d = do
  modify (λ w. forget_completed_dns_reverse w (Net.reverse d.binding.translated))
  modify (λ w. add_transaction w key d)
  modify set_active
  count_query d.is_remote
  rewrite_dns_query packet d

-- The lease of a query. A range that is exhausted is counted and answered.
unfoldable pub lease_query :
    IoOwnerKey
    → List ℕ
    → FlowKey
    → DnsFlowConfig
    → DnsFlowTransactionKey
    → SocketAddr
    → Bool
    → Instant
    → Instant
    → Action HandledDnsQuery
unfolding refuse is_exhausted start_transaction
lease_query io_owner packet flow config key resolver is_remote now clock = do
  token ← next_dns_session_token
  let selected_flow : FlowKey = record {
    source = flow.source;
    destination = resolver.ip;
    source_port = flow.source_port;
    destination_port = resolver.port;
    protocol = udp;
  }
  λ w.
      let (w', outcome) =
        of_sessions (λ t. allocate_ephemeral_nat t w.worker_id token selected_flow clock) w in
      elim outcome [
        | ok binding ↦
            start_transaction key packet
              (transaction_of io_owner packet flow config now is_remote token binding) w'
        | err e ↦
            if is_exhausted e
            then (count (λ s. record s { dns_nat_exhausted = s.dns_nat_exhausted + 1 })
                  >> refuse io_owner packet flow config)
                w'
            else (w', err e)
      ]

-- The resolver of a route, and whether it is the remote one.
unfoldable pub resolver_of : DnsFlowConfig → DnsRoute → Action (SocketAddr × Bool)
resolver_of config (remote _) = pure (config.remote_resolver, true)
resolver_of config (local _) = pure (config.local_resolver, false)
resolver_of config local_fallback = do
  count (λ s. record s { dns_malformed_local_fallback = s.dns_malformed_local_fallback + 1 })
  pure (config.local_resolver, false)

unfoldable pub route_query : List ℕ → Bool → DnsFlowConfig → Action (SocketAddr × Bool)
unfolding resolver_of
route_query payload malformed_sections config =
    resolver_of config
      (if malformed_sections then local_fallback else classify_query payload config.remote_domains)

-- A query that is new, from its route on.
unfoldable pub admit_query :
    IoOwnerKey
    → List ℕ
    → FlowKey
    → DnsFlowConfig
    → DnsFlowTransactionKey
    → List ℕ
    → Bool
    → Instant
    → Instant
    → Action HandledDnsQuery
unfolding route_query refuse lease_query
admit_query io_owner packet flow config key payload malformed_sections now clock = do
  (resolver, is_remote) ← route_query payload malformed_sections config
  active ← gets (λ w. length w.dns_by_key)
  let full : Action HandledDnsQuery = do
    count (λ s. record s { dns_capacity_exhausted = s.dns_capacity_exhausted + 1 })
    refuse io_owner packet flow config
  if is_remote && not config.remote_available
      then refuse io_owner packet flow config
      else if leb config.transaction_capacity active
      then full
      else lease_query io_owner packet flow config key resolver is_remote now clock

-- `malformed_sections` is left out: it is that the value is `none`.
unfoldable pub count_clamped : Option Bool → Action (Unit {0})
count_clamped (some true) = count (λ s. record s { dns_edns_clamped = s.dns_edns_clamped + 1 })
count_clamped (some false) = pure tt
count_clamped none = pure tt

-- A query whose payload is not too long: its EDNS size is clamped, and its key is looked up.
unfoldable pub check_query :
    IoOwnerKey → List ℕ → FlowKey → DnsFlowConfig → Instant → Instant → Action HandledDnsQuery
unfolding refuse admit_query rewrite_dns_query count_clamped
check_query io_owner packet flow config now clock = do
  (clamped_packet, clamped) ← of_packet (edns_clamp_packet packet)
  count_clamped clamped
  payload ← of_packet (udp_payload clamped_packet)
  let answer : Action HandledDnsQuery = do
    dns ← expect (transaction_key (record { ip = flow.source; port = flow.source_port }) payload)
    let key : DnsFlowTransactionKey = record { io_owner = io_owner; dns = dns }
    known ← gets (λ w. HashMap.get key w.dns_by_key)
    elim known [
      | some d ↦ rewrite_dns_query clamped_packet d
      | none ↦
          admit_query io_owner clamped_packet flow config key payload (not (is_some clamped)) now
            clock
    ]
  elim (parse_question payload) [
    | err _ ↦ refuse io_owner clamped_packet flow config
    | ok _ ↦ answer
  ]

unfoldable pub handle_dns_query_at :
    IoOwnerKey → List ℕ → DnsFlowConfig → Instant → Instant → Action HandledDnsQuery
unfolding refuse check_query is_dns_query
handle_dns_query_at io_owner packet config now clock = do
  prepared ← written (prepare_forwarded_packet packet)
  flow ← of_packet (parse_flow_key prepared)
  let checked : Action HandledDnsQuery = do
    fragmented ← of_packet (ip_packet_is_fragmented prepared)
    let whole : Action HandledDnsQuery = do
      payload ← of_packet (udp_payload prepared)
      if ltb dns_payload_max (length payload)
          then refuse io_owner prepared flow config
          else check_query io_owner prepared flow config now clock
    if fragmented then refuse io_owner prepared flow config else whole
  if is_dns_query flow config then checked else fail (dns_error not_dns_query)
