-- ===== src/Worker/Answer.antt =====
-- src/flow_plane/worker.rs: answers to DNS queries, and queries that end without one.
use new_proxy.Prelude.{
  ℕ, ◌+◌, Bool, true, false, ◌&&◌, Option, none, some, List, [], ◌∷◌, length, ltb, nat_beq, nat_eq,
  if◌then◌else◌, ok, err,
}
use new_proxy.HashMap
use new_proxy.HashMap.{HashMap}
use new_proxy.Net
use new_proxy.Net.{SessionId, Instant, FlowKey, flow_eq, IoOwnerKey, udp}
use new_proxy.Packet.Header.{ip_packet_is_fragmented}
use new_proxy.Packet.Flow.{parse_flow_key}
use new_proxy.Packet.Udp.{udp_payload}
use new_proxy.Packet.Rewrite.{rewrite_packet}
use new_proxy.Packet.Forward.{prepare_forwarded_packet}
use new_proxy.Nat.Directory.{NatBinding, SessionLocator}
use new_proxy.Session.Bulk.{release_ephemeral_nat}
use new_proxy.Dns.Message.{dns_payload_max, response_matches_query}
use new_proxy.Worker.State.{
  FlowWorkerState, DnsFlowConfig, DnsFlowTransaction, DnsFlowTransactionKey, flow_key_eq, Action,
  pure, of_packet, of_sessions, expect, gets, modify, count, written, ◌>>=◌, ◌>>◌,
}
use new_proxy.Worker.Servfail.{dns_servfail_transmit, dns_servfail_transmit_to_listen}
use new_proxy.Worker.Transactions.{
  pop_due, set_active, remove_dns_transaction, remember_completed_dns_reverse,
}
use new_proxy.Worker.Dns.{HandledDnsResponse, ExpiredDnsTransaction, count_servfail}

abbrev pub count_spoofed : Action (Unit {0})
count_spoofed =
    count (λ s. record s { dns_spoofed_response_drop = s.dns_spoofed_response_drop + 1 })

-- A packet that answers no transaction is counted, as late if it once did.
unfoldable pub drop_response : FlowKey → Action (Option HandledDnsResponse)
drop_response flow w =
    (if HashMap.contains_key flow w.dns_completed_reverse
        then count (λ s. record s { dns_late_response_drop = s.dns_late_response_drop + 1 })
          >> pure none
        else count_spoofed >> pure none)
      w

-- The answer for a response that is too long.
unfoldable pub oversized_response : DnsFlowTransaction → Action (Option HandledDnsResponse)
oversized_response d = do
  original_flow ← of_packet (parse_flow_key d.original_packet)
  count_servfail
  transmit ←
      of_packet
        (dns_servfail_transmit_to_listen d.local_target d.original_packet original_flow d.dns_vip)
  pure (
      some (record {
        local_target = d.local_target;
        packet = transmit.packet;
        binding = d.binding;
        transaction_id = d.token;
      }))

abbrev pub count_response : Bool → Action (Unit {0})
count_response true = count (λ s. record s { dns_response_remote = s.dns_response_remote + 1 })
count_response false = count (λ s. record s { dns_response_local = s.dns_response_local + 1 })

-- The response, from the worker's address to the client.
unfoldable pub rewrite_response : List ℕ → DnsFlowTransaction → Action (Option HandledDnsResponse)
rewrite_response packet d = do
  count_response d.is_remote
  rewritten ← written (
      rewrite_packet packet (record {
        source = d.dns_vip.ip;
        destination = d.client.ip;
        source_port = d.dns_vip.port;
        destination_port = d.client.port;
        protocol = udp;
      }))
  pure (
      some (record {
        local_target = d.local_target;
        packet = rewritten;
        binding = d.binding;
        transaction_id = d.token;
      }))

-- A response that matches ends its transaction.
unfoldable pub finish_response :
    List ℕ → FlowKey → List ℕ → DnsFlowTransactionKey → Instant → Action (Option HandledDnsResponse)
unfolding oversized_response rewrite_response
finish_response packet flow payload key clock = do
  removed ← remove_dns_transaction key clock
  d ← expect removed
  modify (λ w. remember_completed_dns_reverse w flow)
  modify set_active
  if ltb dns_payload_max (length payload) then oversized_response d else rewrite_response packet d

unfoldable pub answer_transaction :
    List ℕ
    → FlowKey
    → DnsFlowTransactionKey
    → DnsFlowTransaction
    → Instant
    → Action (Option HandledDnsResponse)
unfolding finish_response
answer_transaction packet flow key d clock = do
  payload ← of_packet (udp_payload packet)
  query ← of_packet (udp_payload d.original_packet)
  elim (response_matches_query query payload) [
    | err _ ↦ count_spoofed >> pure none
    | ok _ ↦ finish_response packet flow payload key clock
  ]

unfoldable pub handle_dns_response : List ℕ → Instant → Action (Option HandledDnsResponse)
unfolding drop_response answer_transaction
handle_dns_response packet clock = do
  fragmented ← of_packet (ip_packet_is_fragmented packet)
  let whole : Action (Option HandledDnsResponse) = do
    prepared ← written (prepare_forwarded_packet packet)
    flow ← of_packet (parse_flow_key prepared)
    found ← gets (λ w. HashMap.get flow w.dns_by_reverse)
    by_key ← gets (λ w. w.dns_by_key)
    elim found [
      | none ↦ drop_response flow
      | some key ↦ elim (HashMap.get key by_key) [
        | none ↦ count_spoofed >> pure none
        | some d ↦ answer_transaction prepared flow key d clock
      ]
    ]
  if fragmented then count_spoofed >> pure none else whole

unfoldable pub servfail_for_transaction :
    DnsFlowTransaction → DnsFlowConfig → Action ExpiredDnsTransaction
servfail_for_transaction d config = do
  flow ← of_packet (parse_flow_key d.original_packet)
  transmit ← of_packet (dns_servfail_transmit d.local_target d.original_packet flow config)
  pure (record { transmit = transmit; binding = d.binding; transaction_id = d.token })

abbrev pub count_timeout : Action (Unit {0})
count_timeout =
    count (λ s. record s { dns_timeout = s.dns_timeout + 1; dns_servfail = s.dns_servfail + 1 })

-- The loop over transactions that end: each is removed and answered, and counted by the last
-- argument. `clock` is the reading at which each is released.
unfoldable pub end_transactions :
    List DnsFlowTransactionKey
    → DnsFlowConfig
    → (DnsFlowTransactionKey → Instant)
    → Action (Unit {0})
    → Action (List ExpiredDnsTransaction)
unfolding servfail_for_transaction
end_transactions [] config clock counted = pure []
end_transactions (key ∷ keys) config clock counted = do
  let rest = end_transactions keys config clock counted
  removed ← remove_dns_transaction key (clock key)
  elim removed [
    | none ↦ rest
    | some d ↦ do e ← servfail_for_transaction d config; counted; es ← rest; pure (e ∷ es)
  ]

unfoldable pub expire_dns_transactions :
    Instant
    → DnsFlowConfig
    → (DnsFlowTransactionKey → Instant)
    → Action (List ExpiredDnsTransaction)
expire_dns_transactions now config clock = do
  popped ← gets (λ w. pop_due w.dns_deadlines now)
  modify (λ w. record w { dns_deadlines = popped.1 })
  es ← end_transactions popped.0 config clock count_timeout
  modify set_active
  pure es

unfoldable pub abort_dns_transaction :
    NatBinding → DnsFlowConfig → Instant → Action (Option ExpiredDnsTransaction)
unfolding servfail_for_transaction
abort_dns_transaction binding config clock = do
  found ← gets (λ w. HashMap.get (Net.reverse binding.translated) w.dns_by_reverse)
  elim found [
    | none ↦ pure none
    | some key ↦ do
      removed ← remove_dns_transaction key clock
      d ← expect removed
      count_servfail
      e ← servfail_for_transaction d config
      pure (some e)
  ]

unfoldable pub remote_keys :
    HashMap DnsFlowTransactionKey DnsFlowTransaction → List DnsFlowTransactionKey
remote_keys [] = []
remote_keys ((key, d) ∷ m) = let rest = remote_keys m in if d.is_remote then key ∷ rest else rest

unfoldable pub abort_remote_dns_transactions :
    DnsFlowConfig → (DnsFlowTransactionKey → Instant) → Action (List ExpiredDnsTransaction)
unfolding remote_keys
abort_remote_dns_transactions config clock = do
  keys ← gets (λ w. remote_keys w.dns_by_key)
  end_transactions keys config clock count_servfail

-- The loop of `remove_dns_transactions`.
unfoldable pub release_all :
    HashMap DnsFlowTransactionKey DnsFlowTransaction
    → (DnsFlowTransactionKey → Instant)
    → Action (List NatBinding)
release_all [] clock = pure []
release_all ((key, d) ∷ m) clock = do
  let rest = release_all m clock
  worker_id ← gets (λ w. w.worker_id)
  of_sessions (λ t. release_ephemeral_nat t worker_id d.token (clock key))
  bindings ← rest
  pure (d.binding ∷ bindings)

unfoldable pub remove_dns_transactions :
    (DnsFlowTransactionKey → Instant) → Action (List NatBinding)
unfolding release_all
remove_dns_transactions clock = do
  transactions ← gets (λ w. w.dns_by_key)
  modify (λ w. record w {
    dns_by_key = [];
    dns_by_reverse = [];
    dns_deadlines = [];
    dns_completed_reverse = [];
    dns_completed_order = [];
  })
  bindings ← release_all transactions clock
  modify set_active
  pure bindings

unfoldable pub dns_reverse_matches : FlowWorkerState → FlowKey → SessionLocator → Bool
dns_reverse_matches w flow locator =
    nat_beq locator.flow_worker_id w.worker_id && elim (HashMap.get flow w.dns_by_reverse) [
      | none ↦ false
      | some key ↦ elim (HashMap.get key w.dns_by_key) [
        | none ↦ false
        | some d ↦ nat_beq d.token locator.session_id
      ]
    ]

unfoldable pub has_dns_reverse : FlowWorkerState → FlowKey → Bool
has_dns_reverse w flow = HashMap.contains_key flow w.dns_by_reverse
