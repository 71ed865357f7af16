-- ===== src/Tests/Worker.antt =====
-- src/flow_plane/worker.rs: a DNS query that leaves, and the theorems at its transaction.
use new_proxy.Prelude.{
  mem, is_some, nat_eq, ℕ, ◌≡◌, refl, none, some, List, [], ◌∷◌, ok, err, map, if◌then◌else◌, ◌==◌,
  true, length,
}
use new_proxy.HashMap
use new_proxy.Net.{v4, IoOwnerKey}
use new_proxy.Nat
use new_proxy.Session.Bulk.{allocate_ephemeral_nat}
use new_proxy.Packet
use new_proxy.Dns
use new_proxy.Worker
use new_proxy.Tests.Session.{program as session_program}
use new_proxy.Dns.Route.{SocketAddr, DnsTransactionKey, question}
use new_proxy.Worker.State.{
  FlowWorkerState, DnsFlowConfig, DnsFlowTransaction, DnsFlowTransactionKey, flow_key_eq, no_stats,
  new_dual, panicked, pure, fail, of_packet, of_sessions, gets, modify, count, written, ◌>>=◌,
}
use new_proxy.Worker.Transactions.{remove_dns_transaction}
use new_proxy.Worker.Dns.{handle_dns_query_at}
use new_proxy.Worker.Answer.{remove_dns_transactions, handle_dns_response}
use new_proxy.Worker.Laws.Invariant.{IsValid}
use new_proxy.Worker.Laws.Removal.{remove_dns_transaction-IsValid}
use new_proxy.Worker.Laws.Drain.{remove_dns_transactions_lem}
use new_proxy.Worker.Laws.Reach.{
  here, call, dns_query, dns_response, new_dual-IsValid, new_dual-panicked,
}

program : Unit {0}
unfolding session_program Dns.Keys.key_beq Dns.Keys.socket_beq mem allocate_ephemeral_nat
    Packet.Bytes.get_range Packet.Bytes.write Packet.Header.version_of Packet.Header.ipv4_lengths
    Packet.Header.ipv6_length Packet.Header.is_option_header Packet.Header.next_extension
    Packet.Header.ipv6_transport_offset Packet.Header.ipv6_has_fragment_header
    Packet.Header.ip_packet_is_fragmented Packet.Header.transport_metadata
    Packet.Flow.transport_ports Packet.Flow.build_flow_key Packet.Flow.parse_ipv4_flow_key
    Packet.Flow.parse_ipv6_flow_key Packet.Flow.parse_flow_key Packet.Checksum.checksum_add
    Packet.Checksum.checksum_fold Packet.Checksum.checksum_finish Packet.Checksum.internet_checksum
    Packet.Checksum.checksum_offset Packet.Checksum.encode_udp_zero_checksum
    Packet.Udp.validate_udp_layout Packet.Udp.udp_payload_range Packet.Udp.udp_payload
    Packet.Udp.zeros Packet.Udp.resize Packet.Udp.grow Packet.Udp.ensure_udp_payload_len
    Packet.Rewrite.rewrite_transport_fields Packet.Rewrite.ipv4_transport_sum
    Packet.Rewrite.ipv6_transport_sum Packet.Rewrite.write_transport_checksum_ipv4
    Packet.Rewrite.write_transport_checksum_ipv6 Packet.Rewrite.is_zero_checksum
    Packet.Rewrite.write_header_checksum Packet.Rewrite.rewrite_ipv4_packet
    Packet.Rewrite.rewrite_ipv6_packet Packet.Rewrite.rewrite_family Packet.Rewrite.rewrite_packet
    Packet.Forward.validate_ipv4_checksums Packet.Forward.validate_ipv6_checksums
    Packet.Forward.validate_packet_checksums Packet.Forward.take_hop Packet.Forward.check_forwarded
    Packet.Forward.prepare_forwarded_packet Dns.Name.is_alphanumeric Dns.Name.all_label_bytes
    Dns.Name.ends_with_dash Dns.Name.starts_with_dash Dns.Name.is_label Dns.Name.to_ascii_lowercase
    Dns.Name.normalize_label Dns.Name.join Dns.Name.parse_name_from Dns.Name.parse_name
    Dns.Name.validate_name_pointer Dns.Name.skip_name_from Dns.Name.skip_name
    Dns.Message.question_beq Dns.Message.header_of Dns.Message.parse_question_fields
    Dns.Message.parse_question Dns.Message.skip_resource_record Dns.Message.skip_resource_records
    Dns.Message.validate_message Dns.Message.dns_id Dns.Message.response_matches_query
    Dns.Message.skip_questions Dns.Message.clamp_record Dns.Message.clamp_records
    Dns.Message.additional_offset Dns.Message.clamp_edns_udp_payload Dns.Route.contains
    Dns.Route.any_suffix Dns.Route.matches Dns.Route.strip_suffix Dns.Route.ends_with_dot
    Dns.Route.domain_matches Dns.Route.classify_query Dns.Route.transaction_key
    Worker.Transactions.add_deadline Worker.Transactions.put_keys
    Worker.Transactions.remove_deadline Worker.Transactions.pop_due
    Worker.Transactions.next_dns_session_token Worker.Transactions.drop_transaction
    Worker.Transactions.remove_dns_transaction Worker.Transactions.add_transaction
    Worker.Transactions.evict_one Worker.Transactions.evict Worker.Transactions.remember
    Worker.Transactions.forget Worker.Transactions.remember_completed_dns_reverse
    Worker.Transactions.forget_completed_dns_reverse Worker.Dns.rewrite_dns_query Worker.Dns.refuse
    Worker.Dns.is_dns_query Worker.Dns.start_transaction Worker.Dns.lease_query
    Worker.Dns.resolver_of Worker.Dns.route_query Worker.Dns.admit_query Worker.Dns.count_clamped
    Worker.Dns.check_query Worker.Dns.handle_dns_query_at Worker.Servfail.edns_clamp_packet
    Worker.Servfail.write_servfail Worker.Servfail.dns_servfail_transmit_to_listen
    Worker.State.flow_key_beq Worker.State.new_dual Worker.State.new Worker.State.pure
    Worker.State.fail Worker.State.of_packet Worker.State.expect Worker.State.of_sessions
    Worker.State.gets Worker.State.modify Worker.State.count Worker.State.written ◌>>=◌
program = tt

-- From 10.0.0.9 port 5353 to 10.0.0.53 port 53: the addresses of "a".
abbrev query : List ℕ
query =
    69 ∷ 0 ∷ 0 ∷ 47 ∷ 0 ∷ 0 ∷ 0 ∷ 0 ∷ 64 ∷ 17 ∷ 102 ∷ 129 ∷ 10 ∷ 0 ∷ 0 ∷ 9 ∷ 10 ∷ 0 ∷ 0 ∷ 53 ∷ 20
    ∷ 233 ∷ 0 ∷ 53 ∷ 0 ∷ 27 ∷ 0 ∷ 0 ∷ 0 ∷ 7 ∷ 1 ∷ 0 ∷ 0 ∷ 1 ∷ 0 ∷ 0 ∷ 0 ∷ 0 ∷ 0 ∷ 0 ∷ 1 ∷ 97 ∷ 0 ∷ 0
    ∷ 1 ∷ 0 ∷ 1 ∷ []

abbrev socket : List ℕ → ℕ → SocketAddr
socket octets port = record { ip = v4 octets; port = port }

abbrev config : DnsFlowConfig
config = record {
  listen = socket (10 ∷ 0 ∷ 0 ∷ 53 ∷ []) 53;
  local_resolver = socket (10 ∷ 0 ∷ 0 ∷ 1 ∷ []) 53;
  remote_resolver = socket (8 ∷ 8 ∷ 8 ∷ 8 ∷ []) 53;
  remote_domains = (97 ∷ []) ∷ [];
  transaction_capacity = 4;
  timeout = 5;
  remote_available = true;
}

abbrev intercept : IoOwnerKey
intercept = record { ifindex = 3; queue_id = 0 }

abbrev idle : FlowWorkerState
idle = record {
  worker_id = 2;
  sessions = record {
    owner_worker_id = 2;
    next_session_id = 1;
    by_key = [];
    sessions = [];
    deadlines = [];
    nat = Nat.Start.start (some (192 ∷ 0 ∷ 2 ∷ 1 ∷ [])) none 40000 40001;
  };
  next_dns_token = 1;
  dns_by_key = [];
  dns_by_reverse = [];
  dns_deadlines = [];
  dns_completed_reverse = [];
  dns_completed_order = [];
  next_dns_completed_sequence = 1;
  stats = no_stats;
}

made : new_dual 2 (some (192 ∷ 0 ∷ 2 ∷ 1 ∷ [])) none 40000 40001 ≡ ok idle
unfolding program
made = refl

-- The state with the query's transaction.
abbrev asked : FlowWorkerState
asked = (handle_dns_query_at intercept query config 0 0 idle).0

new_dual-IsValid_example : IsValid asked
new_dual-IsValid_example =
    new_dual-IsValid 2 (some (192 ∷ 0 ∷ 2 ∷ 1 ∷ [])) none 40000 40001 made
      (call (dns_query intercept query config 0 0) here)

new_dual-panicked_example : (handle_dns_response query 1 asked).1 ≡ err panicked → ⊥
new_dual-panicked_example =
    new_dual-panicked 2 (some (192 ∷ 0 ∷ 2 ∷ 1 ∷ [])) none 40000 40001 made
      (call (dns_query intercept query config 0 0) here) (dns_response query 1)

asked-IsValid : IsValid asked
asked-IsValid =
    new_dual-IsValid 2 (some (192 ∷ 0 ∷ 2 ∷ 1 ∷ [])) none 40000 40001 made
      (call (dns_query intercept query config 0 0) here)

abbrev key : DnsFlowTransactionKey
key = record {
  io_owner = intercept;
  dns = question (socket (10 ∷ 0 ∷ 0 ∷ 9 ∷ []) 5353) 7 (97 ∷ []) 1 1;
}

one_transaction : length asked.dns_by_key ≡ 1
unfolding program
one_transaction = refl

key_is_known : is_some (HashMap.get key asked.dns_by_key) ≡ true
unfolding program
key_is_known = refl

remove_dns_transaction-IsValid_example :
    ((remove_dns_transaction key 9 asked).1 ≡ ok (HashMap.get key asked.dns_by_key))
    × IsValid (remove_dns_transaction key 9 asked).0
    × ((k : DnsFlowTransactionKey)
        → HashMap.get k (remove_dns_transaction key 9 asked).0.dns_by_key
          ≡ (if key == k then none else HashMap.get k asked.dns_by_key))
    × ((d : DnsFlowTransaction)
        → HashMap.get key asked.dns_by_key ≡ some d
        → HashMap.get d.token (remove_dns_transaction key 9 asked).0.sessions.nat.forward ≡ none)
remove_dns_transaction-IsValid_example = remove_dns_transaction-IsValid asked asked-IsValid key 9

remove_dns_transactions_lem_example :
    ((remove_dns_transactions (λ k. 9) asked).1 ≡ ok (map (λ e. e.1.binding) asked.dns_by_key))
    × IsValid (remove_dns_transactions (λ k. 9) asked).0
    × ((remove_dns_transactions (λ k. 9) asked).0.dns_by_key ≡ [])
    × ((remove_dns_transactions (λ k. 9) asked).0.dns_by_reverse ≡ [])
remove_dns_transactions_lem_example = remove_dns_transactions_lem asked asked-IsValid (λ k. 9)
