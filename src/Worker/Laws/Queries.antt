-- ===== src/Worker/Laws/Queries.antt =====
-- src/flow_plane/worker.rs: `handle_dns_query_at` and the invariant of the state.
use new_proxy.Prelude.{
  ℕ, Bool, true, false, not, ◌&&◌, ◌≡◌, refl, sym, ◌∙◌, nat_eq, Option, none, some, List, length,
  leb, ltb, Bool-cases, Result-cases, Option-cases, inl, inr, is_some, arith,
}
use new_proxy.HashMap
use new_proxy.Net.{Instant, FlowKey, IoOwnerKey, udp}
use new_proxy.Session.Bulk.{allocate_ephemeral_nat}
use new_proxy.Packet.Bytes.{get_range}
use new_proxy.Dns.Message.{dns_payload_max, parse_question, validate_message, header_of, dns_id}
use new_proxy.Dns.Route.{
  SocketAddr, DnsRoute, local, remote, local_fallback, DnsTransactionKey, transaction_key,
}
use new_proxy.Worker.State.{
  FlowWorkerState, session_error, DnsFlowConfig, DnsFlowTransaction, DnsFlowTransactionKey,
  flow_key_eq, of_sessions, expect,
}
use new_proxy.Worker.Intercept.{is_exhausted}
use new_proxy.Worker.Transactions.{next_dns_session_token, forget_completed_dns_reverse}
use new_proxy.Worker.Dns.{
  rewrite_dns_query, refuse, is_dns_query, transaction_of, count_query, start_transaction,
  lease_query, route_query, resolver_of, count_clamped, admit_query, check_query,
  handle_dns_query_at,
}
use new_proxy.Worker.Laws.Invariant.{
  IsValid, is_panic, Triple, chain, weaken, pure-Triple, fail-Triple, if-Triple, option-Triple,
  result-Triple, Valid, of_packet-Triple, written-Triple, gets-Triple, count-keeps, count-Triple,
  modify-Triple,
}
use new_proxy.Worker.Laws.Leases.{
  IsReady, add_transaction-IsValid, refused-IsValid, granted-IsReady,
}

rewrite_dns_query-Triple :
    (packet : List ℕ) (d : DnsFlowTransaction) → Triple IsValid (rewrite_dns_query packet d) Valid
unfolding rewrite_dns_query
rewrite_dns_query-Triple packet d = chain (written-Triple _) (λ rewritten. pure-Triple _ (λ w v. v))

refuse-Triple :
    (io : IoOwnerKey) (packet : List ℕ) (f : FlowKey) (config : DnsFlowConfig)
    → Triple IsValid (refuse io packet f config) Valid
unfolding refuse
refuse-Triple io packet f config =
    chain (count-Triple _) (λ _. chain (of_packet-Triple _) (λ transmit. pure-Triple _ (λ w v. v)))

count_query-Triple : (is_remote : Bool) → Triple IsValid (count_query is_remote) Valid
count_query-Triple true = count-Triple _
count_query-Triple false = count-Triple _

start_transaction-Triple :
    (key : DnsFlowTransactionKey) (packet : List ℕ) (d : DnsFlowTransaction)
    → Triple (IsReady key d) (start_transaction key packet d) Valid
unfolding start_transaction forget_completed_dns_reverse
start_transaction-Triple key packet d =
    chain
      (modify-Triple _ (λ w r. record {
        valid = r.valid;
        new_key = r.new_key;
        new_reply = r.new_reply;
        leased = r.leased;
        no_session = r.no_session;
      }))
      (λ _. chain (modify-Triple _ (λ w r. add_transaction-IsValid key d w r)) (λ _.
        chain (modify-Triple _ (λ w v. v))
          (λ _. chain (count_query-Triple d.is_remote) (λ _. rewrite_dns_query-Triple packet d))))

-- The key of the query has no transaction.
abbrev IsNew : DnsFlowTransactionKey → FlowWorkerState → Type 0
IsNew key w = IsValid w × (HashMap.get key w.dns_by_key ≡ none)

next_dns_session_token-keeps :
    (key : DnsFlowTransactionKey) → Triple (IsNew key) next_dns_session_token (λ i. IsNew key)
unfolding next_dns_session_token
next_dns_session_token-keeps key = record { run = λ w p. p }

lease_query-Triple :
    (io : IoOwnerKey) (packet : List ℕ) (f : FlowKey) (config : DnsFlowConfig)
    (key : DnsFlowTransactionKey) (resolver : SocketAddr) (is_remote : Bool) (now clock : Instant)
    → Triple (IsNew key) (lease_query io packet f config key resolver is_remote now clock) Valid
unfolding lease_query of_sessions is_panic
lease_query-Triple io packet f config key resolver is_remote now clock =
    chain (next_dns_session_token-keeps key) (λ token. record {
      run = λ w p.
          let selected : FlowKey = record {
            source = f.source;
            destination = resolver.ip;
            source_port = f.source_port;
            destination_port = resolver.port;
            protocol = udp;
          } in
          elim (Result-cases
            (allocate_ephemeral_nat w.sessions w.worker_id token selected clock).1) [
              | inl (binding, done) ↦
                  let d = transaction_of io packet f config now is_remote token binding in
                  rw (done, of_sessions)
                    ((start_transaction-Triple key packet d).run _
                      (granted-IsReady w token selected clock p.0 key d p.1 done refl))
              | inr (e, failed) ↦
                  let v' = refused-IsValid w token selected clock p.0 e failed in
                  elim (Bool-cases (is_exhausted (session_error e))) [
                    | inl exhausted ↦
                        rw (failed, of_sessions, exhausted)
                          ((chain (count-Triple _) (λ _. refuse-Triple io packet f config)).run _
                            v')
                    | inr other ↦ rw (failed, of_sessions, other) (v', refl)
                  ]
            ];
    })

resolver_of-keeps :
    (config : DnsFlowConfig) (key : DnsFlowTransactionKey) (route : DnsRoute)
    → Triple (IsNew key) (resolver_of config route) (λ r. IsNew key)
unfolding resolver_of
resolver_of-keeps config key (remote question) = pure-Triple _ (λ w p. p)
resolver_of-keeps config key (local question) = pure-Triple _ (λ w p. p)
resolver_of-keeps config key local_fallback =
    chain (count-keeps _ (λ w s p. p)) (λ _. pure-Triple _ (λ w p. p))

route_query-keeps :
    (payload : List ℕ) (malformed : Bool) (config : DnsFlowConfig) (key : DnsFlowTransactionKey)
    → Triple (IsNew key) (route_query payload malformed config) (λ r. IsNew key)
unfolding route_query
route_query-keeps payload malformed config key = resolver_of-keeps config key _

admit_query-Triple :
    (io : IoOwnerKey) (packet : List ℕ) (f : FlowKey) (config : DnsFlowConfig)
    (key : DnsFlowTransactionKey) (payload : List ℕ) (malformed : Bool) (now clock : Instant)
    → Triple (IsNew key) (admit_query io packet f config key payload malformed now clock) Valid
unfolding admit_query
admit_query-Triple io packet f config key payload malformed now clock =
    chain (route_query-keeps payload malformed config key) (λ r. chain (gets-Triple _) (λ active.
      if-Triple (r.1 && not config.remote_available)
        (λ _. weaken (λ w p. p.0.0) (refuse-Triple io packet f config))
        (λ _.
          if-Triple (leb config.transaction_capacity active)
            (λ _.
              weaken (λ w p. p.0.0)
                (chain (count-Triple _) (λ _. refuse-Triple io packet f config)))
            (λ _.
              weaken (λ w p. p.0) (lease_query-Triple io packet f config key r.0 r.1 now clock)))))

count_clamped-Triple : (clamped : Option Bool) → Triple IsValid (count_clamped clamped) Valid
unfolding count_clamped
count_clamped-Triple (some true) = count-Triple _
count_clamped-Triple (some false) = pure-Triple _ (λ w v. v)
count_clamped-Triple none = pure-Triple _ (λ w v. v)

header_range : (p : List ℕ) → is_some (get_range p 0 12) ≡ true → is_some (get_range p 0 2) ≡ true
unfolding get_range
header_range p h = ground arith

-- A valid query has a header, so that its key has an identifier.
transaction_key-some :
    (client : SocketAddr) (p : List ℕ)
    → (k : DnsTransactionKey) × (transaction_key client p ≡ some k)
unfolding transaction_key validate_message header_of dns_id
transaction_key-some client p = elim (Option-cases (get_range p 0 12)) [
  | inl absent ↦ rw (absent, transaction_key) (_, refl)
  | inr (h, there) ↦ elim (Option-cases (get_range p 0 2)) [
    | inl no_id ↦ absurd (ground (arith, header_range p))
    | inr (id, has_id) ↦ elim (Result-cases (validate_message p false)) [
      | inl (q, good) ↦ rw (good, transaction_key, has_id) (_, refl)
      | inr (e, bad) ↦ rw (bad, transaction_key) (_, refl)
    ]
  ]
]

key_of_query-Triple :
    (client : SocketAddr) (p : List ℕ)
    → Triple IsValid (expect (transaction_key client p)) (λ k. IsValid)
unfolding expect
key_of_query-Triple client p = record {
  run = λ w v. let (k, is_k) = transaction_key-some client p in rw (is_k, expect) v;
}

check_query-Triple :
    (io : IoOwnerKey) (packet : List ℕ) (f : FlowKey) (config : DnsFlowConfig) (now clock : Instant)
    → Triple IsValid (check_query io packet f config now clock) Valid
unfolding check_query
check_query-Triple io packet f config now clock = chain (of_packet-Triple _) (λ r.
    chain (count_clamped-Triple r.1) (λ _. chain (of_packet-Triple _) (λ payload.
      result-Triple (parse_question payload) (λ e _. refuse-Triple io r.0 f config)
        (λ q _. chain (key_of_query-Triple _ payload) (λ k. chain (gets-Triple _) (λ known.
          option-Triple known
            (λ absent.
              weaken (λ w p. (p.0, sym p.1 ∙ absent))
                (admit_query-Triple io r.0 f config _ payload (not (is_some r.1)) now clock))
            (λ d _. weaken (λ w p. p.0) (rewrite_dns_query-Triple r.0 d))))))))

pub handle_dns_query_at-Triple :
    (io : IoOwnerKey) (packet : List ℕ) (config : DnsFlowConfig) (now clock : Instant)
    → Triple IsValid (handle_dns_query_at io packet config now clock) Valid
unfolding handle_dns_query_at is_panic
handle_dns_query_at-Triple io packet config now clock = chain (written-Triple _) (λ prepared.
    chain (of_packet-Triple _) (λ f.
      if-Triple (is_dns_query f config)
        (λ _. chain (of_packet-Triple _) (λ fragmented.
          if-Triple fragmented (λ _. refuse-Triple io prepared f config)
            (λ _. chain (of_packet-Triple _) (λ payload.
              if-Triple (ltb dns_payload_max (length payload))
                (λ _. refuse-Triple io prepared f config)
                (λ _. check_query-Triple io prepared f config now clock)))))
        (λ _. fail-Triple _ refl (λ w v. v))))
