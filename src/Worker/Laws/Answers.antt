-- ===== src/Worker/Laws/Answers.antt =====
-- src/flow_plane/worker.rs: answers to DNS queries, queries that end without one, and the
-- invariant of the state.
use new_proxy.Prelude.{
  ℕ, Bool, true, false, ◌≡◌, sym, ap, ◌∙◌, nat_eq, Option, none, some, List, [], ◌∷◌, length, ltb,
}
use new_proxy.HashMap
use new_proxy.HashMap.{HashMap}
use new_proxy.Net
use new_proxy.Net.{SessionId, Instant, FlowKey, flow_eq}
use new_proxy.Nat.Directory.{NatBinding}
use new_proxy.Dns.Message.{dns_payload_max, response_matches_query}
use new_proxy.Worker.State.{
  FlowWorkerState, FlowWorkerStats, DnsFlowConfig, DnsFlowTransaction, DnsFlowTransactionKey,
  flow_key_eq, Action, pure, expect, count, ◌>>=◌, ◌>>◌,
}
use new_proxy.Worker.Transactions.{remove_dns_transaction, remember_completed_dns_reverse}
use new_proxy.Worker.Dns.{count_servfail}
use new_proxy.Worker.Answer.{
  drop_response, oversized_response, count_response, rewrite_response, finish_response,
  answer_transaction, handle_dns_response, servfail_for_transaction, count_timeout,
  end_transactions, expire_dns_transactions, abort_dns_transaction, abort_remote_dns_transactions,
}
use new_proxy.Worker.Laws.Invariant.{
  IsValid, Triple, chain, weaken, pure-Triple, if-Triple, option-Triple, result-Triple, Valid,
  of_packet-keeps, of_packet-Triple, written-Triple, gets-Triple, count-Triple, modify-Triple,
  expect-Triple,
}
use new_proxy.Worker.Laws.Removal.{remove_dns_transaction-Triple, removed-Triple}

counted_none :
    {A : Type 0} {P : FlowWorkerState → Type 0} (f : FlowWorkerStats → FlowWorkerStats)
    → ((w : FlowWorkerState) → P w → IsValid w)
    → Triple P (count f >> pure {A = Option A} none) Valid
counted_none f valid = chain (weaken valid (count-Triple f)) (λ _. pure-Triple _ (λ w v. v))

drop_response-Triple : (f : FlowKey) → Triple IsValid (drop_response f) Valid
unfolding drop_response
drop_response-Triple f = record {
  run = λ w v.
      (if-Triple (HashMap.contains_key f w.dns_completed_reverse) (λ _. counted_none _ (λ w v. v))
          (λ _. counted_none _ (λ w v. v))).run
        w v;
}

oversized_response-Triple : (d : DnsFlowTransaction) → Triple IsValid (oversized_response d) Valid
unfolding oversized_response
oversized_response-Triple d = chain (of_packet-Triple _) (λ f.
    chain (count-Triple _) (λ _. chain (of_packet-Triple _) (λ transmit. pure-Triple _ (λ w v. v))))

count_response-Triple : (is_remote : Bool) → Triple IsValid (count_response is_remote) Valid
count_response-Triple true = count-Triple _
count_response-Triple false = count-Triple _

rewrite_response-Triple :
    (packet : List ℕ) (d : DnsFlowTransaction) → Triple IsValid (rewrite_response packet d) Valid
unfolding rewrite_response
rewrite_response-Triple packet d =
    chain (count_response-Triple d.is_remote)
      (λ _. chain (written-Triple _) (λ rewritten. pure-Triple _ (λ w v. v)))

-- The key has this transaction.
abbrev IsKnown : DnsFlowTransactionKey → DnsFlowTransaction → FlowWorkerState → Type 0
IsKnown key d w = IsValid w × (HashMap.get key w.dns_by_key ≡ some d)

-- A transaction that is known is removed, and the `expect` on it holds.
expected :
    {A : Type 0} (key : DnsFlowTransactionKey) (d : DnsFlowTransaction) (clock : Instant)
    (f : DnsFlowTransaction → Action A)
    → ((e : DnsFlowTransaction) → Triple IsValid (f e) Valid)
    → Triple (IsKnown key d) (remove_dns_transaction key clock >>= λ r. expect r >>= f) Valid
expected key d clock f rest =
    chain (remove_dns_transaction-Triple key clock (some d))
      (λ r. chain (expect-Triple r d (λ w p. p)) rest)

finish_response-Triple :
    (packet : List ℕ) (f : FlowKey) (payload : List ℕ) (key : DnsFlowTransactionKey)
    (d : DnsFlowTransaction) (clock : Instant)
    → Triple (IsKnown key d) (finish_response packet f payload key clock) Valid
unfolding finish_response remember_completed_dns_reverse
finish_response-Triple packet f payload key d clock = expected key d clock _ (λ e.
    chain (modify-Triple _ (λ w v. v)) (λ _. chain (modify-Triple _ (λ w v. v)) (λ _.
      if-Triple (ltb dns_payload_max (length payload)) (λ _. oversized_response-Triple e)
        (λ _. rewrite_response-Triple packet e))))

answer_transaction-Triple :
    (packet : List ℕ) (f : FlowKey) (key : DnsFlowTransactionKey) (d : DnsFlowTransaction)
    (clock : Instant)
    → Triple (IsKnown key d) (answer_transaction packet f key d clock) Valid
unfolding answer_transaction
answer_transaction-Triple packet f key d clock = chain (of_packet-keeps _ (λ w p. p.0)) (λ payload.
    chain (of_packet-keeps _ (λ w p. p.0)) (λ query.
      result-Triple (response_matches_query query payload) (λ e _. counted_none _ (λ w p. p.0))
        (λ u _. finish_response-Triple packet f payload key d clock)))

pub handle_dns_response-Triple :
    (packet : List ℕ) (clock : Instant) → Triple IsValid (handle_dns_response packet clock) Valid
unfolding handle_dns_response
handle_dns_response-Triple packet clock = chain (of_packet-Triple _) (λ fragmented.
    if-Triple fragmented (λ _. counted_none _ (λ w v. v))
      (λ _. chain (written-Triple _) (λ prepared. chain (of_packet-Triple _) (λ f.
        chain (gets-Triple _) (λ found. chain (gets-Triple _) (λ by_key.
          option-Triple found (λ _. weaken (λ w p. p.0.0) (drop_response-Triple f))
            (λ key _.
              option-Triple (HashMap.get key by_key) (λ _. counted_none _ (λ w p. p.0.0))
                (λ d known.
                  weaken (λ w p. (p.0.0, ap (HashMap.get key) (sym p.1) ∙ known))
                    (answer_transaction-Triple prepared f key d clock)))))))))

servfail_for_transaction-Triple :
    (d : DnsFlowTransaction) (config : DnsFlowConfig)
    → Triple IsValid (servfail_for_transaction d config) Valid
unfolding servfail_for_transaction
servfail_for_transaction-Triple d config =
    chain (of_packet-Triple _)
      (λ f. chain (of_packet-Triple _) (λ transmit. pure-Triple _ (λ w v. v)))

end_transactions-Triple :
    (keys : List DnsFlowTransactionKey) (config : DnsFlowConfig)
    (clock : DnsFlowTransactionKey → Instant) (counted : Action (Unit {0}))
    → Triple IsValid counted Valid
    → Triple IsValid (end_transactions keys config clock counted) Valid
unfolding end_transactions
end_transactions-Triple [] config clock counted h = pure-Triple _ (λ w v. v)
end_transactions-Triple (key ∷ keys) config clock counted h =
    let rest = end_transactions-Triple keys config clock counted h in
    chain (removed-Triple key (clock key)) (λ r.
      option-Triple r (λ _. rest)
        (λ d _.
          chain (servfail_for_transaction-Triple d config)
            (λ e. chain h (λ _. chain rest (λ es. pure-Triple _ (λ w v. v))))))

pub expire_dns_transactions-Triple :
    (now : Instant) (config : DnsFlowConfig) (clock : DnsFlowTransactionKey → Instant)
    → Triple IsValid (expire_dns_transactions now config clock) Valid
unfolding expire_dns_transactions
expire_dns_transactions-Triple now config clock = chain (gets-Triple _) (λ popped.
    chain (modify-Triple _ (λ w p. p.0)) (λ _.
      chain (end_transactions-Triple popped.0 config clock count_timeout (count-Triple _))
        (λ es. chain (modify-Triple _ (λ w v. v)) (λ _. pure-Triple _ (λ w v. v)))))

pub abort_dns_transaction-Triple :
    (binding : NatBinding) (config : DnsFlowConfig) (clock : Instant)
    → Triple IsValid (abort_dns_transaction binding config clock) Valid
unfolding abort_dns_transaction
abort_dns_transaction-Triple binding config clock = chain (gets-Triple _) (λ found.
    option-Triple found (λ _. pure-Triple _ (λ w p. p.0))
      (λ key some_key. record {
        run = λ w p.
            let (d, known, reply) =
              p.0.backed (Net.reverse binding.translated) key (sym p.1 ∙ some_key) in
            (expected key d clock _ (λ e. chain (count-Triple _) (λ _.
                chain (servfail_for_transaction-Triple e config)
                  (λ s. pure-Triple _ (λ w v. v))))).run
              w (p.0, known);
      }))

pub abort_remote_dns_transactions-Triple :
    (config : DnsFlowConfig) (clock : DnsFlowTransactionKey → Instant)
    → Triple IsValid (abort_remote_dns_transactions config clock) Valid
unfolding abort_remote_dns_transactions
abort_remote_dns_transactions-Triple config clock = chain (gets-Triple _) (λ keys.
    weaken (λ w p. p.0) (end_transactions-Triple keys config clock count_servfail (count-Triple _)))
