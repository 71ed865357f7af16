-- ===== src/Worker/Transactions.antt =====
-- src/flow_plane/worker.rs: the indexes of the DNS transactions of a worker, and those of the replies
-- that have been answered.
use new_proxy.Prelude.{
  ℕ, suc, zero, ◌+◌, ◌%◌, ◌^◌, max, bit_or, true, false, Option, none, some, List, [], ◌∷◌, length,
  ltb, nat_beq, nat_eq, if◌then◌else◌, ok, map, leb, ◌++◌,
}
use new_proxy.HashMap
use new_proxy.HashMap.{HashMap}
use new_proxy.BTreeMap
use new_proxy.BTreeMap.{BTreeMap}
use new_proxy.Net
use new_proxy.Net.{SessionId, Instant, FlowKey, flow_eq}
use new_proxy.Session.Bulk.{release_ephemeral_nat}
use new_proxy.Worker.State.{
  FlowWorkerState, DnsFlowTransaction, DnsFlowTransactionKey, flow_key_eq, Action, pure,
  of_sessions, modify, ◌>>◌,
}

abbrev pub dns_completed_reverse_capacity : ℕ
dns_completed_reverse_capacity = 65536

abbrev pub KeySet : Type 0
KeySet = HashMap DnsFlowTransactionKey (Unit {0})

abbrev pub DnsDeadlines : Type 0
DnsDeadlines = BTreeMap KeySet

abbrev pub keys_or_default : Option KeySet → KeySet
keys_or_default none = []
keys_or_default (some keys) = keys

-- `dns_deadlines.entry(expires_at).or_default().insert(key, ())`
unfoldable pub add_deadline : DnsDeadlines → Instant → DnsFlowTransactionKey → DnsDeadlines
add_deadline deadlines expires_at key =
    BTreeMap.insert expires_at
      (HashMap.insert key tt (keys_or_default (BTreeMap.get expires_at deadlines))) deadlines

unfoldable pub put_keys : DnsDeadlines → Instant → KeySet → DnsDeadlines
put_keys deadlines expires_at [] = BTreeMap.remove expires_at deadlines
put_keys deadlines expires_at (k ∷ keys) = BTreeMap.insert expires_at (k ∷ keys) deadlines

unfoldable pub remove_deadline : DnsDeadlines → Instant → DnsFlowTransactionKey → DnsDeadlines
unfolding put_keys
remove_deadline deadlines expires_at key = elim (BTreeMap.get expires_at deadlines) [
  | none ↦ deadlines
  | some keys ↦ put_keys deadlines expires_at (HashMap.remove key keys)
]

-- The `while` loop of `expire_dns_transactions`: pops the buckets that are due.
unfoldable pub pop_due : DnsDeadlines → Instant → List DnsFlowTransactionKey × DnsDeadlines
pop_due [] now = ([], [])
pop_due ((deadline, keys) ∷ deadlines) now =
    let rest = pop_due deadlines now in
    if leb deadline now
    then (map (λ e. e.0) keys ++ rest.0, rest.1)
    else ([], (deadline, keys) ∷ deadlines)

-- `value.wrapping_add(1).max(1)` of a `u64`
abbrev pub next_nonzero : ℕ → ℕ
next_nonzero n = max ((n + 1) % 2 ^ 64) 1

-- `stats.dns_transactions_active = dns_by_key.len() as u64`
abbrev pub set_active : FlowWorkerState → FlowWorkerState
set_active w = record w { stats = record w.stats { dns_transactions_active = length w.dns_by_key } }

unfoldable pub next_dns_session_token : Action SessionId
next_dns_session_token w = (
  record w { next_dns_token = next_nonzero w.next_dns_token },
  ok (bit_or (2 ^ 63) w.next_dns_token),
)

-- The indexes without a transaction.
unfoldable pub drop_transaction :
    FlowWorkerState → DnsFlowTransactionKey → DnsFlowTransaction → FlowWorkerState
drop_transaction w key d = record w {
  dns_by_key = HashMap.remove key w.dns_by_key;
  dns_deadlines = remove_deadline w.dns_deadlines d.expires_at key;
  dns_by_reverse = HashMap.remove (Net.reverse d.binding.translated) w.dns_by_reverse;
}

unfoldable pub remove_dns_transaction :
    DnsFlowTransactionKey → Instant → Action (Option DnsFlowTransaction)
unfolding drop_transaction
remove_dns_transaction key clock w = elim (HashMap.get key w.dns_by_key) [
  | none ↦ (w, ok none)
  | some d ↦
      (modify (λ v. drop_transaction v key d)
          >> of_sessions (λ t. release_ephemeral_nat t w.worker_id d.token clock)
          >> modify set_active
          >> pure (some d))
        w
]

-- What a new transaction adds to the indexes.
unfoldable pub add_transaction :
    FlowWorkerState → DnsFlowTransactionKey → DnsFlowTransaction → FlowWorkerState
add_transaction w key d = record w {
  dns_by_reverse = HashMap.insert (Net.reverse d.binding.translated) key w.dns_by_reverse;
  dns_by_key = HashMap.insert key d w.dns_by_key;
  dns_deadlines = add_deadline w.dns_deadlines d.expires_at key;
}

-- The replies that have been answered: the flow's sequence number, and the flows by it.
pub record Completed : Type 0 where
  pub reverse : HashMap FlowKey ℕ
  pub order : BTreeMap FlowKey

-- `if let Some(previous) = … { self.dns_completed_order.remove(&previous); }`
abbrev pub without : Option ℕ → BTreeMap FlowKey → BTreeMap FlowKey
without none order = order
without (some previous) order = BTreeMap.remove previous order

-- One round of the `while` loop of `remember_completed_dns_reverse`.
unfoldable pub evict_one : Completed → Completed
evict_one c = elim c.order [
  | [] ↦ c
  | (sequence, expired) ∷ order ↦ elim (HashMap.get expired c.reverse) [
    | some s ↦
        if nat_beq s sequence
        then record { reverse = HashMap.remove expired c.reverse; order = order }
        else record c { order = order }
    | none ↦ record c { order = order }
  ]
]

-- That loop; the first argument bounds its rounds. Where the rounds run out it stops: the source does
-- not end in a state with an empty order and more keys than the capacity.
unfoldable pub evict : ℕ → ℕ → Completed → Completed
unfolding evict_one
evict zero capacity c = c
evict (suc fuel) capacity c = elim (ltb capacity (length c.reverse)) [
  | true ↦ evict fuel capacity (evict_one c)
  | false ↦ c
]

unfoldable pub remember : ℕ → Completed → ℕ → FlowKey → Completed
remember capacity c sequence flow =
    let order = without (HashMap.get flow c.reverse) c.order in
    evict (suc (length order)) capacity (record {
      reverse = HashMap.insert flow sequence c.reverse;
      order = BTreeMap.insert sequence flow order;
    })

unfoldable pub forget : Completed → FlowKey → Completed
forget c flow = record {
  reverse = HashMap.remove flow c.reverse;
  order = without (HashMap.get flow c.reverse) c.order;
}

abbrev pub completed_of : FlowWorkerState → Completed
completed_of w = record { reverse = w.dns_completed_reverse; order = w.dns_completed_order }

abbrev pub with_completed : FlowWorkerState → Completed → FlowWorkerState
with_completed w c = record w { dns_completed_reverse = c.reverse; dns_completed_order = c.order }

unfoldable pub remember_completed_dns_reverse : FlowWorkerState → FlowKey → FlowWorkerState
unfolding remember
remember_completed_dns_reverse w flow =
    with_completed
      (record w { next_dns_completed_sequence = next_nonzero w.next_dns_completed_sequence })
      (remember dns_completed_reverse_capacity (completed_of w) w.next_dns_completed_sequence flow)

unfoldable pub forget_completed_dns_reverse : FlowWorkerState → FlowKey → FlowWorkerState
unfolding forget
forget_completed_dns_reverse w flow = with_completed w (forget (completed_of w) flow)
