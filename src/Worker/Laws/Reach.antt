-- ===== src/Worker/Laws/Reach.antt =====
-- src/flow_plane/worker.rs: the states that calls of the public methods lead to.
use new_proxy.Prelude.{
  ℕ, ◌≡◌, arith, Option, some, Bool, List, [], Result, ok, err, Result-cases, inl, inr,
}
use new_proxy.HashMap
use new_proxy.Net.{SessionId, QuicFlowId, Instant, flow_eq, IoOwnerKey}
use new_proxy.Nat.Directory.{NatBinding, SessionLocator}
use new_proxy.Quic.Hash.{QuicFlow}
use new_proxy.Session
use new_proxy.Session.Table.{SessionTable, SessionError, Session}
use new_proxy.Session.Reach as SessionReach
use new_proxy.Worker.State.{
  FlowWorkerState, FlowWorkerError, panicked, DnsFlowConfig, DnsFlowTransactionKey, flow_key_eq,
  Action, new_dual,
}
use new_proxy.Worker.Intercept.{HandledIntercept, handle_intercept, handle_server_inner}
use new_proxy.Worker.Reverse.{
  HandledReverse, accepts_io, handle_reverse_for_inner, handle_reverse, rebind_quic_flow,
  remove_by_quic_flow, remove_session, expire_idle_sessions,
}
use new_proxy.Worker.Dns.{
  HandledDnsQuery, HandledDnsResponse, ExpiredDnsTransaction, handle_dns_query_at,
}
use new_proxy.Worker.Answer.{
  handle_dns_response, expire_dns_transactions, abort_dns_transaction,
  abort_remote_dns_transactions, remove_dns_transactions,
}
use new_proxy.Worker.Laws.Invariant.{IsValid, Holds, is_panic, Ends, Triple, Valid}
use new_proxy.Worker.Laws.Packets.{handle_intercept-Triple, handle_server_inner-Triple}
use new_proxy.Worker.Laws.Replies.{
  accepts_io-Triple, handle_reverse_for_inner-Triple, handle_reverse-Triple,
  rebind_quic_flow-Triple, remove_session-Triple, expire_idle_sessions-Triple,
  remove_by_quic_flow-Triple,
}
use new_proxy.Worker.Laws.Queries.{handle_dns_query_at-Triple}
use new_proxy.Worker.Laws.Answers.{
  handle_dns_response-Triple, expire_dns_transactions-Triple, abort_dns_transaction-Triple,
  abort_remote_dns_transactions-Triple,
}
use new_proxy.Worker.Laws.Drain.{remove_dns_transactions-Triple}

-- The public methods of a worker with `&mut self`, at their arguments. `reverse_for` is
-- `handle_reverse_for` and `handle_server_reverse`, `dns_query` also `handle_dns_query`, and `correct_io`
-- is `correct_server_return_io`, whose answer is a Bool.
pub data Method : (A : Type 0) → Action A → Type 1 where
  intercept :
      (io : IoOwnerKey) (packet : List ℕ) (q : QuicFlow) (target : IoOwnerKey) (now clock : Instant)
      → Method HandledIntercept (handle_intercept io packet q target now clock)
  server_inner :
      (io : IoOwnerKey) (packet : List ℕ) (q : QuicFlow) (now clock : Instant)
      → Method HandledIntercept (handle_server_inner io packet q now clock)
  reverse :
      (packet : List ℕ) (now : Instant) → Method (Option HandledReverse) (handle_reverse packet now)
  reverse_for :
      (packet : List ℕ) (l : SessionLocator) (observed : Option IoOwnerKey) (now : Instant)
      → Method (Option HandledReverse) (handle_reverse_for_inner packet l observed now)
  correct_io : (i : SessionId) (observed : IoOwnerKey) → Method Bool (accepts_io (some observed) i)
  rebind : (old new : QuicFlowId) → Method ℕ (rebind_quic_flow old new)
  drop_flow :
      (q : QuicFlowId) (clock : SessionId → Instant)
      → Method (List Session) (remove_by_quic_flow q clock)
  drop : (i : SessionId) (clock : Instant) → Method Session (remove_session i clock)
  expire :
      (now : Instant) (clock : SessionId → Instant)
      → Method (List Session) (expire_idle_sessions now clock)
  dns_query :
      (io : IoOwnerKey) (packet : List ℕ) (config : DnsFlowConfig) (now clock : Instant)
      → Method HandledDnsQuery (handle_dns_query_at io packet config now clock)
  dns_response :
      (packet : List ℕ) (clock : Instant)
      → Method (Option HandledDnsResponse) (handle_dns_response packet clock)
  dns_expire :
      (now : Instant) (config : DnsFlowConfig) (clock : DnsFlowTransactionKey → Instant)
      → Method (List ExpiredDnsTransaction) (expire_dns_transactions now config clock)
  dns_abort :
      (binding : NatBinding) (config : DnsFlowConfig) (clock : Instant)
      → Method (Option ExpiredDnsTransaction) (abort_dns_transaction binding config clock)
  dns_abort_remote :
      (config : DnsFlowConfig) (clock : DnsFlowTransactionKey → Instant)
      → Method (List ExpiredDnsTransaction) (abort_remote_dns_transactions config clock)
  dns_remove :
      (clock : DnsFlowTransactionKey → Instant)
      → Method (List NatBinding) (remove_dns_transactions clock)

method-Triple : {A : Type 0} {m : Action A} → Method A m → Triple IsValid m Valid
method-Triple (intercept io packet q target now clock) =
    handle_intercept-Triple io packet q target now clock
method-Triple (server_inner io packet q now clock) =
    handle_server_inner-Triple io packet q now clock
method-Triple (reverse packet now) = handle_reverse-Triple packet now
method-Triple (reverse_for packet l observed now) =
    handle_reverse_for_inner-Triple packet l observed now
method-Triple (correct_io i observed) = accepts_io-Triple (some observed) i
method-Triple (rebind old new) = rebind_quic_flow-Triple old new
method-Triple (drop_flow q clock) = remove_by_quic_flow-Triple q clock
method-Triple (drop i clock) = remove_session-Triple i clock
method-Triple (expire now clock) = expire_idle_sessions-Triple now clock
method-Triple (dns_query io packet config now clock) =
    handle_dns_query_at-Triple io packet config now clock
method-Triple (dns_response packet clock) = handle_dns_response-Triple packet clock
method-Triple (dns_expire now config clock) = expire_dns_transactions-Triple now config clock
method-Triple (dns_abort binding config clock) = abort_dns_transaction-Triple binding config clock
method-Triple (dns_abort_remote config clock) = abort_remote_dns_transactions-Triple config clock
method-Triple (dns_remove clock) = remove_dns_transactions-Triple clock

-- The states that calls of the methods lead to, whatever they return.
pub data Reach (start : FlowWorkerState) : FlowWorkerState → Type 1 where
  here : Reach start start
  call :
      {w : FlowWorkerState} {A : Type 0} {m : Action A}
      → Method A m
      → Reach start w
      → Reach start (m w).0

ends-IsValid :
    {A : Type 0} (r : FlowWorkerState × Result FlowWorkerError A) → Ends Valid r → IsValid r.0
ends-IsValid (w, ok a) h = h
ends-IsValid (w, err e) h = h.0

ends_quietly :
    {A : Type 0} (r : FlowWorkerState × Result FlowWorkerError A)
    → Ends Valid r
    → r.1 ≡ err panicked
    → ⊥
unfolding is_panic
ends_quietly (w, ok a) h p = ground arith
ends_quietly (w, err e) h p = ground (arith, h.1)

reached-IsValid : {start w : FlowWorkerState} → IsValid start → Reach start w → IsValid w
reached-IsValid v here = v
reached-IsValid v (call {w} {A} {m} method r) =
    ends-IsValid (m w) ((method-Triple method).run w (reached-IsValid v r))

table_owner :
    (worker : ℕ) (a b : Option (List ℕ)) (first last : ℕ) (t : SessionTable)
    → Session.Table.new_dual worker a b first last ≡ ok t
    → t.owner_worker_id ≡ worker
unfolding Session.Table.new_dual
table_owner worker a b first last t made = ground arith

started :
    (worker : ℕ) (a b : Option (List ℕ)) (first last : ℕ) (start : FlowWorkerState)
    → new_dual worker a b first last ≡ ok start
    → IsValid start
unfolding new_dual HashMap.get
started worker a b first last start h =
    elim (Result-cases (Session.Table.new_dual worker a b first last)) [
      | inr (e, failed) ↦ absurd (ground arith)
      | inl (t, made) ↦
          let holds : Holds worker t [] [] = record {
            sessions_valid =
                SessionReach.new_dual-Reach worker a b first last made SessionReach.here;
            owner = table_owner worker a b first last t made;
            keys_map = tt;
            reverse_map = tt;
            indexed = λ k d h. absurd (ground arith);
            backed = λ f k h. absurd (ground arith);
            leased = λ k d h. absurd (ground arith);
            no_session = λ k d h. absurd (ground arith);
          } in
          let id : start.worker_id ≡ worker = ground arith in
          let table : start.sessions ≡ t = ground arith in
          let keys : start.dns_by_key ≡ [] = ground arith in
          let replies : start.dns_by_reverse ≡ [] = ground arith in
          rw (id, table, keys, replies) holds
    ]

-- From a successful `new_dual` on, after any calls of the public methods of a worker that change
-- it, whatever they returned, its state is well formed: the session table is, the two indexes of
-- DNS transactions tell of the same ones, and each holds its NAT binding under a token that is no
-- session's.
pub new_dual-IsValid :
    (worker : ℕ) (a b : Option (List ℕ)) (first last : ℕ) {start w : FlowWorkerState}
    → new_dual worker a b first last ≡ ok start
    → Reach start w
    → IsValid w
new_dual-IsValid worker a b first last {start} h r =
    reached-IsValid (started worker a b first last start h) r

-- From a successful `new_dual` on, after any calls of the public methods of a worker that change
-- it, whatever they returned, no such method fails an `expect` on a session that a packet finds or
-- makes, on a transaction that an index names, or on the identifier of a query.
pub new_dual-panicked :
    (worker : ℕ) (a b : Option (List ℕ)) (first last : ℕ) {start w : FlowWorkerState} {A : Type 0}
    {m : Action A}
    → new_dual worker a b first last ≡ ok start
    → Reach start w
    → Method A m
    → (m w).1 ≡ err panicked
    → ⊥
new_dual-panicked worker a b first last {start} {w} {A} {m} h r method =
    ends_quietly (m w) ((method-Triple method).run w (new_dual-IsValid worker a b first last h r))
