-- ===== src/Worker/Laws/Drain.antt =====
-- src/flow_plane/worker.rs: `remove_dns_transactions`.
use new_proxy.Prelude.{
  ◌≡◌, refl, sym, ◌∙◌, arith, nat_eq, none, some, List, [], ◌∷◌, map, Result, ok,
}
use new_proxy.HashMap
use new_proxy.HashMap.{HashMap, IsMap}
use new_proxy.Net.{SessionId, Instant, flow_eq}
use new_proxy.Nat.Directory.{NatBinding}
use new_proxy.Nat.Table.{remove_at}
use new_proxy.Nat.Removal.{remove-forward}
use new_proxy.Session
use new_proxy.Session.Table.{SessionTable, SessionError}
use new_proxy.Session.Bulk.{release_ephemeral_nat}
use new_proxy.Session.Ephemeral.{ephemeral_nat-IsValid}
use new_proxy.Worker.State.{
  FlowWorkerState, DnsFlowTransaction, DnsFlowTransactionKey, flow_key_eq, flow_key_beq_iff, Action,
  pure, of_sessions, gets, modify, ◌>>=◌,
}
use new_proxy.Worker.Transactions.{set_active}
use new_proxy.Worker.Answer.{release_all, remove_dns_transactions}
use new_proxy.Worker.Laws.Invariant.{IsValid, Triple, Valid}
use new_proxy.Worker.Laws.Removal.{release_lem, other_token}

-- The indexes are empty; the transactions that are still to be released have their leases, under
-- tokens that are different and no sessions'.
record IsDrained (m : HashMap DnsFlowTransactionKey DnsFlowTransaction) (w : FlowWorkerState)
    : Type 0 where
  sessions_valid : Session.Invariant.IsValid w.sessions
  owner : w.sessions.owner_worker_id ≡ w.worker_id
  no_key : w.dns_by_key ≡ []
  no_reverse : w.dns_by_reverse ≡ []
  keys_map : IsMap m
  leased :
      (k : DnsFlowTransactionKey) (d : DnsFlowTransaction)
      → HashMap.get k m ≡ some d
      → HashMap.get d.token w.sessions.nat.forward ≡ some d.binding
  no_session :
      (k : DnsFlowTransactionKey) (d : DnsFlowTransaction)
      → HashMap.get k m ≡ some d
      → HashMap.get d.token w.sessions.sessions ≡ none
  distinct :
      (j k : DnsFlowTransactionKey) (d e : DnsFlowTransaction)
      → HashMap.get j m ≡ some d
      → HashMap.get k m ≡ some e
      → d.token ≡ e.token
      → j ≡ k

-- The state after the lease of a token is released.
abbrev freed : FlowWorkerState → SessionId → Instant → FlowWorkerState
freed w token clock = record w {
  sessions = record w.sessions { nat = (remove_at w.sessions.nat token clock).0 };
}

drain-IsDrained :
    (k : DnsFlowTransactionKey) (d : DnsFlowTransaction)
    (m : HashMap DnsFlowTransactionKey DnsFlowTransaction) (w : FlowWorkerState) (clock : Instant)
    → IsDrained ((k, d) ∷ m) w
    → IsDrained m (freed w d.token clock)
unfolding HashMap.get
drain-IsDrained k d m w clock r =
    let held : HashMap.get k ((k, d) ∷ m) ≡ some d = ground (arith, flow_key_beq_iff k k) in
    let done =
      release_lem w.sessions w.worker_id d.token clock d.binding (sym r.owner)
        (r.leased k d held) in
    let valid =
      (ephemeral_nat-IsValid r.sessions_valid w.worker_id d.token clock).1
        (r.no_session k d held) in
    let still : (j : DnsFlowTransactionKey) (e : DnsFlowTransaction)
        → HashMap.get j m ≡ some e
        → HashMap.get j ((k, d) ∷ m) ≡ some e =
      λ j e h. ground (arith, flow_key_beq_iff k j, r.keys_map.0) in
    record {
      sessions_valid = rw done at valid;
      owner = r.owner;
      no_key = r.no_key;
      no_reverse = r.no_reverse;
      keys_map = r.keys_map.1;
      leased = λ j e h. ground (
        arith,
        remove-forward r.sessions_valid.nat_valid d.token clock e.token,
        r.leased j e (still j e h),
        r.distinct k j d e held (still j e h),
        r.keys_map.0,
      );
      no_session = λ j e h. r.no_session j e (still j e h);
      distinct = λ i j e c h g same. r.distinct i j e c (still i e h) (still j c g) same;
    }

drained-IsValid :
    (m : HashMap DnsFlowTransactionKey DnsFlowTransaction) (w : FlowWorkerState)
    → IsDrained m w
    → IsValid w
unfolding HashMap.get
drained-IsValid m w r = record {
  sessions_valid = r.sessions_valid;
  owner = r.owner;
  keys_map = rw r.no_key tt;
  reverse_map = rw r.no_reverse tt;
  indexed = λ k d h. absurd (ground (arith, r.no_key));
  backed = λ f k h. absurd (ground (arith, r.no_reverse));
  leased = λ k d h. absurd (ground (arith, r.no_key));
  no_session = λ k d h. absurd (ground (arith, r.no_key));
}

bind_ok :
    {A B : Type 0} (m : Action A) (f : A → Action B) (w : FlowWorkerState) {w' : FlowWorkerState}
    {a : A}
    → m w ≡ (w', ok a)
    → (m >>= f) w ≡ f a w'
unfolding ◌>>=◌
bind_ok m f w done = cc

of_sessions_ok :
    {A : Type 0} (m : SessionTable → SessionTable × Result SessionError A) (w : FlowWorkerState)
    (t : SessionTable) (a : A)
    → m w.sessions ≡ (t, ok a)
    → of_sessions m w ≡ (record w { sessions = t }, ok a)
unfolding of_sessions
of_sessions_ok m w t a done = cc

-- One round of the loop whose release succeeds.
release_all_cons :
    (k : DnsFlowTransactionKey) (d : DnsFlowTransaction)
    (m : HashMap DnsFlowTransactionKey DnsFlowTransaction) (w w' : FlowWorkerState)
    (t : SessionTable) (clock : DnsFlowTransactionKey → Instant) (bs : List NatBinding)
    → release_ephemeral_nat w.sessions w.worker_id d.token (clock k) ≡ (t, ok d.binding)
    → release_all m clock (record w { sessions = t }) ≡ (w', ok bs)
    → release_all ((k, d) ∷ m) clock w ≡ (w', ok (d.binding ∷ bs))
unfolding release_all gets pure
release_all_cons k d m w w' t clock bs done rest =
    bind_ok _ _ _ refl
    ∙ bind_ok _ _ _ (
        of_sessions_ok (λ t. release_ephemeral_nat t w.worker_id d.token (clock k)) w t d.binding
          done)
    ∙ bind_ok _ _ _ rest

release_all_lem :
    (m : HashMap DnsFlowTransactionKey DnsFlowTransaction) (clock : DnsFlowTransactionKey → Instant)
    (w : FlowWorkerState)
    → IsDrained m w
    → (w' : FlowWorkerState) × (release_all m clock w ≡ (w', ok (map (λ e. e.1.binding) m)))
      × IsDrained [] w'
unfolding release_all pure HashMap.get
release_all_lem [] clock w r = (w, refl, r)
release_all_lem ((k, d) ∷ m) clock w r =
    let held : HashMap.get k ((k, d) ∷ m) ≡ some d = ground (arith, flow_key_beq_iff k k) in
    let done =
      release_lem w.sessions w.worker_id d.token (clock k) d.binding (sym r.owner)
        (r.leased k d held) in
    let (w', rest, r') =
      release_all_lem m clock (freed w d.token (clock k)) (drain-IsDrained k d m w (clock k) r) in
    (w', release_all_cons k d m w w' _ clock _ done rest, r')

-- The start of the loop: the indexes are drained.
abbrev drained : FlowWorkerState → FlowWorkerState
drained w = record w {
  dns_by_key = [];
  dns_by_reverse = [];
  dns_deadlines = [];
  dns_completed_reverse = [];
  dns_completed_order = [];
}

drained-IsDrained : (w : FlowWorkerState) → IsValid w → IsDrained w.dns_by_key (drained w)
drained-IsDrained w v = record {
  sessions_valid = v.sessions_valid;
  owner = v.owner;
  no_key = refl;
  no_reverse = refl;
  keys_map = v.keys_map;
  leased = v.leased;
  no_session = v.no_session;
  distinct = λ j k d e h g same. other_token w v j d h k e g same;
}

-- In a well-formed state `remove_dns_transactions` succeeds with the bindings of all transactions,
-- and leaves a well-formed state without any.
pub remove_dns_transactions_lem :
    (w : FlowWorkerState) (v : IsValid w) (clock : DnsFlowTransactionKey → Instant)
    → ((remove_dns_transactions clock w).1 ≡ ok (map (λ e. e.1.binding) w.dns_by_key))
      × IsValid (remove_dns_transactions clock w).0
      × ((remove_dns_transactions clock w).0.dns_by_key ≡ [])
      × ((remove_dns_transactions clock w).0.dns_by_reverse ≡ [])
unfolding remove_dns_transactions gets modify pure
remove_dns_transactions_lem w v clock =
    let (w', done, r) = release_all_lem w.dns_by_key clock (drained w) (drained-IsDrained w v) in
    let ended : remove_dns_transactions clock w
        ≡ (set_active w', ok (map (λ e. e.1.binding) w.dns_by_key)) =
      bind_ok _ _ _ refl ∙ bind_ok _ _ _ refl ∙ bind_ok _ _ _ done ∙ bind_ok _ _ _ refl in
    rw ended (refl, drained-IsValid [] w' r, r.no_key, r.no_reverse)

pub remove_dns_transactions-Triple :
    (clock : DnsFlowTransactionKey → Instant) → Triple IsValid (remove_dns_transactions clock) Valid
remove_dns_transactions-Triple clock = record {
  run = λ w v.
      let (done, valid, keys, reverse) = remove_dns_transactions_lem w v clock in rw done valid;
}
