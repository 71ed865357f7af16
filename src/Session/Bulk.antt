-- ===== src/Session/Bulk.antt =====
-- src/flow_plane/session.rs: the operations of `SessionTable` that go over many sessions. Each
-- removal reads the clock anew: `clock` gives the reading at which a session is removed.
use new_proxy.Prelude.{
  ℕ, suc, Bool, false, none, some, List, [], ◌∷◌, if◌then◌else◌, leb, nat_beq, nat_eq, ok, err,
  length,
}
use new_proxy.HashMap
use new_proxy.HashMap.{HashMap}
use new_proxy.Net.{SessionId, QuicFlowId, Instant, FlowKey}
use new_proxy.Nat
use new_proxy.Nat.Directory.{NatBinding}
use new_proxy.Session.Deadlines.{pop_due}
use new_proxy.Session.Table.{Session, SessionTable, Returns, nat_error, ensure_owner, remove}

-- `ids.into_iter().map(|id| self.remove(caller, id)).collect::<Result<Vec<_>, _>>()`
unfoldable pub remove_all :
    SessionTable → ℕ → List SessionId → (SessionId → Instant) → Returns (List Session)
remove_all t caller [] clock = (t, ok [])
remove_all t caller (id ∷ ids) clock =
    let removed = remove t caller id (clock id) in
    let rest = remove_all removed.0 caller ids clock in
    elim removed.1 [
      | err e ↦ (removed.0, err e)
      | ok s ↦ elim rest.1 [ err e ↦ (rest.0, err e) | ok ss ↦ (rest.0, ok (s ∷ ss)) ]
    ]

-- The session is there and its deadline has passed.
unfoldable pub is_due : SessionTable → Instant → SessionId → Bool
is_due t now id = elim (HashMap.get id t.sessions) [ none ↦ false | some s ↦ leb s.expires_at now ]

unfoldable pub due_ids : SessionTable → Instant → List SessionId → List SessionId
due_ids t now [] = []
due_ids t now (id ∷ ids) =
    let rest = due_ids t now ids in if is_due t now id then id ∷ rest else rest

unfoldable pub expire_idle :
    SessionTable → ℕ → Instant → (SessionId → Instant) → Returns (List Session)
unfolding ensure_owner
expire_idle t caller now clock = ensure_owner t caller (
    let (popped, deadlines) = pop_due t.deadlines now in
    let t' = record t { deadlines = deadlines } in
    remove_all t' caller (due_ids t' now popped) clock)

unfoldable pub allocate_ephemeral_nat :
    SessionTable → ℕ → SessionId → FlowKey → Instant → Returns NatBinding
unfolding ensure_owner
allocate_ephemeral_nat t caller token original clock = ensure_owner t caller (
    let allocated =
      Nat.Table.allocate_at t.nat token original
        (record { flow_worker_id = t.owner_worker_id; session_id = token }) clock in
    elim allocated.1 [
      | err e ↦ (record t { nat = allocated.0 }, err (nat_error e))
      | ok binding ↦ (record t { nat = allocated.0 }, ok binding)
    ])

unfoldable pub release_ephemeral_nat : SessionTable → ℕ → SessionId → Instant → Returns NatBinding
unfolding ensure_owner
release_ephemeral_nat t caller token clock = ensure_owner t caller (
    let removed = Nat.Table.remove_at t.nat token clock in
    elim removed.1 [
      | err e ↦ (record t { nat = removed.0 }, err (nat_error e))
      | ok binding ↦ (record t { nat = removed.0 }, ok binding)
    ])

-- The loop of `rebind_quic_flow`: the sessions, and how many of them it changes.
unfoldable pub rebind_sessions :
    QuicFlowId → QuicFlowId → HashMap SessionId Session → HashMap SessionId Session × ℕ
rebind_sessions old new [] = ([], 0)
rebind_sessions old new ((id, s) ∷ sessions) =
    let rest = rebind_sessions old new sessions in
    if nat_beq s.quic_flow_id old
    then ((id, record s { quic_flow_id = new }) ∷ rest.0, suc rest.1)
    else ((id, s) ∷ rest.0, rest.1)

unfoldable pub rebind_quic_flow : SessionTable → ℕ → QuicFlowId → QuicFlowId → Returns ℕ
unfolding ensure_owner
rebind_quic_flow t caller old new = ensure_owner t caller (
    let (sessions, count) = rebind_sessions old new t.sessions in
    (record t { sessions = sessions }, ok count))

unfoldable pub ids_of_flow : QuicFlowId → HashMap SessionId Session → List SessionId
ids_of_flow flow [] = []
ids_of_flow flow ((id, s) ∷ sessions) =
    let rest = ids_of_flow flow sessions in
    if nat_beq s.quic_flow_id flow then s.id ∷ rest else rest

unfoldable pub remove_by_quic_flow :
    SessionTable → ℕ → QuicFlowId → (SessionId → Instant) → Returns ℕ
unfolding ensure_owner
remove_by_quic_flow t caller flow clock = ensure_owner t caller (
    let ids = ids_of_flow flow t.sessions in
    let removed = remove_all t caller ids clock in
    elim removed.1 [ err e ↦ (removed.0, err e) | ok _ ↦ (removed.0, ok (length ids)) ])
