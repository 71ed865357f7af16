-- ===== src/Worker/Laws/Leases.antt =====
-- src/flow_plane/worker.rs: the state as a DNS transaction begins and as one ends.
use new_proxy.Prelude.{
  true, ◌≡◌, refl, ap, ◌∙◌, arith, nat_eq, nat_beq, none, some, Result, ok, err, Bool-cases,
  Option-cases, Result-cases, inl, inr, ◌==◌, ==_eq,
}
use new_proxy.HashMap
use new_proxy.HashMap.{HashMap}
use new_proxy.HashMap.Laws.{get-insert, insert-IsMap}
use new_proxy.Net
use new_proxy.Net.{SessionId, Instant, FlowKey, flow_eq, flow_beq_iff}
use new_proxy.Nat.Directory.{NatBinding}
use new_proxy.Nat.Table.{allocate_at}
use new_proxy.Nat.Invariant.{locator_of, port}
use new_proxy.Nat.Leases.{allocate-forward}
use new_proxy.Session.Table.{SessionTable, SessionError}
use new_proxy.Session.Bulk.{allocate_ephemeral_nat}
use new_proxy.Session.Ephemeral.{ephemeral_nat-IsValid}
use new_proxy.Worker.State.{
  FlowWorkerState, DnsFlowTransaction, DnsFlowTransactionKey, flow_key_eq, flow_key_beq_iff,
}
use new_proxy.Worker.Transactions.{add_transaction}
use new_proxy.Worker.Laws.Invariant.{IsValid}

abbrev pub reply_of : DnsFlowTransaction → FlowKey
reply_of d = Net.reverse d.binding.translated

-- A transaction that has its lease and is not in the indexes.
pub record IsReady (key : DnsFlowTransactionKey) (d : DnsFlowTransaction) (w : FlowWorkerState)
    : Type 0 where
  pub valid : IsValid w
  pub new_key : HashMap.get key w.dns_by_key ≡ none
  pub new_reply : HashMap.get (reply_of d) w.dns_by_reverse ≡ none
  pub leased : HashMap.get d.token w.sessions.nat.forward ≡ some d.binding
  pub no_session : HashMap.get d.token w.sessions.sessions ≡ none

pub add_transaction-IsValid :
    (key : DnsFlowTransactionKey) (d : DnsFlowTransaction) (w : FlowWorkerState)
    → IsReady key d w
    → IsValid (add_transaction w key d)
unfolding add_transaction
add_transaction-IsValid key d w r =
    let v = r.valid in
    record {
      sessions_valid = v.sessions_valid;
      owner = v.owner;
      keys_map = insert-IsMap key d w.dns_by_key v.keys_map;
      reverse_map = insert-IsMap (reply_of d) key w.dns_by_reverse v.reverse_map;
      indexed = λ k e h. ground (
        arith,
        get-insert k key d w.dns_by_key,
        get-insert (reply_of e) (reply_of d) key w.dns_by_reverse,
        flow_key_beq_iff key k,
        flow_beq_iff (reply_of d) (reply_of e),
        v.indexed k e,
        r.new_reply,
      );
      backed = λ f k h. elim (Bool-cases (reply_of d == f)) [
        | inl same ↦ (
          d,
          ground (
            arith,
            get-insert f (reply_of d) key w.dns_by_reverse,
            get-insert k key d w.dns_by_key,
            flow_key_beq_iff key k,
          ),
          ==_eq (reply_of d) f same,
        )
        | inr other ↦
            let (e, held, reply) =
              v.backed f k (ground (arith, get-insert f (reply_of d) key w.dns_by_reverse)) in
            (
              e,
              ground (arith, get-insert k key d w.dns_by_key, flow_key_beq_iff key k, r.new_key),
              reply,
            )
      ];
      leased = λ k e h. ground (arith, get-insert k key d w.dns_by_key, v.leased k e, r.leased);
      no_session =
          λ k e h. ground (arith, get-insert k key d w.dns_by_key, v.no_session k e, r.no_session);
    }

module _ (w : FlowWorkerState) (token : SessionId) (f : FlowKey) (clock : Instant) where
  abbrev allocated : SessionTable × Result SessionError NatBinding
  allocated = allocate_ephemeral_nat w.sessions w.worker_id token f clock

  granted :
      (v : IsValid w) (b : NatBinding)
      → allocated.1 ≡ ok b
      → (HashMap.get token w.sessions.nat.forward ≡ none)
        × (HashMap.get token allocated.0.nat.forward ≡ some b)
        × ((j : SessionId) (c : NatBinding)
            → HashMap.get j w.sessions.nat.forward ≡ some c
            → HashMap.get j allocated.0.nat.forward ≡ some c)
        × (allocated.0.sessions ≡ w.sessions.sessions)
        × (allocated.0.owner_worker_id ≡ w.sessions.owner_worker_id)
  unfolding allocate_ephemeral_nat
  granted v b done =
      let t = w.sessions in
      let a = allocate_at t.nat token f (locator_of t.owner_worker_id token) clock in
      let owner : nat_beq w.worker_id t.owner_worker_id ≡ true = ground (arith, v.owner) in
      elim (Result-cases a.1) [
        | inr (e, failed) ↦ absurd (ground arith)
        | inl (c, leased) ↦
            let (fresh, forward) =
              (allocate-forward v.sessions_valid.nat_valid token f clock).0 c leased in
            let same : c ≡ b = ground arith in
            rw (owner, allocate_ephemeral_nat, leased)
              (
                fresh,
                ground (arith, forward token, same),
                λ j d h. ground (arith, forward j),
                refl,
                refl,
              )
      ]

  abbrev with_lease : FlowWorkerState
  with_lease = record w { sessions = allocated.0 }

  reply_port :
      (b c : NatBinding) → Net.reverse b.translated ≡ Net.reverse c.translated → port b ≡ port c
  unfolding Net.reverse
  reply_port b c e = ap (λ r. r.destination_port) e

  -- An allocation that fails leaves the transactions their leases.
  refused :
      (v : IsValid w) (e : SessionError)
      → allocated.1 ≡ err e
      → (allocated.0.nat.forward ≡ w.sessions.nat.forward)
        × (allocated.0.sessions ≡ w.sessions.sessions)
        × (allocated.0.owner_worker_id ≡ w.sessions.owner_worker_id)
  unfolding allocate_ephemeral_nat
  refused v e failed =
      let t = w.sessions in
      let a = allocate_at t.nat token f (locator_of t.owner_worker_id token) clock in
      let owner : nat_beq w.worker_id t.owner_worker_id ≡ true = ground (arith, v.owner) in
      elim (Result-cases a.1) [
        | inl (c, leased) ↦ absurd (ground arith)
        | inr (x, exhausted) ↦
            rw (owner, allocate_ephemeral_nat, exhausted)
              (
                (allocate-forward v.sessions_valid.nat_valid token f clock).1 x exhausted,
                refl,
                refl,
              )
      ]

  keeps_leases :
      (v : IsValid w)
      → (allocated.0.sessions ≡ w.sessions.sessions)
      → (allocated.0.owner_worker_id ≡ w.sessions.owner_worker_id)
      → ((j : SessionId) (c : NatBinding)
          → HashMap.get j w.sessions.nat.forward ≡ some c
          → HashMap.get j allocated.0.nat.forward ≡ some c)
      → IsValid with_lease
  keeps_leases v same_sessions same_owner keeps = record {
    sessions_valid = (ephemeral_nat-IsValid v.sessions_valid w.worker_id token clock).0 f;
    owner = same_owner ∙ v.owner;
    keys_map = v.keys_map;
    reverse_map = v.reverse_map;
    indexed = v.indexed;
    backed = v.backed;
    leased = λ k d h. keeps d.token d.binding (v.leased k d h);
    no_session = λ k d h. rw same_sessions (v.no_session k d h);
  }

  pub refused-IsValid :
      (v : IsValid w) (e : SessionError) → allocated.1 ≡ err e → IsValid with_lease
  refused-IsValid v e failed =
      let (same, sessions, owner) = refused v e failed in
      keeps_leases v sessions owner (λ j c h. rw same h)

  pub granted-IsValid : (v : IsValid w) (b : NatBinding) → allocated.1 ≡ ok b → IsValid with_lease
  granted-IsValid v b done =
      let (fresh, held, keeps, sessions, owner) = granted v b done in
      keeps_leases v sessions owner keeps

  -- The reply that a new lease expects is nobody else's.
  granted-new_reply :
      (v : IsValid w) (b : NatBinding)
      → allocated.1 ≡ ok b
      → HashMap.get (Net.reverse b.translated) w.dns_by_reverse ≡ none
  granted-new_reply v b done =
      let (fresh, held, keeps, sessions, owner) = granted v b done in
      let v' = granted-IsValid v b done in
      elim (Option-cases (HashMap.get (Net.reverse b.translated) w.dns_by_reverse)) [
        | inl absent ↦ absent
        | inr (k, taken) ↦
            let (d, known, reply) = v.backed (Net.reverse b.translated) k taken in
            let old = v.leased k d known in
            let same : d.token ≡ token =
              v'.sessions_valid.nat_valid.distinct d.token token d.binding b
                (keeps d.token d.binding old) held (reply_port d.binding b reply) in
            absurd (ground (arith, fresh, old, same))
      ]

  granted-no_session :
      (v : IsValid w) (b : NatBinding)
      → allocated.1 ≡ ok b
      → HashMap.get token w.sessions.sessions ≡ none
  granted-no_session v b done =
      let (fresh, held, keeps, sessions, owner) = granted v b done in
      elim (Option-cases (HashMap.get token w.sessions.sessions)) [
        | inl absent ↦ absent
        | inr (s, there) ↦ absurd (ground (arith, fresh, v.sessions_valid.leased token s there))
      ]

  -- What the lease of a query whose key is new makes ready.
  pub granted-IsReady :
      (v : IsValid w) (key : DnsFlowTransactionKey) (d : DnsFlowTransaction)
      → HashMap.get key w.dns_by_key ≡ none
      → allocated.1 ≡ ok d.binding
      → d.token ≡ token
      → IsReady key d with_lease
  granted-IsReady v key d absent done named =
      let (fresh, held, keeps, sessions, owner) = granted v d.binding done in
      record {
        valid = granted-IsValid v d.binding done;
        new_key = absent;
        new_reply = granted-new_reply v d.binding done;
        leased = rw named held;
        no_session = rw (named, sessions) (granted-no_session v d.binding done);
      }
