-- ===== src/Worker/Laws/Removal.antt =====
-- src/flow_plane/worker.rs: `remove_dns_transaction` in a well-formed state.
use new_proxy.Prelude.{
  ℕ, ◌≡◌, sym, ap, arith, nat_eq, Option, none, some, Result, ok, Option-cases, inl, inr,
  if◌then◌else◌, ◌==◌,
}
use new_proxy.HashMap
use new_proxy.HashMap.{HashMap}
use new_proxy.HashMap.Laws.{get-remove, remove-IsMap}
use new_proxy.Net.{SessionId, Instant, flow_eq, flow_beq_iff}
use new_proxy.Nat.Directory.{NatBinding}
use new_proxy.Nat.Table.{remove_at}
use new_proxy.Nat.Removal.{remove-forward}
use new_proxy.Session.Table.{SessionTable, SessionError}
use new_proxy.Session.Bulk.{release_ephemeral_nat}
use new_proxy.Session.Ephemeral.{ephemeral_nat-IsValid}
use new_proxy.Worker.State.{
  FlowWorkerState, DnsFlowTransaction, DnsFlowTransactionKey, flow_key_eq, flow_key_beq_iff, ◌>>=◌,
  ◌>>◌, modify, of_sessions, pure,
}
use new_proxy.Worker.Transactions.{drop_transaction, set_active, remove_dns_transaction}
use new_proxy.Worker.Laws.Invariant.{IsValid, Holds, Triple, Valid}
use new_proxy.Worker.Laws.Leases.{reply_of}

-- A lease of the worker is released, and the rest of its table stays.
pub release_lem :
    (t : SessionTable) (caller : ℕ) (token : SessionId) (clock : Instant) (b : NatBinding)
    → caller ≡ t.owner_worker_id
    → HashMap.get token t.nat.forward ≡ some b
    → release_ephemeral_nat t caller token clock
      ≡ (record t { nat = (remove_at t.nat token clock).0 }, ok b)
unfolding release_ephemeral_nat remove_at
release_lem t caller token clock b owner held = ground arith

-- A call of the session table that succeeds, between two writes.
sessions_step :
    {A B : Type 0} (before after : FlowWorkerState → FlowWorkerState)
    (m : SessionTable → SessionTable × Result SessionError A) (w : FlowWorkerState)
    (t : SessionTable) (a : A) (b : B)
    → m (before w).sessions ≡ (t, ok a)
    → (modify before >> of_sessions m >> modify after >> pure b) w
      ≡ (after (record (before w) { sessions = t }), ok b)
unfolding ◌>>=◌ modify of_sessions pure
sessions_step before after m w t a b done = cc

module _ (w : FlowWorkerState) (v : IsValid w) (key : DnsFlowTransactionKey)
    (d : DnsFlowTransaction) (held : HashMap.get key w.dns_by_key ≡ some d) where
  -- Another transaction has another token.
  pub other_token :
      (k : DnsFlowTransactionKey) (e : DnsFlowTransaction)
      → HashMap.get k w.dns_by_key ≡ some e
      → d.token ≡ e.token
      → key ≡ k
  other_token k e there same =
      let bindings : d.binding ≡ e.binding =
        ground (arith, v.leased key d held, v.leased k e there, same) in
      ground (arith, v.indexed key d held, v.indexed k e there, bindings)

  -- The table without the lease.
  abbrev released : Instant → SessionTable
  released clock = record w.sessions { nat = (remove_at w.sessions.nat d.token clock).0 }

  released-IsValid :
      (clock : Instant)
      → Holds w.worker_id
          (released clock)
          (HashMap.remove key w.dns_by_key)
          (HashMap.remove (reply_of d) w.dns_by_reverse)
  unfolding release_ephemeral_nat
  released-IsValid clock =
      let t = w.sessions in
      let done =
        release_lem t w.worker_id d.token clock d.binding (sym v.owner) (v.leased key d held) in
      let valid =
        (ephemeral_nat-IsValid v.sessions_valid w.worker_id d.token clock).1
          (v.no_session key d held) in
      record {
        sessions_valid = rw done at valid;
        owner = v.owner;
        keys_map = remove-IsMap key w.dns_by_key v.keys_map;
        reverse_map = remove-IsMap (reply_of d) w.dns_by_reverse v.reverse_map;
        indexed = λ k e h. ground (
          arith,
          get-remove k key w.dns_by_key,
          get-remove (reply_of e) (reply_of d) w.dns_by_reverse,
          flow_key_beq_iff key k,
          flow_beq_iff (reply_of d) (reply_of e),
          v.indexed k e,
          v.indexed key d held,
        );
        backed = λ f k h.
            let (e, there, reply) =
              v.backed f k (ground (arith, get-remove f (reply_of d) w.dns_by_reverse)) in
            (
              e,
              ground (
                arith,
                get-remove k key w.dns_by_key,
                get-remove f (reply_of d) w.dns_by_reverse,
                flow_key_beq_iff key k,
                flow_beq_iff (reply_of d) f,
              ),
              reply,
            );
        leased = λ k e h. ground (
          arith,
          get-remove k key w.dns_by_key,
          flow_key_beq_iff key k,
          remove-forward v.sessions_valid.nat_valid d.token clock e.token,
          v.leased k e,
          other_token k e,
        );
        no_session = λ k e h. ground (arith, get-remove k key w.dns_by_key, v.no_session k e);
      }

  -- The state that a removal of the transaction leaves.
  abbrev without_transaction : Instant → FlowWorkerState
  without_transaction clock =
      set_active (record (drop_transaction w key d) { sessions = released clock })

  removal :
      (clock : Instant)
      → remove_dns_transaction key clock w ≡ (without_transaction clock, ok (some d))
  unfolding remove_dns_transaction drop_transaction ◌>>=◌ modify of_sessions pure
  removal clock =
      let done =
        release_lem w.sessions w.worker_id d.token clock d.binding (sym v.owner)
          (v.leased key d held) in
      rw (held, remove_dns_transaction)
        (sessions_step (λ v. drop_transaction v key d) set_active
          (λ t. release_ephemeral_nat t w.worker_id d.token clock) w (released clock) d.binding
          (some d) done)

module _ (w : FlowWorkerState) (v : IsValid w) (key : DnsFlowTransactionKey) (clock : Instant) where
  no_removal :
      HashMap.get key w.dns_by_key ≡ none → remove_dns_transaction key clock w ≡ (w, ok none)
  unfolding remove_dns_transaction
  no_removal absent = rw (absent, remove_dns_transaction)

  -- In a well-formed state `remove_dns_transaction` succeeds, returns the transaction of the key
  -- if there is one, takes it and no other out of the index, frees the lease of its token, and
  -- leaves the state well formed.
  pub remove_dns_transaction-IsValid :
      ((remove_dns_transaction key clock w).1 ≡ ok (HashMap.get key w.dns_by_key))
      × IsValid (remove_dns_transaction key clock w).0
      × ((k : DnsFlowTransactionKey)
          → HashMap.get k (remove_dns_transaction key clock w).0.dns_by_key
            ≡ (if key == k then none else HashMap.get k w.dns_by_key))
      × ((d : DnsFlowTransaction)
          → HashMap.get key w.dns_by_key ≡ some d
          → HashMap.get d.token (remove_dns_transaction key clock w).0.sessions.nat.forward ≡ none)
  unfolding drop_transaction
  remove_dns_transaction-IsValid = elim (Option-cases (HashMap.get key w.dns_by_key)) [
    | inl absent ↦ rw (no_removal absent) (
      ap ok (sym absent),
      v,
      λ k. ground (arith, flow_key_beq_iff key k),
      λ d h. absurd (ground arith),
    )
    | inr (d, held) ↦ rw (removal w v key d held clock) (
      ap ok (sym held),
      released-IsValid w v key d held clock,
      λ k. get-remove k key w.dns_by_key,
      λ e h.
          ground (arith, remove-forward v.sessions_valid.nat_valid d.token clock e.token, held, h),
    )
  ]

-- The transaction that a key has, if any, is removed and returned.
pub remove_dns_transaction-Triple :
    (key : DnsFlowTransactionKey) (clock : Instant) (o : Option DnsFlowTransaction)
    → Triple
        (λ w. IsValid w × (HashMap.get key w.dns_by_key ≡ o))
        (remove_dns_transaction key clock)
        (λ r w. IsValid w × (r ≡ o))
remove_dns_transaction-Triple key clock o = record {
  run = λ w p.
      let (done, valid, rest, freed) = remove_dns_transaction-IsValid w p.0 key clock in
      rw done (valid, p.1);
}

-- A removal of which only the result is needed.
pub removed-Triple :
    (key : DnsFlowTransactionKey) (clock : Instant)
    → Triple IsValid (remove_dns_transaction key clock) Valid
removed-Triple key clock = record {
  run = λ w v.
      let (done, valid, rest, freed) = remove_dns_transaction-IsValid w v key clock in
      rw done valid;
}
