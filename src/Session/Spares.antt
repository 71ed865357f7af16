-- ===== src/Session/Spares.antt =====
-- src/flow_plane/session.rs: the methods on sessions and the NAT bindings that have no session.
use new_proxy.Prelude.{
  ℕ, Bool, false, ◌≡◌, refl, ◌∙◌, arith, nat_eq, nat_beq, Option, none, some, List, [], ◌∷◌,
  Bool-cases, Option-cases, Result-cases, inl, inr,
}
use new_proxy.HashMap
use new_proxy.HashMap.Laws.{get-insert, get-remove}
use new_proxy.Net.{SessionId, QuicFlowId, Instant, FlowKey, IoOwnerKey}
use new_proxy.Nat.Table.{NatTable, release, remove_at, allocate_at}
use new_proxy.Nat.Directory.{NatBinding}
use new_proxy.Nat.Leases.{allocate-forward}
use new_proxy.Nat.Invariant.{locator_of}
use new_proxy.Session.Deadlines.{Deadlines, pop_due}
use new_proxy.Session.Table.{
  Session, SessionTable, key_eq, touched, touch_tcp, new_session, record_session, create, reuse,
  get_or_create_with_flags_at, correct_session, correct_intercept_io, forget, remove,
}
use new_proxy.Session.Bulk.{
  remove_all, due_ids, expire_idle, rebind_quic_flow, ids_of_flow, remove_by_quic_flow,
}
use new_proxy.Session.Flows.{get-rebind}
use new_proxy.Session.Invariant.{IsValid}
use new_proxy.Session.Again.{flow_key}

pub record Spares (t t' : SessionTable) : Type 0 where
  pub owner : t'.owner_worker_id ≡ t.owner_worker_id
  pub bindings :
      (j : SessionId) (b : NatBinding)
      → HashMap.get j t.nat.forward ≡ some b
      → HashMap.get j t.sessions ≡ none
      → (HashMap.get j t'.nat.forward ≡ some b) × (HashMap.get j t'.sessions ≡ none)

pub same-Spares : (t : SessionTable) → Spares t t
same-Spares t = record { owner = refl; bindings = λ j b h n. (h, n) }

trans-Spares : {t t' t'' : SessionTable} → Spares t t' → Spares t' t'' → Spares t t''
trans-Spares s s' = record {
  owner = s'.owner ∙ s.owner;
  bindings = λ j b h n. let (h', n') = s.bindings j b h n in s'.bindings j b h' n';
}

put-Spares :
    (t : SessionTable) (i : SessionId) (s s' : Session) (d : Deadlines)
    → HashMap.get i t.sessions ≡ some s
    → Spares t (record t { sessions = HashMap.insert i s' t.sessions; deadlines = d })
put-Spares t i s s' d held = record {
  owner = refl;
  bindings = λ j b h n. (h, ground (arith, get-insert j i s' t.sessions));
}

module _ (t : SessionTable) (caller : ℕ) where
  pub touch_tcp-Spares :
      (i : SessionId) (flags : Option ℕ) (is_reverse : Bool) (now : Instant)
      → Spares t (touch_tcp t caller i flags is_reverse now).0
  unfolding touch_tcp touched
  touch_tcp-Spares i flags is_reverse now = elim (Bool-cases (nat_beq caller t.owner_worker_id)) [
    | inr other ↦ rw (other, touch_tcp) (same-Spares t)
    | inl owner ↦ elim (Option-cases (HashMap.get i t.sessions)) [
      | inl absent ↦ rw (owner, absent, touch_tcp) (same-Spares t)
      | inr (s, held) ↦ rw (owner, held, touch_tcp) (put-Spares t i s _ _ held)
    ]
  ]

  correct_session-Spares :
      (i : SessionId) (s : Session) (observed : IoOwnerKey)
      → HashMap.get i t.sessions ≡ some s
      → Spares t (correct_session t i s observed).0
  unfolding correct_session
  correct_session-Spares i s observed held = record {
    owner = ground arith;
    bindings =
        λ j b h n. ground (arith, get-insert j i (record s { intercept_io = observed }) t.sessions);
  }

  pub correct_intercept_io-Spares :
      (i : SessionId) (observed : IoOwnerKey)
      → Spares t (correct_intercept_io t caller i observed).0
  unfolding correct_intercept_io
  correct_intercept_io-Spares i observed = elim (Bool-cases (nat_beq caller t.owner_worker_id)) [
    | inr other ↦ rw (other, correct_intercept_io) (same-Spares t)
    | inl owner ↦ elim (Option-cases (HashMap.get i t.sessions)) [
      | inl absent ↦ rw (owner, absent, correct_intercept_io) (same-Spares t)
      | inr (s, held) ↦
          rw (owner, held, correct_intercept_io) (correct_session-Spares i s observed held)
    ]
  ]

  pub rebind_quic_flow-Spares :
      (old new : QuicFlowId) → Spares t (rebind_quic_flow t caller old new).0
  unfolding rebind_quic_flow
  rebind_quic_flow-Spares old new = record {
    owner = ground arith;
    bindings = λ j b h n. ground (arith, get-rebind old new t.sessions j);
  }

remove_at_other :
    (t : NatTable) (i j : SessionId) (now : Instant)
    → nat_beq i j ≡ false
    → HashMap.get j (remove_at t i now).0.forward ≡ HashMap.get j t.forward
unfolding remove_at release
remove_at_other t i j now other = ground (arith, get-remove j i t.forward)

pub remove-Spares :
    (t : SessionTable) (caller : ℕ) (i : SessionId) (clock : Instant)
    → Spares t (remove t caller i clock).0
unfolding remove forget
remove-Spares t caller i clock = record {
  owner = ground arith;
  bindings = λ j b h n. ground (arith, get-remove j i t.sessions, remove_at_other t.nat i j clock);
}

remove_all-Spares :
    (t : SessionTable) (caller : ℕ) (ids : List SessionId) (clock : SessionId → Instant)
    → Spares t (remove_all t caller ids clock).0
unfolding remove_all
remove_all-Spares t caller [] clock = same-Spares t
remove_all-Spares t caller (i ∷ ids) clock =
    let removed = remove t caller i (clock i) in
    let first = remove-Spares t caller i (clock i) in
    let both = trans-Spares first (remove_all-Spares removed.0 caller ids clock) in
    elim (Result-cases removed.1) [
      | inr (e, failed) ↦ rw (failed, remove_all) first
      | inl (s, done) ↦ elim (Result-cases (remove_all removed.0 caller ids clock).1) [
        | inr (e, failed) ↦ rw (done, remove_all, failed) both
        | inl (ss, all) ↦ rw (done, remove_all, all) both
      ]
    ]

module _ (t : SessionTable) (caller : ℕ) where
  pub expire_idle-Spares :
      (now : Instant) (clock : SessionId → Instant) → Spares t (expire_idle t caller now clock).0
  unfolding expire_idle
  expire_idle-Spares now clock = elim (Bool-cases (nat_beq caller t.owner_worker_id)) [
    | inr other ↦ rw (other, expire_idle) (same-Spares t)
    | inl owner ↦
        let popped = record t { deadlines = (pop_due t.deadlines now).1 } in
        let s =
          remove_all-Spares popped caller (due_ids popped now (pop_due t.deadlines now).0) clock in
        rw (owner, expire_idle) (record { owner = s.owner; bindings = s.bindings })
  ]

  pub remove_by_quic_flow-Spares :
      (q : QuicFlowId) (clock : SessionId → Instant)
      → Spares t (remove_by_quic_flow t caller q clock).0
  unfolding remove_by_quic_flow
  remove_by_quic_flow-Spares q clock = elim (Bool-cases (nat_beq caller t.owner_worker_id)) [
    | inr other ↦ rw (other, remove_by_quic_flow) (same-Spares t)
    | inl owner ↦
        let s = remove_all-Spares t caller (ids_of_flow q t.sessions) clock in
        elim (Result-cases (remove_all t caller (ids_of_flow q t.sessions) clock).1) [
          | inr (e, failed) ↦ rw (owner, remove_by_quic_flow, failed) s
          | inl (ss, done) ↦ rw (owner, remove_by_quic_flow, done) s
        ]
  ]

module _ {t : SessionTable} (v : IsValid t) (caller : ℕ) (original : FlowKey) (io : IoOwnerKey)
    (quic : QuicFlowId) (flags : Option ℕ) (is_reverse : Bool) (now clock : Instant) where
  create-Spares : Spares t (create t original io quic flags now clock).0
  unfolding create record_session new_session
  create-Spares =
      let a =
        allocate_at t.nat t.next_session_id original
          (locator_of t.owner_worker_id t.next_session_id) clock in
      let (granted, refused) = allocate-forward v.nat_valid t.next_session_id original clock in
      elim (Result-cases a.1) [
        | inr (e, failed) ↦
            rw (failed, create)
              (record { owner = refl; bindings = λ j b h n. (rw (refused e failed) h, n) })
        | inl (c, leased) ↦
            let (fresh, forward) = granted c leased in
            rw (leased, create)
              (record {
                owner = refl;
                bindings = λ j b h n. ground (
                  arith,
                  forward j,
                  get-insert j t.next_session_id (new_session t original c io quic flags now)
                      t.sessions,
                );
              })
      ]

  reuse-Spares : (i : SessionId) → Spares t (reuse t caller i flags is_reverse now).0
  unfolding reuse
  reuse-Spares i =
      let s = touch_tcp-Spares t caller i flags is_reverse now in
      elim (Result-cases (touch_tcp t caller i flags is_reverse now).1) [
        | inr (e, failed) ↦ rw (failed, reuse) s
        | inl (u, done) ↦ rw (done, reuse) s
      ]

  pub get_or_create-Spares :
      Spares t (get_or_create_with_flags_at t caller original io quic flags is_reverse now clock).0
  unfolding get_or_create_with_flags_at
  get_or_create-Spares = elim (Bool-cases (nat_beq caller t.owner_worker_id)) [
    | inr other ↦ rw (other, get_or_create_with_flags_at) (same-Spares t)
    | inl owner ↦ elim (Option-cases (HashMap.get (flow_key original io) t.by_key)) [
      | inl absent ↦ rw (owner, absent, get_or_create_with_flags_at) create-Spares
      | inr (i, found) ↦ rw (owner, found, get_or_create_with_flags_at) (reuse-Spares i)
    ]
  ]
