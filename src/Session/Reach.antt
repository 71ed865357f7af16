-- ===== src/Session/Reach.antt =====
-- src/flow_plane/session.rs: the tables that calls of the methods lead to.
use new_proxy.Prelude.{
  ℕ, Bool, false, Result, ◌≡◌, refl, arith, nat_eq, nat_beq, Option, none, List, [], ok, err,
  Option-cases, Bool-cases, inl, inr,
}
use new_proxy.HashMap
use new_proxy.Net.{SessionId, QuicFlowId, Instant, FlowKey, IoOwnerKey}
use new_proxy.Nat
use new_proxy.Nat.Table.{NatTable}
use new_proxy.Nat.Directory.{NatError}
use new_proxy.Nat.Start.{new_dual-ok}
use new_proxy.Session.Table.{
  SessionTable, new_dual, get_or_create_with_flags_at, touch_tcp, correct_intercept_io, remove,
}
use new_proxy.Session.Bulk.{
  expire_idle, allocate_ephemeral_nat, release_ephemeral_nat, rebind_quic_flow, remove_by_quic_flow,
}
use new_proxy.Session.Expiry.{due_at-none, AreBuckets}
use new_proxy.Session.Invariant.{IsValid}
use new_proxy.Session.Replace.{touch_tcp-IsValid, correct_intercept_io-IsValid}
use new_proxy.Session.Again.{get_or_create-IsValid}
use new_proxy.Session.Remove.{remove-Removed}
use new_proxy.Session.Expire.{expire_idle-IsScan}
use new_proxy.Session.Flows.{rebind_quic_flow-sessions, remove_by_quic_flow-sessions}
use new_proxy.Session.Ephemeral.{ephemeral_nat-IsValid}
use new_proxy.Session.Routing.{other_worker}

-- The tables that calls of the methods lead to, whoever calls and whatever they return. A token
-- that is released is not the identifier of a session.
pub data Reach (start : SessionTable) : SessionTable → Type 0 where
  here : Reach start start
  get_or_create :
      {t : SessionTable} (caller : ℕ) (f : FlowKey) (io : IoOwnerKey) (q : QuicFlowId)
      (flags : Option ℕ) (is_reverse : Bool) (now clock : Instant)
      → Reach start t
      → Reach start (get_or_create_with_flags_at t caller f io q flags is_reverse now clock).0
  touch :
      {t : SessionTable} (caller : ℕ) (i : SessionId) (flags : Option ℕ) (is_reverse : Bool)
      (now : Instant)
      → Reach start t
      → Reach start (touch_tcp t caller i flags is_reverse now).0
  correct :
      {t : SessionTable} (caller : ℕ) (i : SessionId) (io : IoOwnerKey)
      → Reach start t
      → Reach start (correct_intercept_io t caller i io).0
  drop :
      {t : SessionTable} (caller : ℕ) (i : SessionId) (clock : Instant)
      → Reach start t
      → Reach start (remove t caller i clock).0
  expire :
      {t : SessionTable} (caller : ℕ) (now : Instant) (clock : SessionId → Instant)
      → Reach start t
      → Reach start (expire_idle t caller now clock).0
  allocate :
      {t : SessionTable} (caller : ℕ) (token : SessionId) (f : FlowKey) (clock : Instant)
      → Reach start t
      → Reach start (allocate_ephemeral_nat t caller token f clock).0
  release :
      {t : SessionTable} (caller : ℕ) (token : SessionId) (clock : Instant)
      → HashMap.get token t.sessions ≡ none
      → Reach start t
      → Reach start (release_ephemeral_nat t caller token clock).0
  rebind :
      {t : SessionTable} (caller : ℕ) (old new : QuicFlowId)
      → Reach start t
      → Reach start (rebind_quic_flow t caller old new).0
  drop_flow :
      {t : SessionTable} (caller : ℕ) (q : QuicFlowId) (clock : SessionId → Instant)
      → Reach start t
      → Reach start (remove_by_quic_flow t caller q clock).0

module _ {t : SessionTable} (v : IsValid t) (caller : ℕ) where
  stranger : nat_beq caller t.owner_worker_id ≡ false → caller ≡ t.owner_worker_id → ⊥
  stranger ne e = ground arith

  pub drop-IsValid : (i : SessionId) (clock : Instant) → IsValid (remove t caller i clock).0
  unfolding remove
  drop-IsValid i clock = elim (Bool-cases (nat_beq caller t.owner_worker_id)) [
    | inr ne ↦ rw (ne, remove) v
    | inl owner ↦ elim (Option-cases (HashMap.get i t.sessions)) [
      | inl absent ↦ rw (owner, absent, remove) v
      | inr (s, held) ↦ (remove-Removed v i s held caller clock (ground arith)).1.valid
    ]
  ]

  pub expire-IsValid :
      (now : Instant) (clock : SessionId → Instant) → IsValid (expire_idle t caller now clock).0
  expire-IsValid now clock = elim (Bool-cases (nat_beq caller t.owner_worker_id)) [
    | inr ne ↦ rw ((other_worker t caller (stranger ne)).4 now clock) v
    | inl owner ↦
        let (ids, ss, scan) = expire_idle-IsScan v now caller clock (ground arith) in scan.valid
  ]

  pub rebind-IsValid : (old new : QuicFlowId) → IsValid (rebind_quic_flow t caller old new).0
  rebind-IsValid old new = elim (Bool-cases (nat_beq caller t.owner_worker_id)) [
    | inr ne ↦ rw ((other_worker t caller (stranger ne)).7 old new) v
    | inl owner ↦ (rebind_quic_flow-sessions v caller (ground arith) old new).2
  ]

  pub drop_flow-IsValid :
      (q : QuicFlowId) (clock : SessionId → Instant)
      → IsValid (remove_by_quic_flow t caller q clock).0
  drop_flow-IsValid q clock = elim (Bool-cases (nat_beq caller t.owner_worker_id)) [
    | inr ne ↦ rw ((other_worker t caller (stranger ne)).8 q clock) v
    | inl owner ↦ (remove_by_quic_flow-sessions v caller (ground arith) q clock).2
  ]

-- The invariant survives every method on every branch.
pub Reach-IsValid : {start t : SessionTable} → IsValid start → Reach start t → IsValid t
Reach-IsValid v here = v
Reach-IsValid v (get_or_create caller f io q flags is_reverse now clock r) =
    get_or_create-IsValid (Reach-IsValid v r) caller f io q flags is_reverse now clock
Reach-IsValid v (touch caller i flags is_reverse now r) =
    touch_tcp-IsValid (Reach-IsValid v r) i caller flags is_reverse now
Reach-IsValid v (correct caller i io r) =
    correct_intercept_io-IsValid (Reach-IsValid v r) i caller io
Reach-IsValid v (drop caller i clock r) = drop-IsValid (Reach-IsValid v r) caller i clock
Reach-IsValid v (expire caller now clock r) = expire-IsValid (Reach-IsValid v r) caller now clock
Reach-IsValid v (allocate caller token f clock r) =
    (ephemeral_nat-IsValid (Reach-IsValid v r) caller token clock).0 f
Reach-IsValid v (release caller token clock h r) =
    (ephemeral_nat-IsValid (Reach-IsValid v r) caller token clock).1 h
Reach-IsValid v (rebind caller old new r) = rebind-IsValid (Reach-IsValid v r) caller old new
Reach-IsValid v (drop_flow caller q clock r) = drop_flow-IsValid (Reach-IsValid v r) caller q clock

empty-IsValid :
    (t : SessionTable)
    → Nat.Invariant.IsValid t.owner_worker_id t.nat
    → t.by_key ≡ []
    → t.sessions ≡ []
    → t.deadlines ≡ []
    → IsValid t
unfolding HashMap.get AreBuckets
empty-IsValid t nat k s d = record {
  nat_valid = nat;
  sessions_map = rw s tt;
  deadlines_sorted = rw d tt;
  buckets = λ e ids h. absurd (ground arith);
  same_id = λ i c h. absurd (ground arith);
  worker = λ i c h. absurd (ground arith);
  indexed = λ i c h. absurd (ground arith);
  leased = λ i c h. absurd (ground arith);
  scheduled = λ i c h _. absurd (ground arith);
  keyed = λ q i h. absurd (ground arith);
  timed = λ e i h. absurd (ground (arith, due_at-none t.deadlines e i (ground arith)));
}

started :
    (owner : ℕ) (a b : Option (List ℕ)) (first last : ℕ) (start : SessionTable)
    (r : Result NatError NatTable)
    → Nat.Table.new_dual a b first last ≡ r
    → new_dual owner a b first last ≡ ok start
    → IsValid start
unfolding new_dual
started owner a b first last start (err e) h g = absurd (ground arith)
started owner a b first last start (ok nat) h g =
    let made : start ≡ record {
      owner_worker_id = owner;
      next_session_id = 1;
      by_key = [];
      sessions = [];
      deadlines = [];
      nat = nat;
    } =
      ground arith in
    rw made (empty-IsValid _ (new_dual-ok a b first last owner nat h) refl refl refl)

-- From a successful `new_dual` on, whatever methods are called by whatever worker, the session
-- table is well formed; a token that is released must not be the identifier of a session.
pub new_dual-Reach :
    (owner : ℕ) (a b : Option (List ℕ)) (first last : ℕ) {start t : SessionTable}
    → new_dual owner a b first last ≡ ok start
    → Reach start t
    → IsValid t
new_dual-Reach owner a b first last {start} h r =
    Reach-IsValid (started owner a b first last start _ refl h) r
