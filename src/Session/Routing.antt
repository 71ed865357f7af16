-- ===== src/Session/Routing.antt =====
-- src/flow_plane/session.rs: `lookup_reverse`.
use new_proxy.Prelude.{
  ℕ, Bool, false, ◌≡◌, ◌≢◌, ◌⊎◌, arith, nat_eq, nat_beq, Option, none, some, err, Option-cases, inl,
  inr,
}
use new_proxy.HashMap
use new_proxy.Net.{SessionId, QuicFlowId, FlowKey, IoOwnerKey, Instant, flow_eq}
use new_proxy.Nat
use new_proxy.Nat.Directory.{SessionLocator, from_return_flow}
use new_proxy.Nat.Keys.{IsReply, reply_key}
use new_proxy.Nat.Invariant.{locator_of}
use new_proxy.Session.Table.{
  Session, SessionTable, wrong_owner, lookup_reverse, touch_tcp, get_or_create_with_flags_at,
  correct_intercept_io, remove,
}
use new_proxy.Session.Bulk.{
  expire_idle, allocate_ephemeral_nat, release_ephemeral_nat, rebind_quic_flow, remove_by_quic_flow,
}
use new_proxy.Session.Invariant.{IsValid}

module _ {t : SessionTable} (v : IsValid t) where
  -- In a well-formed table every reply to a session's translated flow finds that session.
  pub lookup_reverse-IsReply :
      (i : SessionId) (s : Session) (r : FlowKey)
      → HashMap.get i t.sessions ≡ some s
      → IsReply s.nat.translated r
      → lookup_reverse t r ≡ some i
  unfolding lookup_reverse Nat.Table.lookup_reverse
  lookup_reverse-IsReply i s r held reply =
      ground (
        arith,
        v.nat_valid.published i s.nat (v.leased i s held),
        reply_key s.nat.translated r reply,
      )

  -- In a well-formed table a packet that finds an identifier finds a session that is there, and
  -- carries the reverse key of that session's translation.
  pub lookup_reverse-session :
      (i : SessionId) (r : FlowKey)
      → lookup_reverse t r ≡ some i
      → (s : Session) × (HashMap.get i t.sessions ≡ some s)
        × (Nat.Invariant.key_of s.nat ≡ from_return_flow r)
  unfolding lookup_reverse Nat.Table.lookup_reverse
  lookup_reverse-session i r h = elim (Option-cases (HashMap.get i t.sessions)) [
    | inl absent ↦ absurd (ground arith)
    | inr (s, held) ↦
        (s, held, same_key s held (Option-cases (HashMap.get (from_return_flow r) t.nat.reverse)))
  ]
    where
      same_key :
          (s : Session)
          → HashMap.get i t.sessions ≡ some s
          → ((HashMap.get (from_return_flow r) t.nat.reverse ≡ none)
              ⊎ ((l : SessionLocator) × (HashMap.get (from_return_flow r) t.nat.reverse ≡ some l)))
          → Nat.Invariant.key_of s.nat ≡ from_return_flow r
      same_key s held (inl absent) = absurd (ground arith)
      same_key s held (inr (l, found)) =
          ground (arith, v.nat_valid.backed (from_return_flow r) l found, v.leased i s held)

-- A worker that does not own the session table changes nothing by any of the methods that write,
-- and is told whose table it is.
pub other_worker :
    (t : SessionTable) (caller : ℕ)
    → caller ≢ t.owner_worker_id
    → ((f : FlowKey) (io : IoOwnerKey) (q : QuicFlowId) (flags : Option ℕ) (r : Bool)
          (now clock : Instant)
        → get_or_create_with_flags_at t caller f io q flags r now clock
          ≡ (t, err (wrong_owner t.owner_worker_id caller)))
      × ((i : SessionId) (flags : Option ℕ) (r : Bool) (now : Instant)
          → touch_tcp t caller i flags r now ≡ (t, err (wrong_owner t.owner_worker_id caller)))
      × ((i : SessionId) (io : IoOwnerKey)
          → correct_intercept_io t caller i io ≡ (t, err (wrong_owner t.owner_worker_id caller)))
      × ((i : SessionId) (clock : Instant)
          → remove t caller i clock ≡ (t, err (wrong_owner t.owner_worker_id caller)))
      × ((now : Instant) (clock : SessionId → Instant)
          → expire_idle t caller now clock ≡ (t, err (wrong_owner t.owner_worker_id caller)))
      × ((i : SessionId) (f : FlowKey) (clock : Instant)
          → allocate_ephemeral_nat t caller i f clock
            ≡ (t, err (wrong_owner t.owner_worker_id caller)))
      × ((i : SessionId) (clock : Instant)
          → release_ephemeral_nat t caller i clock
            ≡ (t, err (wrong_owner t.owner_worker_id caller)))
      × ((old new : QuicFlowId)
          → rebind_quic_flow t caller old new ≡ (t, err (wrong_owner t.owner_worker_id caller)))
      × ((q : QuicFlowId) (clock : SessionId → Instant)
          → remove_by_quic_flow t caller q clock ≡ (t, err (wrong_owner t.owner_worker_id caller)))
unfolding get_or_create_with_flags_at touch_tcp correct_intercept_io remove expire_idle
    allocate_ephemeral_nat release_ephemeral_nat rebind_quic_flow remove_by_quic_flow
other_worker t caller ne =
    let no : nat_beq caller t.owner_worker_id ≡ false = ground arith in
    (
      λ f io q flags r now clock. rw (no, get_or_create_with_flags_at),
      λ i flags r now. rw (no, touch_tcp),
      λ i io. rw (no, correct_intercept_io),
      λ i clock. rw (no, remove),
      λ now clock. rw (no, expire_idle),
      λ i f clock. rw (no, allocate_ephemeral_nat),
      λ i clock. rw (no, release_ephemeral_nat),
      λ old new. rw (no, rebind_quic_flow),
      λ q clock. rw (no, remove_by_quic_flow),
    )
