-- ===== src/Session/Again.antt =====
-- src/flow_plane/session.rs: `get_or_create_with_flags_at` as its callers see it.
use new_proxy.Prelude.{
  ℕ, Bool, ◌≡◌, arith, nat_eq, nat_beq, Option, some, ok, Option-cases, Bool-cases, inl, inr,
  ==_self, ◌∙◌, sym,
}
use new_proxy.HashMap
use new_proxy.HashMap.Laws.{get-insert}
use new_proxy.Net.{SessionId, QuicFlowId, Instant, FlowKey, IoOwnerKey}
use new_proxy.Session.Table.{
  SessionKey, key_eq, SessionTable, new_session, record_session, create,
  get_or_create_with_flags_at, touch_tcp, touched, reuse,
}
use new_proxy.Session.Invariant.{IsValid}
use new_proxy.Session.Replace.{touch_tcp-IsValid}
use new_proxy.Session.Create.{create-IsValid}

abbrev pub flow_key : FlowKey → IoOwnerKey → SessionKey
flow_key original io = record { original = original; intercept_ifindex = io.ifindex }

module _ {t : SessionTable} (v : IsValid t) (caller : ℕ) (original : FlowKey) (io : IoOwnerKey)
    (quic : QuicFlowId) (flags : Option ℕ) (is_reverse : Bool) (now clock : Instant) where
  reuse_state :
      (i : SessionId)
      → (reuse t caller i flags is_reverse now).0 ≡ (touch_tcp t caller i flags is_reverse now).0
  unfolding reuse
  reuse_state i = ground arith

  -- Creation and reuse keep the table well formed, on every branch.
  pub get_or_create-IsValid :
      IsValid (get_or_create_with_flags_at t caller original io quic flags is_reverse now clock).0
  unfolding get_or_create_with_flags_at
  get_or_create-IsValid = elim (Bool-cases (nat_beq caller t.owner_worker_id)) [
    | inr other ↦ rw (other, get_or_create_with_flags_at) v
    | inl owner ↦ elim (Option-cases (HashMap.get (flow_key original io) t.by_key)) [
      | inl absent ↦
          rw (owner, absent, get_or_create_with_flags_at)
            (create-IsValid v original io quic flags now clock absent)
      | inr (i, found) ↦
          rw (owner, found, get_or_create_with_flags_at, reuse_state i)
            (touch_tcp-IsValid v i caller flags is_reverse now)
    ]
  ]

  -- A key that is known gives its session.
  known :
      (i : SessionId)
      → caller ≡ t.owner_worker_id
      → HashMap.get (flow_key original io) t.by_key ≡ some i
      → (get_or_create_with_flags_at t caller original io quic flags is_reverse now clock).1 ≡ ok i
  unfolding get_or_create_with_flags_at reuse touch_tcp
  known i owner found = ground (arith, v.keyed (flow_key original io) i)

  reuse_keys : (i : SessionId) → (reuse t caller i flags is_reverse now).0.by_key ≡ t.by_key
  unfolding reuse touch_tcp touched
  reuse_keys i = ground arith

  reuse_same : (i j : SessionId) → (reuse t caller i flags is_reverse now).1 ≡ ok j → i ≡ j
  unfolding reuse
  reuse_same i j h = ground arith

  created_key :
      (i : SessionId)
      → (create t original io quic flags now clock).1 ≡ ok i
      → HashMap.get (flow_key original io) (create t original io quic flags now clock).0.by_key
        ≡ some i
  unfolding create new_session record_session
  created_key i h = ground (
    arith,
    get-insert (flow_key original io) (flow_key original io) t.next_session_id t.by_key,
    ==_self (flow_key original io),
  )

  -- A call that returns a session has the worker's number, and leaves the session under its key.
  pub get_or_create-by_key :
      (i : SessionId)
      → (get_or_create_with_flags_at t caller original io quic flags is_reverse now clock).1 ≡ ok i
      → (caller ≡ t.owner_worker_id)
        × (HashMap.get
              (flow_key original io)
              (get_or_create_with_flags_at t caller original io quic flags is_reverse now
                clock).0.by_key
            ≡ some i)
  unfolding get_or_create_with_flags_at
  get_or_create-by_key i h = elim (Bool-cases (nat_beq caller t.owner_worker_id)) [
    | inr other ↦ absurd (ground arith)
    | inl owner ↦ elim (Option-cases (HashMap.get (flow_key original io) t.by_key)) [
      | inl absent ↦ (
        ground arith,
        rw (owner, absent, get_or_create_with_flags_at)
            (created_key i (rw (owner, absent, get_or_create_with_flags_at) at h)),
      )
      | inr (j, found) ↦
          let same = reuse_same j i (rw (owner, found, get_or_create_with_flags_at) at h) in
          (
            ground arith,
            rw (owner, found, get_or_create_with_flags_at, reuse_keys j) (rw same at found),
          )
    ]
  ]

  pub get_or_create_owner :
      (get_or_create_with_flags_at t caller original io quic flags is_reverse now
        clock).0.owner_worker_id
      ≡ t.owner_worker_id
  unfolding get_or_create_with_flags_at create reuse touch_tcp touched record_session
  get_or_create_owner = ground arith

-- In a well-formed table, a flow that has got a session and is asked for again by the same worker
-- on the same ingress interface gets the same identifier, whatever the queue, the QUIC flow, the
-- packet and the time.
pub get_or_create_again :
    {t : SessionTable} (v : IsValid t) (caller : ℕ) (original : FlowKey) (io io' : IoOwnerKey)
    (quic quic' : QuicFlowId) (flags flags' : Option ℕ) (is_reverse is_reverse' : Bool)
    (now now' clock clock' : Instant) (i : SessionId)
    → io'.ifindex ≡ io.ifindex
    → (get_or_create_with_flags_at t caller original io quic flags is_reverse now clock).1 ≡ ok i
    → (get_or_create_with_flags_at
        (get_or_create_with_flags_at t caller original io quic flags is_reverse now clock).0
        caller
        original
        io'
        quic'
        flags'
        is_reverse'
        now'
        clock').1
      ≡ ok i
get_or_create_again v caller original io io' quic quic' flags flags' is_reverse is_reverse' now now'
      clock clock' i same h =
    let (owner, found) =
      get_or_create-by_key v caller original io quic flags is_reverse now clock i h in
    known (get_or_create-IsValid v caller original io quic flags is_reverse now clock) caller
      original io' quic' flags' is_reverse' now' clock' i
      (owner ∙ sym (get_or_create_owner v caller original io quic flags is_reverse now clock))
      (rw same found)
