-- ===== src/Session/Table.antt =====
-- src/flow_plane/session.rs: `SessionTable` and its operations.
use new_proxy.Prelude.{
  ℕ, ◌+◌, ◌^◌, ◌%◌, Bool, true, ◌&&◌, Option, none, some, List, [], if◌then◌else◌, nat_eq, nat_beq,
  Eq, ◌==◌, ◌≡◌, ◌↔◌, arith, Result, ok, err,
}
use new_proxy.HashMap
use new_proxy.HashMap.{HashMap}
use new_proxy.Net.{
  SessionId, QuicFlowId, Instant, FlowKey, flow_eq, flow_beq_iff, IoOwnerKey, io_eq,
}
use new_proxy.Nat.Directory.{SessionLocator, NatBinding, NatError}
use new_proxy.Nat
use new_proxy.Nat.Table.{NatTable}
use new_proxy.Session.Tcp.{TcpSessionState, touch_state, first_state}
use new_proxy.Session.Deadlines.{Deadlines, add_deadline, remove_deadline}

pub record SessionKey : Type 0 where
  pub original : FlowKey
  pub intercept_ifindex : ℕ

unfoldable pub key_beq : SessionKey → SessionKey → Bool
key_beq a b = a.original == b.original && a.intercept_ifindex == b.intercept_ifindex

pub key_beq_iff : (a b : SessionKey) → (key_beq a b ≡ true) ↔ (a ≡ b)
unfolding key_beq
key_beq_iff a b = ground (arith, flow_beq_iff a.original b.original)

instance abbrev pub key_eq : Eq SessionKey
key_eq = record { beq = key_beq; beq_iff = key_beq_iff }

pub record Session : Type 0 where
  pub id : SessionId
  pub original : FlowKey
  pub nat : NatBinding
  pub flow_worker_id : ℕ
  pub intercept_io : IoOwnerKey
  pub quic_flow_id : QuicFlowId
  pub expires_at : Instant
  pub tcp_state : Option TcpSessionState

abbrev pub key_of : Session → SessionKey
key_of s = record { original = s.original; intercept_ifindex = s.intercept_io.ifindex }

pub data SessionError : Type 0 where
  wrong_owner : ℕ → ℕ → SessionError
  unknown_session : SessionId → SessionError
  nat_error : NatError → SessionError

pub data InterceptIoUpdate : Type 0 where
  unchanged corrected mismatch : InterceptIoUpdate

pub record SessionTable : Type 0 where
  pub owner_worker_id : ℕ
  pub next_session_id : ℕ
  pub by_key : HashMap SessionKey SessionId
  pub sessions : HashMap SessionId Session
  pub deadlines : Deadlines
  pub nat : NatTable

abbrev pub Returns : Type 0 → Type 0
Returns A = SessionTable × Result SessionError A

unfoldable pub new_dual :
    ℕ → Option (List ℕ) → Option (List ℕ) → ℕ → ℕ → Result SessionError SessionTable
new_dual owner_worker_id snat_ipv4 snat_ipv6 first last =
    elim (Nat.Table.new_dual snat_ipv4 snat_ipv6 first last) [
      | err e ↦ err (nat_error e)
      | ok nat ↦ ok (record {
        owner_worker_id = owner_worker_id;
        next_session_id = 1;
        by_key = [];
        sessions = [];
        deadlines = [];
        nat = nat;
      })
    ]

-- `self.ensure_owner(caller_worker_id)?` in front of the rest of a method.
unfoldable pub ensure_owner : {A : Type 0} → SessionTable → ℕ → Returns A → Returns A
ensure_owner t caller rest =
    if nat_beq caller t.owner_worker_id
    then rest
    else (t, err (wrong_owner t.owner_worker_id caller))

-- `touch_tcp` on a session that is found.
unfoldable pub touched :
    SessionTable → SessionId → Session → Option ℕ → Bool → Instant → SessionTable
touched t session_id s flags is_reverse now =
    let (state, timeout) = touch_state s.original.protocol s.tcp_state flags is_reverse in
    record t {
      sessions =
          HashMap.insert session_id (record s { tcp_state = state; expires_at = now + timeout })
            t.sessions;
      deadlines =
          add_deadline (remove_deadline t.deadlines s.expires_at session_id) (now + timeout)
            session_id;
    }

unfoldable pub touch_tcp :
    SessionTable → ℕ → SessionId → Option ℕ → Bool → Instant → Returns (Unit {0})
unfolding ensure_owner
touch_tcp t caller session_id flags is_reverse now =
    ensure_owner t caller (elim (HashMap.get session_id t.sessions) [
      | none ↦ (t, err (unknown_session session_id))
      | some s ↦ (touched t session_id s flags is_reverse now, ok tt)
    ])

-- A new session, and where `get_or_create_with_flags_at` records it.
unfoldable pub new_session :
    SessionTable → FlowKey → NatBinding → IoOwnerKey → QuicFlowId → Option ℕ → Instant → Session
new_session t original binding intercept_io quic_flow_id flags now =
    let (state, timeout) = first_state original.protocol flags in
    record {
      id = t.next_session_id;
      original = original;
      nat = binding;
      flow_worker_id = t.owner_worker_id;
      intercept_io = intercept_io;
      quic_flow_id = quic_flow_id;
      expires_at = now + timeout;
      tcp_state = state;
    }

unfoldable pub record_session : SessionTable → NatTable → Session → SessionTable
record_session t nat s = record t {
  next_session_id = (t.next_session_id + 1) % 2 ^ 64;
  by_key = HashMap.insert (key_of s) s.id t.by_key;
  sessions = HashMap.insert s.id s t.sessions;
  deadlines = add_deadline t.deadlines s.expires_at s.id;
  nat = nat;
}

-- The second half of `get_or_create_with_flags_at`: no session has the key.
unfoldable pub create :
    SessionTable
    → FlowKey
    → IoOwnerKey
    → QuicFlowId
    → Option ℕ
    → Instant
    → Instant
    → Returns SessionId
create t original intercept_io quic_flow_id flags now clock =
    let session_id = t.next_session_id in
    let locator : SessionLocator = record {
      flow_worker_id = t.owner_worker_id;
      session_id = session_id;
    } in
    let allocated = Nat.Table.allocate_at t.nat session_id original locator clock in
    elim allocated.1 [
      | err e ↦ (record t { nat = allocated.0 }, err (nat_error e))
      | ok binding ↦ (
        record_session t allocated.0
            (new_session t original binding intercept_io quic_flow_id flags now),
        ok session_id,
      )
    ]

-- The first half of `get_or_create_with_flags_at`: a session has the key, and is touched.
unfoldable pub reuse : SessionTable → ℕ → SessionId → Option ℕ → Bool → Instant → Returns SessionId
reuse t caller session_id flags is_reverse now =
    let touch = touch_tcp t caller session_id flags is_reverse now in
    elim touch.1 [ ok _ ↦ (touch.0, ok session_id) | err e ↦ (touch.0, err e) ]

unfoldable pub get_or_create_with_flags_at :
    SessionTable
    → ℕ
    → FlowKey
    → IoOwnerKey
    → QuicFlowId
    → Option ℕ
    → Bool
    → Instant
    → Instant
    → Returns SessionId
unfolding ensure_owner
get_or_create_with_flags_at t caller original intercept_io quic_flow_id flags is_reverse now clock =
    let key : SessionKey = record {
      original = original;
      intercept_ifindex = intercept_io.ifindex;
    } in
    ensure_owner t caller (elim (HashMap.get key t.by_key) [
      | some session_id ↦ reuse t caller session_id flags is_reverse now
      | none ↦ create t original intercept_io quic_flow_id flags now clock
    ])

-- `correct_intercept_io` on a session that is found.
unfoldable pub correct_session :
    SessionTable → SessionId → Session → IoOwnerKey → Returns InterceptIoUpdate
correct_session t session_id s observed =
    if s.intercept_io == observed
    then (t, ok unchanged)
    else if nat_beq s.intercept_io.ifindex observed.ifindex && nat_beq s.intercept_io.queue_id 0
    then (
      record t {
        sessions = HashMap.insert session_id (record s { intercept_io = observed }) t.sessions;
      },
      ok corrected,
    )
    else (t, ok mismatch)

unfoldable pub correct_intercept_io :
    SessionTable → ℕ → SessionId → IoOwnerKey → Returns InterceptIoUpdate
unfolding ensure_owner
correct_intercept_io t caller session_id observed =
    ensure_owner t caller (elim (HashMap.get session_id t.sessions) [
      | none ↦ (t, err (unknown_session session_id))
      | some s ↦ correct_session t session_id s observed
    ])

unfoldable pub lookup_reverse_locator : SessionTable → FlowKey → Option SessionLocator
lookup_reverse_locator t return_flow = elim (Nat.Table.lookup_reverse t.nat return_flow) [
  | none ↦ none
  | some locator ↦
      if nat_beq locator.flow_worker_id t.owner_worker_id
        && HashMap.contains_key locator.session_id t.sessions
      then some locator
      else none
]

unfoldable pub lookup_reverse : SessionTable → FlowKey → Option SessionId
unfolding lookup_reverse_locator
lookup_reverse t return_flow = elim (lookup_reverse_locator t return_flow) [
  | none ↦ none
  | some locator ↦ some locator.session_id
]

-- What `remove` writes once the session is found and its NAT binding is released.
unfoldable pub forget : SessionTable → SessionId → Session → NatTable → SessionTable
forget t session_id s nat = record t {
  by_key = HashMap.remove (key_of s) t.by_key;
  sessions = HashMap.remove session_id t.sessions;
  deadlines = remove_deadline t.deadlines s.expires_at session_id;
  nat = nat;
}

unfoldable pub remove : SessionTable → ℕ → SessionId → Instant → Returns Session
unfolding ensure_owner
remove t caller session_id clock = ensure_owner t caller (elim (HashMap.get session_id t.sessions) [
  | none ↦ (t, err (unknown_session session_id))
  | some s ↦
      let removed = Nat.Table.remove_at t.nat session_id clock in
      elim removed.1 [
        | err e ↦ (record t { nat = removed.0 }, err (nat_error e))
        | ok _ ↦ (forget t session_id s removed.0, ok s)
      ]
])
