-- ===== src/Worker/Laws/Packets.antt =====
-- src/flow_plane/worker.rs: the packet handlers that make sessions, and the invariant of the
-- state.
use new_proxy.Prelude.{
  ℕ, Bool, false, ◌≡◌, refl, nat_eq, nat_beq, Option, some, List, Result, ok, Bool-cases,
  Result-cases, inl, inr,
}
use new_proxy.HashMap
use new_proxy.Net.{SessionId, QuicFlowId, Instant, FlowKey, IoOwnerKey}
use new_proxy.Nat.Directory.{locator_eq}
use new_proxy.Quic.Hash.{QuicFlow}
use new_proxy.Session
use new_proxy.Session.Table.{
  Session, SessionTable, SessionError, get_or_create_with_flags_at, key_eq,
}
use new_proxy.Session.Again.{get_or_create-IsValid, get_or_create-by_key}
use new_proxy.Session.Spares.{Spares, get_or_create-Spares}
use new_proxy.Worker.State.{FlowWorkerState, Action, of_sessions, expect}
use new_proxy.Worker.Intercept.{
  session_of, is_exhausted, count_exhausted, check_flow_owner, translate_packet, handle_intercept,
  handle_server_inner,
}
use new_proxy.Worker.Laws.Invariant.{
  IsValid, Spares-Holds, is_panic, Triple, chain, pure-Triple, Valid, of_packet-Triple,
  written-Triple, gets-Triple,
}

-- A method of the session table that keeps it well formed and spares the bindings of the
-- transactions; what it tells of the table it leaves.
pub of_sessions-Triple :
    {A : Type 0} (Q : A → SessionTable → Type 0)
    (m : SessionTable → SessionTable × Result SessionError A)
    → ((t : SessionTable) → Session.Invariant.IsValid t → Session.Invariant.IsValid (m t).0)
    → ((t : SessionTable) → Session.Invariant.IsValid t → Spares t (m t).0)
    → ((t : SessionTable) → Session.Invariant.IsValid t → (a : A) → (m t).1 ≡ ok a → Q a (m t).0)
    → Triple IsValid (of_sessions m) (λ a w. IsValid w × Q a w.sessions)
unfolding of_sessions is_panic
of_sessions-Triple Q m valid spares tells = record {
  run = λ w v.
      let t = w.sessions in
      let v' = Spares-Holds v (valid t v.sessions_valid) (spares t v.sessions_valid) in
      elim (Result-cases (m t).1) [
        | inr (e, failed) ↦ rw (failed, of_sessions) (v', refl)
        | inl (a, done) ↦ rw (done, of_sessions) (v', tells t v.sessions_valid a done)
      ];
}

abbrev pub IsHeld : SessionId → SessionTable → Type 0
IsHeld i t = (s : Session) × (HashMap.get i t.sessions ≡ some s)

get_or_create-IsHeld :
    {t : SessionTable} (v : Session.Invariant.IsValid t) (caller : ℕ) (original : FlowKey)
    (io : IoOwnerKey) (quic : QuicFlowId) (flags : Option ℕ) (is_reverse : Bool)
    (now clock : Instant) (i : SessionId)
    → (get_or_create_with_flags_at t caller original io quic flags is_reverse now clock).1 ≡ ok i
    → IsHeld i (get_or_create_with_flags_at t caller original io quic flags is_reverse now clock).0
get_or_create-IsHeld v caller original io quic flags is_reverse now clock i done =
    let v' = get_or_create-IsValid v caller original io quic flags is_reverse now clock in
    let (owner, found) =
      get_or_create-by_key v caller original io quic flags is_reverse now clock i done in
    let (s, held, key) = v'.keyed _ i found in (s, held)

pub session_of-Triple :
    (i : SessionId) → Triple (λ w. IsValid w × IsHeld i w.sessions) (session_of i) Valid
unfolding session_of expect
session_of-Triple i = record { run = λ w p. rw (p.1.1, session_of) p.0 }

count_exhausted-Triple :
    {A : Type 0} {Q : A → FlowWorkerState → Type 0} {m : Action A}
    → Triple IsValid m Q
    → Triple IsValid (count_exhausted m) Q
unfolding count_exhausted
count_exhausted-Triple {A} {Q} {m} h = record {
  run = λ w v. elim (Result-cases (m w).1) [
    | inl (a, done) ↦ rw (done, count_exhausted) (rw done at (h.run w v))
    | inr (e, failed) ↦ elim (Bool-cases (is_exhausted e)) [
      | inl exhausted ↦ rw (failed, count_exhausted, exhausted) (rw failed at (h.run w v))
      | inr other ↦ rw (failed, count_exhausted, other) (rw failed at (h.run w v))
    ]
  ];
}

check_flow_owner-Triple : (q : QuicFlow) → Triple IsValid (check_flow_owner q) Valid
unfolding check_flow_owner is_panic
check_flow_owner-Triple q = record {
  run = λ w v. elim (Bool-cases (nat_beq q.flow_worker_id w.worker_id)) [
    | inl same ↦ rw (same, check_flow_owner) v
    | inr other ↦ rw (other, check_flow_owner) (v, refl)
  ];
}

translate_packet-Triple :
    (io : IoOwnerKey) (packet : List ℕ) (q : QuicFlow) (now clock : Instant)
    → Triple IsValid (translate_packet io packet q now clock) Valid
unfolding translate_packet
translate_packet-Triple io packet q now clock = chain (check_flow_owner-Triple q) (λ _.
    chain (written-Triple _) (λ prepared. chain (of_packet-Triple _) (λ flow.
      chain (written-Triple _) (λ clamped. chain (of_packet-Triple _) (λ flags.
        chain (gets-Triple _) (λ worker. chain (leased flow flags worker) (λ i.
          chain (session_of-Triple i)
            (λ s. chain (written-Triple _) (λ rewritten. pure-Triple _ (λ w v. v))))))))))
  where
    leased :
        (flow : FlowKey) (flags : Option ℕ) (worker : ℕ)
        → Triple
            (λ w. IsValid w × (worker ≡ w.worker_id))
            (count_exhausted (
              of_sessions
                (λ t. get_or_create_with_flags_at t worker flow io q.id flags false now clock)))
            (λ i w. IsValid w × IsHeld i w.sessions)
    leased flow flags worker = record {
      run = λ w p.
          (count_exhausted-Triple (
              of_sessions-Triple IsHeld
                (λ t. get_or_create_with_flags_at t worker flow io q.id flags false now clock)
                (λ t v. get_or_create-IsValid v worker flow io q.id flags false now clock)
                (λ t v. get_or_create-Spares v worker flow io q.id flags false now clock)
                (λ t v i done.
                  get_or_create-IsHeld v worker flow io q.id flags false now clock i done))).run
            w p.0;
    }

pub handle_intercept-Triple :
    (io : IoOwnerKey) (packet : List ℕ) (q : QuicFlow) (target : IoOwnerKey) (now clock : Instant)
    → Triple IsValid (handle_intercept io packet q target now clock) Valid
unfolding handle_intercept
handle_intercept-Triple io packet q target now clock =
    chain (translate_packet-Triple io packet q now clock) (λ r. pure-Triple _ (λ w v. v))

pub handle_server_inner-Triple :
    (io : IoOwnerKey) (packet : List ℕ) (q : QuicFlow) (now clock : Instant)
    → Triple IsValid (handle_server_inner io packet q now clock) Valid
unfolding handle_server_inner
handle_server_inner-Triple io packet q now clock =
    chain (translate_packet-Triple io packet q now clock) (λ r. pure-Triple _ (λ w v. v))
