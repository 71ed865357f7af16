-- ===== src/Worker/Laws/Replies.antt =====
-- src/flow_plane/worker.rs: packets that come back, the methods on sessions, and the invariant of
-- the state.
use new_proxy.Prelude.{
  ℕ, ◌+◌, Bool, true, ◌≡◌, arith, nat_eq, nat_beq, Option, none, some, List, Result, ok, err,
  Bool-cases, Option-cases, Result-cases, inl, inr, not, ◌||◌, ◌==◌,
}
use new_proxy.HashMap
use new_proxy.HashMap.Laws.{get-insert}
use new_proxy.Net.{SessionId, QuicFlowId, Instant, FlowKey, IoOwnerKey}
use new_proxy.Nat.Directory.{SessionLocator, locator_eq}
use new_proxy.Session
use new_proxy.Session.Table.{
  Session, SessionTable, SessionError, InterceptIoUpdate, unchanged, corrected, mismatch, touch_tcp,
  touched, get_or_create_with_flags_at, correct_intercept_io, lookup_reverse_locator, key_eq,
}
use new_proxy.Session.Bulk
use new_proxy.Session.Tcp.{touch_state}
use new_proxy.Session.Replace.{touch_tcp-IsValid, correct_intercept_io-IsValid}
use new_proxy.Session.Reach.{drop-IsValid, expire-IsValid, rebind-IsValid, drop_flow-IsValid}
use new_proxy.Session.Spares.{
  Spares, touch_tcp-Spares, correct_intercept_io-Spares, rebind_quic_flow-Spares, remove-Spares,
  expire_idle-Spares, remove_by_quic_flow-Spares,
}
use new_proxy.Worker.State.{FlowWorkerState, FlowWorkerError, of_sessions}
use new_proxy.Worker.Reverse.{
  correct_server_return_io, accepts_io, restore_packet, handle_reverse_for_inner, handle_reverse,
  rebind_quic_flow, remove_by_quic_flow, remove_session, expire_idle_sessions,
}
use new_proxy.Worker.Laws.Invariant.{
  IsValid, Ends, Spares-Holds, Triple, chain, weaken, pure-Triple, if-Triple, option-Triple, Valid,
  of_packet-Triple, written-Triple, gets-Triple,
}
use new_proxy.Worker.Laws.Packets.{of_sessions-Triple, IsHeld, session_of-Triple}

-- A touched session is there.
touch_tcp-IsHeld :
    (t : SessionTable) (caller : ℕ) (i : SessionId) (flags : Option ℕ) (is_reverse : Bool)
    (now : Instant) (u : Unit {0})
    → (touch_tcp t caller i flags is_reverse now).1 ≡ ok u
    → IsHeld i (touch_tcp t caller i flags is_reverse now).0
unfolding touch_tcp touched
touch_tcp-IsHeld t caller i flags is_reverse now u done =
    elim (Bool-cases (nat_beq caller t.owner_worker_id)) [
      | inr other ↦ absurd (ground arith)
      | inl owner ↦ elim (Option-cases (HashMap.get i t.sessions)) [
        | inl absent ↦ absurd (ground arith)
        | inr (s, held) ↦
            let next = touch_state s.original.protocol s.tcp_state flags is_reverse in
            let s' : Session = record s { tcp_state = next.0; expires_at = now + next.1 } in
            rw (owner, touch_tcp, held) (s', ground (arith, get-insert i i s' t.sessions))
      ]
    ]

pub accepts_io-Triple :
    (observed : Option IoOwnerKey) (i : SessionId) → Triple IsValid (accepts_io observed i) Valid
unfolding accepts_io correct_server_return_io
accepts_io-Triple none i = record { run = λ w v. v }
accepts_io-Triple (some io) i = record {
  run = λ w v.
      let m = correct_intercept_io w.sessions w.worker_id i io in
      let v' =
        Spares-Holds v (correct_intercept_io-IsValid v.sessions_valid i w.worker_id io)
          (correct_intercept_io-Spares w.sessions w.worker_id i io) in
      elim (Result-cases m.1) [
        | inr (e, failed) ↦ rw (failed, accepts_io, correct_server_return_io) v'
        | inl (unchanged, done) ↦ rw (done, accepts_io, correct_server_return_io) v'
        | inl (corrected, done) ↦ rw (done, accepts_io, correct_server_return_io) v'
        | inl (mismatch, done) ↦ rw (done, accepts_io, correct_server_return_io) v'
      ];
}

restore_packet-Triple :
    (packet : List ℕ) (f : FlowKey) (l : SessionLocator) (observed : Option IoOwnerKey)
    (now : Instant)
    → Triple IsValid (restore_packet packet f l observed now) Valid
unfolding restore_packet
restore_packet-Triple packet f l observed now = chain (written-Triple _) (λ clamped.
    chain (of_packet-Triple _) (λ flags.
      chain (accepts_io-Triple observed l.session_id) (λ accepted. chain (gets-Triple _) (λ worker.
        if-Triple accepted
          (λ _. chain (touched_session flags worker) (λ u.
            chain (session_of-Triple l.session_id)
              (λ s. chain (written-Triple _) (λ restored. pure-Triple _ (λ w v. v)))))
          (λ _. pure-Triple _ (λ w p. p.0))))))
  where
    touched_session :
        (flags : Option ℕ) (worker : ℕ)
        → Triple
            (λ w. IsValid w × (worker ≡ w.worker_id))
            (of_sessions (λ t. touch_tcp t worker l.session_id flags true now))
            (λ u w. IsValid w × IsHeld l.session_id w.sessions)
    touched_session flags worker = record {
      run = λ w p.
          (of_sessions-Triple (λ u. IsHeld l.session_id)
              (λ t. touch_tcp t worker l.session_id flags true now)
              (λ t v. touch_tcp-IsValid v l.session_id worker flags true now)
              (λ t v. touch_tcp-Spares t worker l.session_id flags true now)
              (λ t v u done. touch_tcp-IsHeld t worker l.session_id flags true now u done)).run
            w p.0;
    }

pub handle_reverse_for_inner-Triple :
    (packet : List ℕ) (l : SessionLocator) (observed : Option IoOwnerKey) (now : Instant)
    → Triple IsValid (handle_reverse_for_inner packet l observed now) Valid
unfolding handle_reverse_for_inner
handle_reverse_for_inner-Triple packet l observed now = chain (written-Triple _) (λ prepared.
    chain (of_packet-Triple _) (λ f. chain (gets-Triple _) (λ found.
      chain (gets-Triple _) (λ worker.
        option-Triple found (λ _. pure-Triple _ (λ w p. p.0.0))
          (λ locator _.
            if-Triple (not (locator == l) || not (nat_beq locator.flow_worker_id worker))
              (λ _. pure-Triple _ (λ w p. p.0.0))
              (λ _.
                weaken (λ w p. p.0.0) (restore_packet-Triple prepared f locator observed now)))))))

pub handle_reverse-Triple :
    (packet : List ℕ) (now : Instant) → Triple IsValid (handle_reverse packet now) Valid
unfolding handle_reverse
handle_reverse-Triple packet now = chain (of_packet-Triple _) (λ f. chain (gets-Triple _) (λ found.
    option-Triple found (λ _. pure-Triple _ (λ w p. p.0))
      (λ l _. weaken (λ w p. p.0) (handle_reverse_for_inner-Triple packet l none now))))

-- A method of the session table of which nothing more is told.
sessions_method :
    {A : Type 0} (m : SessionTable → SessionTable × Result SessionError A)
    → ((t : SessionTable) → Session.Invariant.IsValid t → Session.Invariant.IsValid (m t).0)
    → ((t : SessionTable) → Spares t (m t).0)
    → Triple IsValid (of_sessions m) Valid
sessions_method m valid spares = record {
  run = λ w v.
      forget_held (of_sessions m w)
        ((of_sessions-Triple (λ a t. Unit {0}) m valid (λ t v. spares t) (λ t v a e. tt)).run w v);
}
  where
    forget_held :
        {A : Type 0} (r : FlowWorkerState × Result FlowWorkerError A)
        → Ends (λ a w. IsValid w × Unit {0}) r
        → Ends Valid r
    forget_held (w, ok a) h = h.0
    forget_held (w, err e) h = h

pub rebind_quic_flow-Triple :
    (old new : QuicFlowId) → Triple IsValid (rebind_quic_flow old new) Valid
unfolding rebind_quic_flow
rebind_quic_flow-Triple old new = record {
  run = λ w v.
      (sessions_method (λ t. Session.Bulk.rebind_quic_flow t w.worker_id old new)
          (λ t v. rebind-IsValid v w.worker_id old new)
          (λ t. rebind_quic_flow-Spares t w.worker_id old new)).run
        w v;
}

pub remove_session-Triple :
    (i : SessionId) (clock : Instant) → Triple IsValid (remove_session i clock) Valid
unfolding remove_session
remove_session-Triple i clock = record {
  run = λ w v.
      (sessions_method (λ t. Session.Table.remove t w.worker_id i clock)
          (λ t v. drop-IsValid v w.worker_id i clock)
          (λ t. remove-Spares t w.worker_id i clock)).run
        w v;
}

pub expire_idle_sessions-Triple :
    (now : Instant) (clock : SessionId → Instant)
    → Triple IsValid (expire_idle_sessions now clock) Valid
unfolding expire_idle_sessions
expire_idle_sessions-Triple now clock = record {
  run = λ w v.
      (sessions_method (λ t. Session.Bulk.expire_idle t w.worker_id now clock)
          (λ t v. expire-IsValid v w.worker_id now clock)
          (λ t. expire_idle-Spares t w.worker_id now clock)).run
        w v;
}

pub remove_by_quic_flow-Triple :
    (q : QuicFlowId) (clock : SessionId → Instant)
    → Triple IsValid (remove_by_quic_flow q clock) Valid
unfolding remove_by_quic_flow
remove_by_quic_flow-Triple q clock = chain (gets-Triple _) (λ ss. chain (gets-Triple _) (λ worker.
    chain
      (weaken (λ w p. p.0.0)
        (sessions_method (λ t. Session.Bulk.remove_by_quic_flow t worker q clock)
          (λ t v. drop_flow-IsValid v worker q clock)
          (λ t. remove_by_quic_flow-Spares t worker q clock)))
      (λ _. pure-Triple ss (λ w v. v))))
