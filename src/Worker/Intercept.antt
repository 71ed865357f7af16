-- ===== src/Worker/Intercept.antt =====
-- src/flow_plane/worker.rs: packets that leave for the tunnel or for the server's network. `now` and
-- `clock` are the readings of the clock for the session and for its NAT lease.
use new_proxy.Prelude.{
  nat_eq, ℕ, ◌+◌, Bool, true, false, none, List, nat_beq, if◌then◌else◌, ok, err,
}
use new_proxy.HashMap
use new_proxy.Net.{SessionId, Instant, IoOwnerKey}
use new_proxy.Packet.Flow.{parse_flow_key}
use new_proxy.Packet.Tcp.{parse_tcp_flags, clamp_tcp_mss, tcp_max_safe_mss}
use new_proxy.Packet.Rewrite.{rewrite_packet}
use new_proxy.Packet.Forward.{prepare_forwarded_packet}
use new_proxy.Nat.Directory.{port_range_exhausted}
use new_proxy.Quic.Hash.{QuicFlow}
use new_proxy.Session.Table.{Session, nat_error, get_or_create_with_flags_at}
use new_proxy.Worker.State.{
  FlowWorkerError, session_error, wrong_quic_flow_owner, IoTransmit, Action, pure, of_packet,
  of_sessions, expect, gets, written, ◌>>=◌, ◌>>◌,
}

pub record HandledIntercept : Type 0 where
  pub session_id : SessionId
  pub transmit : IoTransmit

-- `self.sessions.get(session_id).expect(…)`
unfoldable pub session_of : SessionId → Action Session
session_of id w = expect (HashMap.get id w.sessions.sessions) w

-- `Err(SessionError::Nat(NatError::PortRangeExhausted))`
unfoldable pub is_exhausted : FlowWorkerError → Bool
is_exhausted (session_error (nat_error port_range_exhausted)) = true
is_exhausted _ = false

-- A lease that fails for want of a port is counted.
unfoldable pub count_exhausted : {A : Type 0} → Action A → Action A
unfolding is_exhausted
count_exhausted m w =
    let (w', outcome) = m w in
    elim outcome [
      | ok a ↦ (w', ok a)
      | err e ↦
          if is_exhausted e
          then (
            record w' {
              stats = record w'.stats {
                session_nat_exhausted = w'.stats.session_nat_exhausted + 1;
              };
            },
            err e,
          )
          else (w', err e)
    ]

-- `quic_flow.flow_worker_id() != self.worker_id`
unfoldable pub check_flow_owner : QuicFlow → Action (Unit {0})
check_flow_owner quic_flow w =
    if nat_beq quic_flow.flow_worker_id w.worker_id
    then (w, ok tt)
    else (w, err (wrong_quic_flow_owner w.worker_id quic_flow.flow_worker_id))

-- What `handle_intercept` and `handle_server_inner` share: the session of the packet, and the packet
-- with the session's translation written.
unfoldable pub translate_packet :
    IoOwnerKey → List ℕ → QuicFlow → Instant → Instant → Action (SessionId × Session × List ℕ)
unfolding session_of count_exhausted check_flow_owner
translate_packet io_owner packet quic_flow now clock = do
  check_flow_owner quic_flow
  prepared ← written (prepare_forwarded_packet packet)
  flow ← of_packet (parse_flow_key prepared)
  clamped ← written (clamp_tcp_mss prepared tcp_max_safe_mss)
  tcp_flags ← of_packet (parse_tcp_flags clamped)
  worker_id ← gets (λ w. w.worker_id)
  session_id ← count_exhausted (
      of_sessions (λ t.
        get_or_create_with_flags_at t worker_id flow io_owner quic_flow.id tcp_flags false now
          clock))
  session ← session_of session_id
  rewritten ← written (rewrite_packet clamped session.nat.translated)
  pure (session_id, session, rewritten)

unfoldable pub handle_intercept :
    IoOwnerKey → List ℕ → QuicFlow → IoOwnerKey → Instant → Instant → Action HandledIntercept
unfolding translate_packet
handle_intercept io_owner packet quic_flow tunnel_target now clock = do
  (session_id, session, rewritten) ← translate_packet io_owner packet quic_flow now clock
  pure (record {
    session_id = session_id;
    transmit = record { target = tunnel_target; packet = rewritten; outer = none };
  })

unfoldable pub handle_server_inner :
    IoOwnerKey → List ℕ → QuicFlow → Instant → Instant → Action HandledIntercept
unfolding translate_packet
handle_server_inner default_intercept packet quic_flow now clock = do
  (session_id, session, rewritten) ← translate_packet default_intercept packet quic_flow now clock
  pure (record {
    session_id = session_id;
    transmit = record { target = session.intercept_io; packet = rewritten; outer = none };
  })
