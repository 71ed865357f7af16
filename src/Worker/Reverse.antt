-- ===== src/Worker/Reverse.antt =====
-- src/flow_plane/worker.rs: packets that come back, and the session methods of the worker.
use new_proxy.Prelude.{
  nat_eq, ℕ, ◌+◌, Bool, true, false, not, ◌||◌, Option, none, some, List, [], ◌∷◌, nat_beq,
  if◌then◌else◌, ok, err, ◌==◌,
}
use new_proxy.HashMap
use new_proxy.Net
use new_proxy.Net.{
  SessionId, QuicFlowId, Instant, FlowKey, IoOwnerKey, tcp, udp, icmp, icmpv6, TransportProtocol,
}
use new_proxy.Packet.Flow.{parse_flow_key}
use new_proxy.Packet.Tcp.{parse_tcp_flags, clamp_tcp_mss, tcp_max_safe_mss}
use new_proxy.Packet.Rewrite.{rewrite_packet}
use new_proxy.Packet.Forward.{prepare_forwarded_packet}
use new_proxy.Nat.Directory.{SessionLocator, locator_eq}
use new_proxy.Session
use new_proxy.Session.Table.{
  Session, SessionError, InterceptIoUpdate, unchanged, corrected, mismatch, touch_tcp,
  correct_intercept_io, lookup_reverse_locator,
}
use new_proxy.Session.Bulk
use new_proxy.Worker.State.{
  FlowWorkerState, Action, pure, of_packet, of_sessions, gets, written, ◌>>=◌, ◌>>◌,
}
use new_proxy.Worker.Intercept.{session_of}

pub record HandledReverse : Type 0 where
  pub session_id : SessionId
  pub quic_flow_id : QuicFlowId
  pub local_target : IoOwnerKey
  pub packet : List ℕ

-- The flow that a returning packet of a session gets.
unfoldable pub restored_flow : Session → FlowKey → FlowKey
restored_flow s return_flow = elim s.original.protocol [
  | tcp ↦ Net.reverse s.original
  | udp ↦ Net.reverse s.original
  | icmp ↦ echo
  | icmpv6 ↦ echo
]
  where
    echo : FlowKey
    echo = record {
      source = s.original.destination;
      destination = s.original.source;
      source_port = s.original.source_port;
      destination_port = return_flow.destination_port;
      protocol = s.original.protocol;
    }

unfoldable pub correct_server_return_io :
    FlowWorkerState → SessionId → IoOwnerKey → FlowWorkerState × Bool
correct_server_return_io w session_id observed =
    let (t, outcome) = correct_intercept_io w.sessions w.worker_id session_id observed in
    let w' = record w { sessions = t } in
    let dropped = record w' {
      stats = record w'.stats { queue_mismatch_drops = w'.stats.queue_mismatch_drops + 1 };
    } in
    elim outcome [
      | ok unchanged ↦ (w', true)
      | ok corrected ↦ (w', true)
      | ok mismatch ↦ (dropped, false)
      | err _ ↦ (dropped, false)
    ]

-- `observed.is_some_and(|owner| !self.correct_server_return_io(session_id, owner))`, negated.
unfoldable pub accepts_io : Option IoOwnerKey → SessionId → Action Bool
unfolding correct_server_return_io
accepts_io none session_id w = (w, ok true)
accepts_io (some observed) session_id w =
    let (w', accepted) = correct_server_return_io w session_id observed in (w', ok accepted)

-- The second half of `handle_reverse_for_inner`: the packet belongs to a session of the worker.
unfoldable pub restore_packet :
    List ℕ → FlowKey → SessionLocator → Option IoOwnerKey → Instant → Action (Option HandledReverse)
unfolding session_of accepts_io
restore_packet packet return_flow locator observed now = do
  clamped ← written (clamp_tcp_mss packet tcp_max_safe_mss)
  tcp_flags ← of_packet (parse_tcp_flags clamped)
  accepted ← accepts_io observed locator.session_id
  worker_id ← gets (λ w. w.worker_id)
  let touched : Action (Option HandledReverse) = do
    of_sessions (λ t. touch_tcp t worker_id locator.session_id tcp_flags true now)
    session ← session_of locator.session_id
    restored ← written (rewrite_packet clamped (restored_flow session return_flow))
    pure (
        some (record {
          session_id = locator.session_id;
          quic_flow_id = session.quic_flow_id;
          local_target = session.intercept_io;
          packet = restored;
        }))
  if accepted then touched else pure none

unfoldable pub handle_reverse_for_inner :
    List ℕ → SessionLocator → Option IoOwnerKey → Instant → Action (Option HandledReverse)
unfolding restore_packet
handle_reverse_for_inner packet expected_locator observed now = do
  prepared ← written (prepare_forwarded_packet packet)
  return_flow ← of_packet (parse_flow_key prepared)
  found ← gets (λ w. lookup_reverse_locator w.sessions return_flow)
  worker_id ← gets (λ w. w.worker_id)
  elim found [
    | none ↦ pure none
    | some locator ↦
        if not (locator == expected_locator) || not (nat_beq locator.flow_worker_id worker_id)
        then pure none
        else restore_packet prepared return_flow locator observed now
  ]

unfoldable pub handle_reverse : List ℕ → Instant → Action (Option HandledReverse)
unfolding handle_reverse_for_inner
handle_reverse packet now = do
  flow ← of_packet (parse_flow_key packet)
  found ← gets (λ w. lookup_reverse_locator w.sessions flow)
  elim found [ none ↦ pure none | some locator ↦ handle_reverse_for_inner packet locator none now ]

abbrev pub handle_reverse_for : List ℕ → SessionLocator → Instant → Action (Option HandledReverse)
handle_reverse_for packet locator now = handle_reverse_for_inner packet locator none now

abbrev pub handle_server_reverse :
    IoOwnerKey → List ℕ → SessionLocator → Instant → Action (Option HandledReverse)
handle_server_reverse observed packet locator now =
    handle_reverse_for_inner packet locator (some observed) now

unfoldable pub rebind_quic_flow : QuicFlowId → QuicFlowId → Action ℕ
rebind_quic_flow old new w =
    of_sessions (λ t. Session.Bulk.rebind_quic_flow t w.worker_id old new) w

unfoldable pub sessions_of_flow : QuicFlowId → HashMap.HashMap SessionId Session → List Session
sessions_of_flow q [] = []
sessions_of_flow q ((i, s) ∷ sessions) =
    let rest = sessions_of_flow q sessions in if nat_beq s.quic_flow_id q then s ∷ rest else rest

-- The sessions of the flow are copied before they are removed.
unfoldable pub remove_by_quic_flow : QuicFlowId → (SessionId → Instant) → Action (List Session)
remove_by_quic_flow q clock = do
  sessions ← gets (λ w. sessions_of_flow q w.sessions.sessions)
  worker_id ← gets (λ w. w.worker_id)
  of_sessions (λ t. Session.Bulk.remove_by_quic_flow t worker_id q clock)
  pure sessions

unfoldable pub remove_session : SessionId → Instant → Action Session
remove_session i clock w = of_sessions (λ t. Session.Table.remove t w.worker_id i clock) w

unfoldable pub expire_idle_sessions : Instant → (SessionId → Instant) → Action (List Session)
expire_idle_sessions now clock w =
    of_sessions (λ t. Session.Bulk.expire_idle t w.worker_id now clock) w

unfoldable pub local_return_target : FlowWorkerState → SessionId → Option IoOwnerKey
local_return_target w i = elim (HashMap.get i w.sessions.sessions) [
  | none ↦ none
  | some s ↦ some s.intercept_io
]
