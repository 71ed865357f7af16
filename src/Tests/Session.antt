-- ===== src/Tests/Session.antt =====
-- src/flow_plane/session.rs: its unit tests' sessions, and the theorems about the table at them.
use new_proxy.Prelude.{
  Bool, ◌+◌, ◌≡◌, refl, none, some, List, [], ◌∷◌, ok, length, true, false, if◌then◌else◌, nat_eq,
}
use new_proxy.HashMap
use new_proxy.Net.{IoOwnerKey, SessionId, from_secs}
use new_proxy.Nat
use new_proxy.Nat.Directory.{from_return_flow}
use new_proxy.Tests.Nat.{program as nat_program, flow, reply, reply-IsReply, binding}
use new_proxy.Session.Tcp.{established, closing, has_flag, touch_state, first_state}
use new_proxy.Session.Deadlines.{add_deadline, remove_deadline, pop_due}
use new_proxy.Session.Table.{
  Session, SessionTable, key_beq, new_dual, get_or_create_with_flags_at, touch_tcp, remove,
  lookup_reverse, create, reuse, new_session, record_session, forget, touched,
}
use new_proxy.Session.Bulk.{
  expire_idle, remove_all, is_due, due_ids, rebind_quic_flow, rebind_sessions, ids_of_flow,
  remove_by_quic_flow,
}
use new_proxy.Session.Invariant.{IsValid}
use new_proxy.Session.Reach.{here, get_or_create, new_dual-Reach}
use new_proxy.Session.Again.{get_or_create_again}
use new_proxy.Session.Remove.{Removed, remove-Removed}
use new_proxy.Session.Expire.{IsScan, expire_idle-IsScan}
use new_proxy.Session.Routing.{lookup_reverse-IsReply, lookup_reverse-session}
use new_proxy.Session.TcpLaws.{
  Packet, run, is_rst, forward_fin, reverse_fin, some_packet, state_of, run-state_of,
}
use new_proxy.Session.Flows.{
  rebound, on_flow, rebind_quic_flow-sessions, remove_by_quic_flow-sessions,
}

unfoldable pub program : Unit {0}
unfolding nat_program new_dual Nat.Table.new_dual get_or_create_with_flags_at touch_tcp remove
    lookup_reverse create reuse new_session record_session forget touched expire_idle remove_all
    is_due due_ids rebind_quic_flow rebind_sessions ids_of_flow remove_by_quic_flow add_deadline
    remove_deadline pop_due key_beq has_flag touch_state first_state run some_packet
program = tt

abbrev empty : SessionTable
empty = record {
  owner_worker_id = 2;
  next_session_id = 1;
  by_key = [];
  sessions = [];
  deadlines = [];
  nat = Nat.Start.start (some (192 ∷ 0 ∷ 2 ∷ 1 ∷ [])) none 40000 40001;
}

made : new_dual 2 (some (192 ∷ 0 ∷ 2 ∷ 1 ∷ [])) none 40000 40001 ≡ ok empty
unfolding program
made = refl

abbrev intercept : IoOwnerKey
intercept = record { ifindex = 3; queue_id = 0 }

abbrev one : SessionTable
one = (get_or_create_with_flags_at empty 2 (flow 10001) intercept 9 none false 7 7).0

first_session :
    (get_or_create_with_flags_at empty 2 (flow 10001) intercept 9 none false 7 7).1 ≡ ok 1
unfolding program
first_session = refl

new_dual-Reach_example : IsValid one
new_dual-Reach_example =
    new_dual-Reach 2 (some (192 ∷ 0 ∷ 2 ∷ 1 ∷ [])) none 40000 40001 made
      (get_or_create 2 (flow 10001) intercept 9 none false 7 7 here)

one-IsValid : IsValid one
one-IsValid =
    new_dual-Reach 2 (some (192 ∷ 0 ∷ 2 ∷ 1 ∷ [])) none 40000 40001 made
      (get_or_create 2 (flow 10001) intercept 9 none false 7 7 here)

empty-IsValid : IsValid empty
empty-IsValid = new_dual-Reach 2 (some (192 ∷ 0 ∷ 2 ∷ 1 ∷ [])) none 40000 40001 made here

abbrev session : Session
session = record {
  id = 1;
  original = flow 10001;
  nat = binding 10001 40000;
  flow_worker_id = 2;
  intercept_io = intercept;
  quic_flow_id = 9;
  expires_at = 7 + from_secs 300;
  tcp_state = some established;
}

owned : 2 ≡ one.owner_worker_id
unfolding program
owned = refl

session_held : HashMap.get 1 one.sessions ≡ some session
unfolding program
session_held = refl

-- A FIN each way, and the session is closing.
abbrev fin : Bool → Packet
fin is_reverse = record { flags = some 0x11; is_reverse = is_reverse }

fin_both_ways : run (some established) (fin false ∷ fin true ∷ []) ≡ some closing
unfolding program
fin_both_ways = refl

get_or_create_again_example :
    (get_or_create_with_flags_at one 2
      (flow 10001)
      (record { ifindex = 3; queue_id = 5 })
      8
      (some 0x11)
      true
      20
      20).1
    ≡ ok 1
get_or_create_again_example =
    get_or_create_again empty-IsValid 2 (flow 10001) intercept
      (record { ifindex = 3; queue_id = 5 }) 9 8 none (some 0x11) false true 7 20 7 20 1 refl
      first_session

remove-Removed_example :
    ((remove one 2 1 30).1 ≡ ok session)
    × Removed one-IsValid 1 session session_held (remove one 2 1 30).0
remove-Removed_example = remove-Removed one-IsValid 1 session session_held 2 30 owned

expire_idle-IsScan_example :
    (ids : List SessionId) × (ss : List Session) × IsScan one-IsValid
      (7 + from_secs 300)
      ids
      ss
      (expire_idle one 2 (7 + from_secs 300) (λ _. 7 + from_secs 300))
expire_idle-IsScan_example =
    expire_idle-IsScan one-IsValid (7 + from_secs 300) 2 (λ _. 7 + from_secs 300) owned

expired : (expire_idle one 2 (7 + from_secs 300) (λ _. 7 + from_secs 300)).1 ≡ ok (session ∷ [])
unfolding program
expired = refl

lookup_reverse-IsReply_example : lookup_reverse one reply ≡ some 1
lookup_reverse-IsReply_example =
    lookup_reverse-IsReply one-IsValid 1 session reply session_held reply-IsReply

reply_found : lookup_reverse one reply ≡ some 1
unfolding program
reply_found = refl

lookup_reverse-session_example :
    (s : Session) × (HashMap.get 1 one.sessions ≡ some s)
    × (Nat.Invariant.key_of s.nat ≡ from_return_flow reply)
lookup_reverse-session_example = lookup_reverse-session one-IsValid 1 reply reply_found

run-state_of_example :
    run (some established) (fin false ∷ fin true ∷ [])
    ≡ some (
        state_of
          (some_packet is_rst (fin false ∷ fin true ∷ []))
          (some_packet forward_fin (fin false ∷ fin true ∷ []))
          (some_packet reverse_fin (fin false ∷ fin true ∷ [])))
run-state_of_example = run-state_of (fin false ∷ fin true ∷ [])

rebind_quic_flow-sessions_example :
    ((rebind_quic_flow one 2 9 11).1 ≡ ok (length (ids_of_flow 9 one.sessions)))
    × ((i : SessionId)
        → HashMap.get i (rebind_quic_flow one 2 9 11).0.sessions
          ≡ rebound 9 11 (HashMap.get i one.sessions))
    × IsValid (rebind_quic_flow one 2 9 11).0
rebind_quic_flow-sessions_example = rebind_quic_flow-sessions one-IsValid 2 owned 9 11

remove_by_quic_flow-sessions_example :
    ((remove_by_quic_flow one 2 9 (λ _. 50)).1 ≡ ok (length (ids_of_flow 9 one.sessions)))
    × ((i : SessionId)
        → HashMap.get i (remove_by_quic_flow one 2 9 (λ _. 50)).0.sessions
          ≡ (if on_flow 9 (HashMap.get i one.sessions) then none else HashMap.get i one.sessions))
    × IsValid (remove_by_quic_flow one 2 9 (λ _. 50)).0
remove_by_quic_flow-sessions_example = remove_by_quic_flow-sessions one-IsValid 2 owned 9 (λ _. 50)
