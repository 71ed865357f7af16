-- ===== src/Session/TcpLaws.antt =====
-- src/flow_plane/session.rs: the TCP state machine over any sequence of packets.
use new_proxy.Prelude.{
  ℕ, Bool, true, false, ◌≡◌, arith, Option, none, some, if◌then◌else◌, List, [], ◌∷◌, ◌||◌,
}
use new_proxy.Net.{tcp}
use new_proxy.Session.Tcp.{
  TcpSessionState, established, fin_seen_forward, fin_seen_reverse, closing, reset, has_flag,
  rst_flag, fin_flag, touch_state,
}

-- A packet of a session, as `touch_tcp` sees it: its flags, if they are known, and its direction.
pub record Packet : Type 0 where
  pub flags : Option ℕ
  pub is_reverse : Bool

-- The state after a sequence of packets.
unfoldable pub run : Option TcpSessionState → List Packet → Option TcpSessionState
run state [] = state
run state (p ∷ ps) = run (touch_state tcp state p.flags p.is_reverse).0 ps

abbrev flag_of : ℕ → Option ℕ → Bool
flag_of mask none = false
flag_of mask (some flags) = has_flag flags mask

-- The packet carries an RST, or a FIN and no RST.
abbrev pub is_rst : Packet → Bool
is_rst p = flag_of rst_flag p.flags

abbrev pub is_fin : Packet → Bool
is_fin p = if is_rst p then false else flag_of fin_flag p.flags

-- Some packet of the sequence passes a test.
unfoldable pub some_packet : (Packet → Bool) → List Packet → Bool
some_packet q [] = false
some_packet q (p ∷ ps) = q p || some_packet q ps

abbrev pub forward_fin : Packet → Bool
forward_fin p = if p.is_reverse then false else is_fin p

abbrev pub reverse_fin : Packet → Bool
reverse_fin p = if p.is_reverse then is_fin p else false

-- What a state means: an RST was seen, or FINs of the one, the other or both directions.
abbrev pub state_of : Bool → Bool → Bool → TcpSessionState
state_of true f r = reset
state_of false true true = closing
state_of false true false = fin_seen_forward
state_of false false true = fin_seen_reverse
state_of false false false = established

step :
    (rst f r : Bool) (p : Packet)
    → (touch_state tcp (some (state_of rst f r)) p.flags p.is_reverse).0
      ≡ some (state_of (rst || is_rst p) (f || forward_fin p) (r || reverse_fin p))
unfolding touch_state
step true true true p = ground arith
step true true false p = ground arith
step true false true p = ground arith
step true false false p = ground arith
step false true true p = ground arith
step false true false p = ground arith
step false false true p = ground arith
step false false false p = ground arith

run_from :
    (rst f r : Bool) (ps : List Packet)
    → run (some (state_of rst f r)) ps
      ≡ some (
          state_of
            (rst || some_packet is_rst ps)
            (f || some_packet forward_fin ps)
            (r || some_packet reverse_fin ps))
unfolding run some_packet
run_from rst f r [] = rw (or_false rst, or_false f, or_false r)
  where
    or_false : (b : Bool) → (b || false) ≡ b
    or_false b = ground arith
run_from rst f r (p ∷ ps) =
    rw (step rst f r p, run_from (rst || is_rst p) (f || forward_fin p) (r || reverse_fin p) ps)
      (rw (
        or_assoc rst (is_rst p) (some_packet is_rst ps),
        or_assoc f (forward_fin p) (some_packet forward_fin ps),
        or_assoc r (reverse_fin p) (some_packet reverse_fin ps),
      ))
  where
    or_assoc : (a b c : Bool) → ((a || b) || c) ≡ (a || (b || c))
    or_assoc a b c = ground arith

-- After any packets on an established TCP session its state tells exactly whether an RST was seen,
-- and else in which directions a FIN.
pub run-state_of :
    (ps : List Packet)
    → run (some established) ps
      ≡ some (
          state_of
            (some_packet is_rst ps)
            (some_packet forward_fin ps)
            (some_packet reverse_fin ps))
run-state_of ps = run_from false false false ps
