-- ===== src/Session/Tcp.antt =====
-- src/flow_plane/session.rs: the TCP state of a session and the idle timeouts.
use new_proxy.Prelude.{
  ℕ, Bool, true, false, not, Option, none, some, if◌then◌else◌, nat_beq, bit_and,
}
use new_proxy.Net.{TransportProtocol, tcp, udp, icmp, icmpv6, from_secs}

pub data TcpSessionState : Type 0 where
  established fin_seen_forward fin_seen_reverse closing reset : TcpSessionState

abbrev pub tcp_idle_timeout : ℕ
tcp_idle_timeout = from_secs 300

abbrev pub tcp_closing_timeout : ℕ
tcp_closing_timeout = from_secs 5

abbrev pub tcp_rst_timeout : ℕ
tcp_rst_timeout = from_secs 2

abbrev pub udp_idle_timeout : ℕ
udp_idle_timeout = from_secs 60

abbrev pub icmp_idle_timeout : ℕ
icmp_idle_timeout = from_secs 30

unfoldable pub protocol_idle_timeout : TransportProtocol → ℕ
protocol_idle_timeout tcp = tcp_idle_timeout
protocol_idle_timeout udp = udp_idle_timeout
protocol_idle_timeout icmp = icmp_idle_timeout
protocol_idle_timeout icmpv6 = icmp_idle_timeout

-- `flags & mask != 0`
unfoldable pub has_flag : ℕ → ℕ → Bool
has_flag flags mask = not (nat_beq (bit_and flags mask) 0)

abbrev pub rst_flag : ℕ
rst_flag = 0x04

abbrev pub fin_flag : ℕ
fin_flag = 0x01

-- The state after a FIN.
unfoldable pub next_on_fin : Option TcpSessionState → Bool → TcpSessionState
next_on_fin (some fin_seen_reverse) false = closing
next_on_fin (some fin_seen_forward) true = closing
next_on_fin (some closing) _ = closing
next_on_fin (some reset) _ = reset
next_on_fin _ is_reverse = if is_reverse then fin_seen_reverse else fin_seen_forward

-- The timeout where a FIN has led to a state.
unfoldable pub fin_timeout : TcpSessionState → ℕ
fin_timeout closing = tcp_closing_timeout
fin_timeout reset = tcp_closing_timeout
fin_timeout _ = tcp_idle_timeout

-- The timeout of a packet that changes no state.
unfoldable pub plain_timeout : Option TcpSessionState → ℕ
plain_timeout (some closing) = tcp_closing_timeout
plain_timeout (some reset) = tcp_rst_timeout
plain_timeout _ = tcp_idle_timeout

-- The middle of `touch_tcp`: the new TCP state and the timeout.
unfoldable pub touch_state :
    TransportProtocol → Option TcpSessionState → Option ℕ → Bool → Option TcpSessionState × ℕ
unfolding next_on_fin fin_timeout plain_timeout protocol_idle_timeout
touch_state tcp state none is_reverse = (state, plain_timeout state)
touch_state tcp state (some flags) is_reverse =
    if has_flag flags rst_flag
    then (some reset, tcp_rst_timeout)
    else if has_flag flags fin_flag
    then (some (next_on_fin state is_reverse), fin_timeout (next_on_fin state is_reverse))
    else (state, plain_timeout state)
touch_state udp state flags is_reverse = (state, protocol_idle_timeout udp)
touch_state icmp state flags is_reverse = (state, protocol_idle_timeout icmp)
touch_state icmpv6 state flags is_reverse = (state, protocol_idle_timeout icmpv6)

-- The state and the timeout of a new session.
unfoldable pub first_state : TransportProtocol → Option ℕ → Option TcpSessionState × ℕ
unfolding protocol_idle_timeout
first_state tcp none = (some established, tcp_idle_timeout)
first_state tcp (some flags) = (
  some established,
  (if has_flag flags rst_flag
      then tcp_rst_timeout
      else if has_flag flags fin_flag
      then tcp_closing_timeout
      else tcp_idle_timeout),
)
first_state udp flags = (none, protocol_idle_timeout udp)
first_state icmp flags = (none, protocol_idle_timeout icmp)
first_state icmpv6 flags = (none, protocol_idle_timeout icmpv6)
