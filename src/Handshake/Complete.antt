-- ===== src/Handshake/Complete.antt =====
-- The completion logic of ProxyHandshakeAuth: what ends a handshake, and by which callback.
use socks5balancer_asio.Prelude.{Bool, true, false, ◌&&◌, ◌||◌, Option, none, some, if◌then◌else◌}
use socks5balancer_asio.Handshake.State.{
  State, ConnectType, socks5, socks4, http_connect, http_other, unknown, UpsideConnectType,
  upside_socks5, upside_socks4, upside_http, upside_none, when_complete_called, when_error_called,
  call,
}

abbrev release : State → State
release s = record s { tcp_relay_session = false; when_complete = false; when_error = false }

unfoldable pub do_when_complete : State → State
do_when_complete s = release (if s.when_complete then call when_complete_called s else s)

unfoldable pub do_when_error : State → State
do_when_error s = release (if s.when_error then call when_error_called s else s)

unfoldable pub fail : State → State
unfolding do_when_error
fail s = do_when_error s

unfoldable pub check_when_complete : State → State
check_when_complete s =
    if s.complete_down_error || s.complete_up_error
    then fail s
    else if s.complete_down && s.complete_up
    then (if s.tcp_relay_session then do_when_complete s else s)
    else s

unfoldable pub do_when_complete_up : State → State
do_when_complete_up s =
    if s.complete_up then fail s else check_when_complete (record s { complete_up = true })

unfoldable pub do_when_complete_down : State → State
do_when_complete_down s =
    if s.complete_down then fail s else check_when_complete (record s { complete_down = true })

unfoldable pub do_when_up_end : State → State
do_when_up_end s = do_when_complete_up s

unfoldable pub do_when_down_end : Bool → State → State
do_when_down_end error s =
    do_when_complete_down (if error then record s { complete_down_error = true } else s)

-- `udpEnabled` of a client or server object.
abbrev pub udp_enabled : Option Bool → Bool
udp_enabled none = false
udp_enabled (some b) = b

abbrev pub is_socks5 : UpsideConnectType → Bool
is_socks5 upside_socks5 = true
is_socks5 upside_socks4 = false
is_socks5 upside_http = false
is_socks5 upside_none = false

unfoldable pub upside_support_udp_mode : State → Bool
upside_support_udp_mode s = is_socks5 s.upside_connect_type

unfoldable pub upside_in_udp_mode : State → Bool
upside_in_udp_mode s = is_socks5 s.upside_connect_type && udp_enabled s.socks5_client

abbrev downside_udp : ConnectType → State → Bool
downside_udp socks5 s = udp_enabled s.socks5_server
downside_udp socks4 s = udp_enabled s.socks4_server
downside_udp http_connect s = false
downside_udp http_other s = false
downside_udp unknown s = false

unfoldable pub downside_in_udp_mode : State → Bool
downside_in_udp_mode s = downside_udp s.connect_type s
