-- ===== src/Handshake/Ready.antt =====
-- `do_whenUpReady` and `do_whenUpReadyError` of ProxyHandshakeAuth, and what the upside's answer leads to.
use socks5balancer_asio.Prelude.{
  ◌+◌, ◌-◌, true, not, ◌&&◌, ◌||◌, [], ◌∷◌, Bytes, length, take, drop, ltb, ◌==◌, if◌then◌else◌,
}
use socks5balancer_asio.Handshake.State.{
  State, ConnectType, socks5, socks4, http_connect, http_other, unknown, socks4_client_end,
  http_established, http_failed, begin, at,
}
use socks5balancer_asio.Handshake.Complete.{fail, do_when_up_end}
use socks5balancer_asio.Handshake.Server5.{do_handshake_client_end, do_handshake_client_end_error}
use socks5balancer_asio.Handshake.Server4.{do_socks4_client_end_error}

send_last_ok : ConnectType → State → State
send_last_ok socks5 s = do_handshake_client_end s
send_last_ok socks4 s = begin socks4_client_end s
send_last_ok http_connect s = begin http_established s
send_last_ok http_other s = begin http_established s
send_last_ok unknown s = fail s

unfoldable pub do_when_up_ready : State → State
unfolding send_last_ok
do_when_up_ready s =
    if s.ready_up then fail s else send_last_ok s.connect_type (record s { ready_up = true })

send_last_error : ConnectType → State → State
send_last_error socks5 s = do_handshake_client_end_error 0x01 s
send_last_error socks4 s = do_socks4_client_end_error 91 s
send_last_error http_connect s = begin http_failed s
send_last_error http_other s = begin http_failed s
send_last_error unknown s = fail s

unfoldable pub do_when_up_ready_error : State → State
unfolding send_last_error
do_when_up_ready_error s =
    if s.ready_up
    then fail s
    else send_last_error s.connect_type (record s { ready_up = true; complete_up_error = true })

-- The address that the upstream server reports, by its type.
abbrev pub read_bind : Bytes → Bytes
read_bind b =
    if at b 3 == 0x03
    then take (at b 4) (drop (4 + 1) b)
    else if at b 3 == 0x01
    then take 4 (drop 4 b)
    else take 16 (drop 4 b)

-- The handler of `do_socks5_connect_read` of Socks5ClientImpl.cpp.
unfoldable pub on_socks5_connect_read : Bytes → State → State
on_socks5_connect_read b s =
    if ltb (length b) 7
    then fail s
    else if not (at b 1 == 0x00)
    then do_when_up_end (do_when_up_ready_error s)
    else if not (at b 0 == 5)
        || not (at b 1 == 0x00)
        || not (at b 2 == 0x00)
        || (not (at b 3 == 0x01) && not (at b 3 == 0x03) && not (at b 3 == 0x04))
    then do_when_up_end (do_when_up_ready_error s)
    else if at b 3 == 0x03 && not (length b == at b 4 + 4 + 1 + 2)
    then fail s
    else if at b 3 == 0x01 && not (length b == 4 + 4 + 2)
    then fail s
    else if at b 3 == 0x04 && not (length b == 4 + 16 + 2)
    then fail s
    else do_when_up_end (
        do_when_up_ready (record s {
          bind_port = at b (length b - 2) ∷ at b (length b - 1) ∷ [];
          bind_host = read_bind b;
        }))
