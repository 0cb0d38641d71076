-- ===== src/Handshake/Server5.antt =====
-- Socks5ServerImpl.cpp: the SOCKS5 handshake with the client.
use socks5balancer_asio.Prelude.{
  ℕ, ◌+◌, ◌-◌, ◌*◌, Bool, true, false, not, ◌&&◌, ◌||◌, [], ◌∷◌, ◌++◌, Option, none, some, Bytes,
  length, take, drop, ltb, ◌==◌, if◌then◌else◌,
}
use socks5balancer_asio.Auth.Users.{AuthUser}
use socks5balancer_asio.Handshake.State.{
  State, Env, connect, udp, bind, auth_client_write, auth_client_ok, auth_client_error,
  handshake_client_write, handshake_client_header_error, handshake_client_end_error,
  handshake_client_end, null_session, begin, call, at,
}
use socks5balancer_asio.Handshake.Complete.{
  fail, upside_support_udp_mode, upside_in_udp_mode, udp_enabled,
}
use socks5balancer_asio.Handshake.Client.{byte}
use socks5balancer_asio.Handshake.DownReady.{do_when_down_ready}

-- `authMethodList.find(m) != npos`
abbrev pub contains : ℕ → Bytes → Bool
contains m [] = false
contains m (b ∷ bs) = b == m || contains m bs

-- The method list was taken; both branches on `find(0x02)`.
choose_method : Env → Bytes → State → State
choose_method env methods s =
    if contains 0x02 methods
    then (if env.need_auth then begin auth_client_write s else begin handshake_client_write s)
    else if env.need_auth
    then begin handshake_client_header_error s
    else begin handshake_client_write s

unfoldable pub do_analysis_client_first_socks5_header : Env → State → State
unfolding choose_method
do_analysis_client_first_socks5_header env s =
    let d = s.downstream_buf in
    if ltb (length d) 3
    then fail s
    else if not (length d == 2 + at d 1)
    then fail s
    else if at d 0 == 0x05 && at d 1 == 0x01 && at d 2 == 0x00
    then (if env.need_auth
        then fail (record s { downstream_buf = drop 3 d })
        else begin handshake_client_write (record s { downstream_buf = drop 3 d }))
    else if at d 0 == 0x05 && ltb 0 (at d 1)
    then choose_method env (take (at d 1) (drop 2 d))
        (record s { downstream_buf = drop (2 + at d 1) d })
    else begin handshake_client_header_error s

-- `tcpRelaySession->authUser = au`, in the servers the only dereference of this pointer
abbrev pub set_auth_user : AuthUser → State → State
set_auth_user au s =
    if s.tcp_relay_session then record s { auth_user = some au } else call null_session s

-- The length of the message by its own two length bytes.
abbrev pub auth_length : Bytes → ℕ
auth_length b = 2 + at b 1 + 1 + at b (2 + at b 1)

-- The handler of `do_auth_client_read`.
unfoldable pub on_auth_client_read : Env → Bytes → State → State
on_auth_client_read env b s =
    if ltb (length b) 5
    then fail s
    else if ltb (length b) (auth_length b)
    then fail s
    else if ltb (auth_length b) (length b)
    then fail s
    else if not (at b 0 == 0x01)
    then fail s
    else if at b 1 == 0
    then fail s
    else if at b (2 + at b 1) == 0
    then fail s
    else elim (env.check_auth (take (at b 1) (drop 2 b))
        (take (at b (2 + at b 1)) (drop (2 + at b 1 + 1) b))) [
          | none ↦ begin auth_client_error s
          | some au ↦ begin auth_client_ok (set_auth_user au s)
        ]

-- `do_handshake_client_end_error`
unfoldable pub do_handshake_client_end_error : ℕ → State → State
do_handshake_client_end_error error s =
    if error == 0x01 || error == 0x07 then begin (handshake_client_end_error error) s else fail s

-- The last two bytes received.
abbrev pub port_of : Bytes → ℕ
port_of b = at b (length b - 2) * 256 + at b (length b - 1)

-- The target of a request by its address type, `none` where its length does not fit.
unfoldable pub read_target : Env → Bytes → Option (Bytes × ℕ)
read_target env b =
    if at b 3 == 0x01
    then (if length b == 4 + 4 + 2
        then some (env.v4_to_string (take 4 (drop 4 b)), port_of b)
        else none)
    else if at b 3 == 0x03
    then (if length b == 4 + 1 + at b 4 + 2
        then some (take (at b 4) (drop (4 + 1) b), port_of b)
        else none)
    else if at b 3 == 0x04
    then (if length b == 4 + 16 + 2
        then some (env.v6_to_string (take 16 (drop 4 b)), port_of b)
        else none)
    else none

-- The switch on the command, behind the target. After the error reply to BIND the code goes on.
unfoldable pub on_command : Env → ℕ → State → State
unfolding do_handshake_client_end_error
on_command env cmd s =
    if cmd == 0x01
    then do_when_down_ready env (record s { proxy_relay_mode = connect })
    else if cmd == 0x02
    then do_when_down_ready env
        (record (do_handshake_client_end_error 0x07 s) { proxy_relay_mode = bind })
    else if cmd == 0x03
    then (if upside_support_udp_mode s
        then do_when_down_ready env (record s { socks5_server = some true; proxy_relay_mode = udp })
        else do_handshake_client_end_error 0x07 s)
    else fail s

-- The handler of `do_handshake_client_read`.
unfoldable pub on_handshake_client_read : Env → Bytes → State → State
unfolding read_target on_command
on_handshake_client_read env b s =
    if ltb (length b) (4 + 2)
    then fail s
    else if not (at b 0 == 5)
        || (not (at b 1 == 0x01) && not (at b 1 == 0x02) && not (at b 1 == 0x03))
        || not (at b 2 == 0x00)
    then fail s
    else elim (read_target env b) [
      | none ↦ fail s
      | some (host, port) ↦ on_command env (at b 1) (record s { host = host; port = port })
    ]

-- The reply of `do_handshake_client_end`, `none` where the host is too long for a domain reply.
unfoldable pub end_reply : State → Option Bytes
end_reply s =
    if length s.bind_host == 0
    then some (0x05 ∷ 0x00 ∷ 0x00 ∷ 0x01 ∷ 0 ∷ 0 ∷ 0 ∷ 0 ∷ 0 ∷ 0 ∷ [])
    else if length s.bind_host == 4
    then some (0x05 ∷ 0x00 ∷ 0x00 ∷ 0x01 ∷ (s.bind_host ++ s.bind_port))
    else if length s.bind_host == 16
    then some (0x05 ∷ 0x00 ∷ 0x00 ∷ 0x04 ∷ (s.bind_host ++ s.bind_port))
    else if ltb 255 (length s.host)
    then none
    else some (0x05 ∷ 0x00 ∷ 0x00 ∷ 0x03 ∷ byte (length s.bind_host) ∷ (s.bind_host ++ s.bind_port))

unfoldable pub do_handshake_client_end : State → State
unfolding end_reply do_handshake_client_end_error
do_handshake_client_end s = elim (end_reply s) [
  | none ↦ fail s
  | some b ↦
      if udp_enabled s.socks5_server && not (upside_in_udp_mode s)
      then do_handshake_client_end_error 0x07 s
      else begin (handshake_client_end b) s
]
