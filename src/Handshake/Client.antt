-- ===== src/Handshake/Client.antt =====
-- Socks5ClientImpl.cpp, up to the request: the handshake with the upstream server.
use socks5balancer_asio.Prelude.{
  ℕ, ◌/◌, ◌%◌, Bool, true, false, not, ◌&&◌, ◌||◌, [], ◌∷◌, ◌++◌, Option, none, some, Bytes, length,
  ltb, ◌==◌, if◌then◌else◌, is_empty,
}
use socks5balancer_asio.Handshake.State.{
  State, Env, Address, v4, v6, no_address, ProxyRelayMode, connect, udp, bind, mode_none,
  socks5_handshake_write, socks5_auth_write, socks5_connect_write, begin, at,
}
use socks5balancer_asio.Handshake.Complete.{fail}

-- `static_cast<uint8_t>`
abbrev pub byte : ℕ → ℕ
byte n = n % 256

-- `do_socks5_handshake_write`: one method is offered.
unfoldable pub do_socks5_handshake_write : Env → State → State
do_socks5_handshake_write env s =
    begin
      (socks5_handshake_write
        (0x05 ∷ 0x01 ∷ (if is_empty env.server_auth_user then 0x00 else 0x02) ∷ []))
      s

unfoldable pub start : Env → State → State
unfolding do_socks5_handshake_write
start env s = do_socks5_handshake_write env s

-- The message of `do_socks5_auth_write`.
unfoldable pub auth_message : Bytes → Bytes → Bytes
auth_message user pwd = 0x01 ∷ byte (length user) ∷ (user ++ (byte (length pwd) ∷ pwd))

unfoldable pub do_socks5_auth_write : Env → State → State
unfolding auth_message
do_socks5_auth_write env s =
    begin (socks5_auth_write (auth_message env.server_auth_user env.server_auth_pwd)) s

-- The address part of the request, `none` where a domain name is too long.
unfoldable pub address_part : Address → Bytes → Option Bytes
address_part no_address host =
    if ltb 253 (length host) then none else some (0x03 ∷ byte (length host) ∷ host)
address_part (v4 b) host = some (0x01 ∷ b)
address_part (v6 b) host = some (0x04 ∷ b)

abbrev pub port_part : ℕ → Bytes
port_part port = byte (port / 256) ∷ byte port ∷ []

-- The command byte, `none` where the mode was never set.
abbrev pub command : ProxyRelayMode → Option ℕ
command connect = some 0x01
command bind = some 0x02
command udp = some 0x03
command mode_none = none

abbrev pub is_udp : ProxyRelayMode → Bool
is_udp udp = true
is_udp _ = false

unfoldable pub connect_message : Env → State → Option Bytes
unfolding address_part
connect_message env s = elim (address_part (env.make_address s.host) s.host) [
  | none ↦ none
  | some a ↦ elim (command s.proxy_relay_mode) [
    | none ↦ none
    | some cmd ↦ some (0x05 ∷ cmd ∷ 0x00 ∷ (a ++ port_part s.port))
  ]
]

unfoldable pub do_socks5_connect_write : Env → State → State
unfolding connect_message
do_socks5_connect_write env s = elim (connect_message env s) [
  | none ↦ fail s
  | some b ↦
      begin (socks5_connect_write b)
        (if is_udp s.proxy_relay_mode then record s { socks5_client = some true } else s)
]

-- The handler of `do_socks5_handshake_read`; `b` is what was received.
unfoldable pub on_socks5_handshake_read : Env → Bytes → State → State
on_socks5_handshake_read env b s =
    if ltb (length b) 2
    then fail s
    else if not (at b 0 == 5)
    then fail s
    else if not (at b 1 == 0x00) && not (at b 1 == 0x02)
    then fail s
    else if at b 1 == 0x02
    then (if is_empty env.server_auth_user then fail s else do_socks5_auth_write env s)
    else do_socks5_connect_write env s

-- The handler of `do_socks5_auth_read`.
unfoldable pub on_socks5_auth_read : Env → Bytes → State → State
on_socks5_auth_read env b s =
    if ltb (length b) 2
    then fail s
    else if not (at b 0 == 0x01) || not (at b 1 == 0x00)
    then fail s
    else do_socks5_connect_write env s
