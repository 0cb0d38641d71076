-- ===== src/Tests/Handshake.antt =====
-- The handshake at concrete inputs.
use socks5balancer_asio.Handshake.State.{HttpHeader}
use socks5balancer_asio.Prelude.{codes}
use socks5balancer_asio.Prelude.{
  ◌≡◌, refl, inl, true, false, [], ◌∷◌, ◌++◌, none, some, Bytes, is_empty, if◌then◌else◌, bytes_eq,
  arith,
}
use socks5balancer_asio.Auth.Users.{AuthUser}
use socks5balancer_asio.Handshake.State.{
  State, Env, v4, no_address, bind, socks5, upside_socks5, handshake_client_end,
  handshake_client_end_error, socks5_handshake_write,
}
use socks5balancer_asio.Handshake.Client.{auth_message}
use socks5balancer_asio.Handshake.Server5.{on_auth_client_read, on_handshake_client_read}
use socks5balancer_asio.Handshake.Ready.{on_socks5_connect_read}
use socks5balancer_asio.Handshake.Relay.{
  Target, ipv4, domain, request, IsTarget, Relays, on_handshake_client_read-Relays,
  on_handshake_client_read_bind,
}
use socks5balancer_asio.Handshake.Login.{answered, on_auth_client_read-auth_message}
use socks5balancer_asio.Handshake.Bind.{
  on_socks5_connect_read_passes_on, on_socks5_connect_read_mistypes,
}

abbrev pub carol : AuthUser
carol = record { id = 1; user = b'c' ∷ []; pwd = b'w' ∷ []; base64 = b'z' ∷ [] }

-- The address 1.2.3.4 is printed and read back; every other text is a name.
abbrev pub printed : Bytes
printed = b'1' ∷ b'.' ∷ b'2' ∷ b'.' ∷ b'3' ∷ b'.' ∷ b'4' ∷ []

-- A request with no authorization field.
abbrev pub header : HttpHeader
header = record {
  is_connect = true;
  target = codes "hosts";
  host = none;
  proxy_authorization = none;
  authorization = none;
}

abbrev pub env : Env
env = record {
  need_auth = true;
  check_auth = λ user pwd. if bytes_eq user (b'c' ∷ []) then some carol else none;
  check_auth_user_only = λ user. none;
  disable_socks4 = false;
  server_auth_user = [];
  server_auth_pwd = [];
  v4_to_string = λ a. printed;
  v6_to_string = λ a. b':' ∷ b':' ∷ [];
  make_address = λ t. if bytes_eq t printed then v4 (1 ∷ 2 ∷ 3 ∷ 4 ∷ []) else no_address;
  memory_behind = λ d i. 0;
  check_auth_base64 = λ text. none;
  base64_decode = λ text. some text;
  find_blank_line = λ d. if bytes_eq d (codes "GET\r\n\r\nrest") then some 3 else none;
  parse_header = λ d. some header;
  match_url = λ url.
      some (record { protocol = []; domain = codes "hosts"; port = []; resource = []; query = [] });
  to_lower = λ text. text;
  convert_u16 = λ text. if bytes_eq text (codes "80") then some 80 else none;
  behind_value = λ value. [];
}

abbrev pub entered : State
entered = record {
  tcp_relay_session = true;
  when_complete = true;
  when_error = true;
  downstream_buf = [];
  proxy_relay_mode = bind;
  bind_host = [];
  bind_port = [];
  ready_up = false;
  ready_down = false;
  complete_up = false;
  complete_down = false;
  complete_up_error = false;
  complete_down_error = false;
  connect_type = socks5;
  upside_connect_type = upside_socks5;
  host = [];
  port = 0;
  http_server = false;
  socks5_client = none;
  socks5_server = some false;
  socks4_server = none;
  auth_user = none;
  pending = [];
  calls = [];
}

abbrev pub dotted : Target
dotted = ipv4 (1 ∷ 2 ∷ 3 ∷ 4 ∷ [])

abbrev pub named : Target
named = domain (b'h' ∷ b'o' ∷ b's' ∷ b't' ∷ b's' ∷ [])

on_handshake_client_read-Relays_example :
    Relays env entered
      (on_handshake_client_read env (request 1 dotted 1 187) entered)
      []
      (request 1 dotted 1 187)
on_handshake_client_read-Relays_example =
    on_handshake_client_read-Relays env dotted 1 1 187 entered [] (refl, refl) (inl refl)
      (omega arith) (omega arith) refl refl refl

pub named-IsTarget : IsTarget env named
named-IsTarget = (omega arith, refl)

on_handshake_client_read_bind_example :
    let s' = on_handshake_client_read env (request 2 named 1 187) entered in
    (s'.pending
      ≡ (entered.pending ++ handshake_client_end_error 7 ∷ [])
        ++ socks5_handshake_write
            (0x05 ∷ 0x01 ∷ (if is_empty env.server_auth_user then 0 else 2) ∷ [])
          ∷ [])
    × (s'.ready_down ≡ true)
    × (s'.proxy_relay_mode ≡ bind)
on_handshake_client_read_bind_example =
    on_handshake_client_read_bind env named 1 187 entered named-IsTarget refl refl

on_auth_client_read-auth_message_example :
    on_auth_client_read env (auth_message (b'c' ∷ []) (b'w' ∷ [])) entered
    ≡ answered (env.check_auth (b'c' ∷ []) (b'w' ∷ [])) entered
on_auth_client_read-auth_message_example =
    on_auth_client_read-auth_message env (b'c' ∷ []) (b'w' ∷ []) entered (omega arith) (omega arith)
      (omega arith) (omega arith)

on_socks5_connect_read_passes_on_example :
    (on_socks5_connect_read (request 0 dotted 4 56) entered).pending
    ≡ entered.pending ++ handshake_client_end (request 0 dotted 4 56) ∷ []
on_socks5_connect_read_passes_on_example =
    on_socks5_connect_read_passes_on dotted 4 56 entered refl tt (omega arith) refl refl refl

abbrev four_letters : Bytes
four_letters = b'h' ∷ b'o' ∷ b's' ∷ b't' ∷ []

on_socks5_connect_read_mistypes_example :
    (on_socks5_connect_read (request 0 (domain four_letters) 4 56) entered).pending
    ≡ entered.pending ++ handshake_client_end (request 0 (ipv4 four_letters) 4 56) ∷ []
on_socks5_connect_read_mistypes_example =
    on_socks5_connect_read_mistypes four_letters 4 56 entered refl refl refl refl
