-- ===== src/Handshake/State.antt =====
-- The state of one handshake. An asynchronous operation that has been started is a member of
-- `pending`, with the data it sends; its handler is chosen by the operation. The callbacks into the
-- relay session are recorded in `calls`.
-- BOOST_ASSERT has no effect, as in a release build. Each handler holds a strong reference to the
-- handshake, so `parents.lock()` succeeds wherever the code tests it.
use socks5balancer_asio.Prelude.{
  ℕ, Bool, true, false, List, [], ◌∷◌, ◌++◌, Option, none, some, Bytes, get_or, get_elem?, length,
  ◌-◌,
}
use socks5balancer_asio.Auth.Users.{AuthUser}

pub data ConnectType : Type 0 where
  socks5 socks4 http_connect http_other unknown : ConnectType

pub data UpsideConnectType : Type 0 where
  upside_socks5 upside_socks4 upside_http upside_none : UpsideConnectType

pub data ProxyRelayMode : Type 0 where
  connect udp bind mode_none : ProxyRelayMode

-- `boost::asio::ip::address`: the bytes of an address, or the error of `make_address`.
pub data Address : Type 0 where
  v4 : Bytes → Address
  v6 : Bytes → Address
  no_address : Address

-- The asynchronous operations, by the method that starts them.
pub data Op : Type 0 where
  first_read : Op
  auth_client_write auth_client_read auth_client_ok auth_client_error : Op
  handshake_client_write handshake_client_read handshake_client_header_error : Op
  handshake_client_end_error : ℕ → Op
  handshake_client_end : Bytes → Op
  socks4_client_end_error : ℕ → Op
  socks4_client_end : Op
  socks5_handshake_write : Bytes → Op
  socks5_handshake_read : Op
  socks5_auth_write : Bytes → Op
  socks5_auth_read : Op
  socks5_connect_write : Bytes → Op
  socks5_connect_read : Op
  http_read http_407 http_established http_failed : Op

pub data Call : Type 0 where
  when_complete_called when_error_called : Call
  -- the pointer `tcpRelaySession` is dereferenced after its reset; the uses of the session's sockets,
  -- which are references of their own, are not noted
  null_session : Call

pub record State : Type 0 where
  pub tcp_relay_session : Bool
  pub when_complete : Bool
  pub when_error : Bool
  pub downstream_buf : Bytes
  pub proxy_relay_mode : ProxyRelayMode
  pub bind_host : Bytes
  pub bind_port : Bytes
  pub ready_up : Bool
  pub ready_down : Bool
  pub complete_up : Bool
  pub complete_down : Bool
  pub complete_up_error : Bool
  pub complete_down_error : Bool
  pub connect_type : ConnectType
  pub upside_connect_type : UpsideConnectType
  pub host : Bytes
  pub port : ℕ
  pub http_server : Bool
  -- the `udpEnabled` of the client and server objects, `none` before they are made
  pub socks5_client : Option Bool
  pub socks5_server : Option Bool
  pub socks4_server : Option Bool
  pub auth_user : Option AuthUser
  pub pending : List Op
  pub calls : List Call

-- The groups of the URL pattern of `parseURI` that the code reads.
pub record UrlMatch : Type 0 where
  pub protocol : Bytes
  pub domain : Bytes
  pub port : Bytes
  pub resource : Bytes
  pub query : Bytes

-- What boost::beast gives of a request header; a field that is not there is `none`.
pub record HttpHeader : Type 0 where
  pub is_connect : Bool
  pub target : Bytes
  pub host : Option Bytes
  pub proxy_authorization : Option Bytes
  pub authorization : Option Bytes

-- What the handshake uses of other parts: AuthClientManager, the configuration, the chosen upstream
-- server, the address texts of boost::asio, the memory behind the received data, and for HTTP the
-- parser of boost::beast, the URL pattern, and the searches and conversions of boost, on which
-- base64.h stands.
pub record Env : Type 0 where
  pub need_auth : Bool
  pub check_auth : Bytes → Bytes → Option AuthUser
  pub check_auth_user_only : Bytes → Option AuthUser
  pub disable_socks4 : Bool
  pub server_auth_user : Bytes
  pub server_auth_pwd : Bytes
  pub v4_to_string : Bytes → Bytes
  pub v6_to_string : Bytes → Bytes
  pub make_address : Bytes → Address
  -- the byte at an offset behind the end of the data
  pub memory_behind : Bytes → ℕ → ℕ
  pub check_auth_base64 : Bytes → Option AuthUser
  -- `none` is an exception, which a character that is not of the alphabet causes
  pub base64_decode : Bytes → Option Bytes
  -- the place of the first blank line, `"\r\n\r\n"`
  pub find_blank_line : Bytes → Option ℕ
  -- `none` is an error or an exception of the parser
  pub parse_header : Bytes → Option HttpHeader
  pub match_url : Bytes → Option UrlMatch
  pub to_lower : Bytes → Bytes
  pub convert_u16 : Bytes → Option ℕ
  -- what lies behind a header value that is shorter than the six bytes that the code skips
  pub behind_value : Bytes → Bytes

-- The constructor.
unfoldable pub initial : State
initial = record {
  tcp_relay_session = true;
  when_complete = true;
  when_error = true;
  downstream_buf = [];
  proxy_relay_mode = mode_none;
  bind_host = [];
  bind_port = [];
  ready_up = false;
  ready_down = false;
  complete_up = false;
  complete_down = false;
  complete_up_error = false;
  complete_down_error = false;
  connect_type = unknown;
  upside_connect_type = upside_none;
  host = [];
  port = 0;
  http_server = false;
  socks5_client = none;
  socks5_server = none;
  socks4_server = none;
  auth_user = none;
  pending = [];
  calls = [];
}

abbrev pub begin : Op → State → State
begin op s = record s { pending = s.pending ++ op ∷ [] }

abbrev pub call : Call → State → State
call c s = record s { calls = s.calls ++ c ∷ [] }

-- `at(i)` of a read buffer: 8196 bytes, all 0 but for those received.
abbrev pub at : Bytes → ℕ → ℕ
at b i = get_or b i 0

-- `d[i]` of a buffer that the code reads with no check of its size.
abbrev pub peek : Env → Bytes → ℕ → ℕ
peek env d i = elim (get_elem? d i) [ some b ↦ b | none ↦ env.memory_behind d (i - length d) ]
