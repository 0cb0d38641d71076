-- ===== src/Handshake/Http.antt =====
-- HttpServerImpl.cpp: the HTTP proxy handshake with the client.
pub mod Cases
pub mod Logins
pub mod Requests
use socks5balancer_asio.Prelude.{
  ℕ, suc, ◌+◌, ◌++◌, Bool, true, false, not, ◌&&◌, ◌||◌, [], ◌∷◌, Option, none, some, Bytes,
  bytes_eq, codes, length, take, drop, ltb, ◌==◌, if◌then◌else◌, is_empty,
}
use socks5balancer_asio.Auth.Users.{AuthUser}
use socks5balancer_asio.Handshake.State.{
  State, Env, HttpHeader, UrlMatch, connect, http_read, http_407, begin,
}
use socks5balancer_asio.Handshake.Complete.{fail}
use socks5balancer_asio.Handshake.DownReady.{do_when_down_ready}
use socks5balancer_asio.Handshake.Server5.{set_auth_user}

abbrev pub later : Option ℕ → Option ℕ
later none = none
later (some i) = some (suc i)

-- `rr.find(':')`
unfoldable pub find_colon : Bytes → Option ℕ
find_colon [] = none
find_colon (b ∷ bs) = let rest = find_colon bs in if b == b':' then some 0 else later rest

-- `checkHeaderAuthString`: `none` is an exception of the decoder, and `some none` is no user.
unfoldable pub check_header_auth_string : Env → Bytes → Option (Option AuthUser)
check_header_auth_string env part = elim (env.check_auth_base64 part) [
  | some au ↦ some (some au)
  | none ↦ elim (env.base64_decode part) [
    | none ↦ none
    | some text ↦ elim (find_colon text) [
      | none ↦ some none
      | some i ↦ some (if ltb i 1 then none else env.check_auth (take i text) (drop (i + 1) text))
    ]
  ]
]

-- The value of an authorization field behind "Basic ", a prefix that is not enforced.
abbrev pub basic_part : Env → Bytes → Bytes
basic_part env value = if ltb (length value) 6 then env.behind_value value else drop 6 value

pub record ParsedUri : Type 0 where
  pub protocol : Bytes
  pub domain : Bytes
  pub port : Bytes
  pub port_u16 : ℕ
  pub resource : Bytes
  pub query : Bytes
  pub is_ok : Bool

abbrev pub value_or : Bytes → Bytes → Bytes
value_or value default = if is_empty value then default else value

abbrev pub is_secure : Bytes → Bool
is_secure protocol = bytes_eq protocol (codes "https") || bytes_eq protocol (codes "wss")

abbrev pub default_port : Bytes → Bytes
default_port protocol = if is_secure protocol then codes "443" else codes "80"

abbrev pub protocol_of : Env → UrlMatch → Bytes
protocol_of env m = value_or (env.to_lower m.protocol) (codes "http")

-- The branch of `parseURI` where the pattern matches; the fields are set before the two tests.
unfoldable pub uri_of : Env → UrlMatch → ParsedUri
uri_of env m =
    let port = value_or m.port (default_port (protocol_of env m)) in
    let number = env.convert_u16 port in
    record {
      protocol = protocol_of env m;
      domain = m.domain;
      port = port;
      port_u16 = elim number [ none ↦ 0 | some n ↦ n ];
      resource = value_or m.resource (codes "/");
      query = m.query;
      is_ok = elim number [ none ↦ false | some n ↦ not (is_empty m.domain) ];
    }

unfoldable pub parse_uri : Env → Bytes → Option ParsedUri
unfolding uri_of
parse_uri env url = elim (env.match_url url) [ none ↦ none | some m ↦ some (uri_of env m) ]

-- The URI if it is there and `isOk`.
abbrev pub ok_uri : Option ParsedUri → Option ParsedUri
ok_uri none = none
ok_uri (some u) = if u.is_ok then some u else none

abbrev pub or_else : Option ParsedUri → Option ParsedUri → Option ParsedUri
or_else (some u) v = some u
or_else none v = v

-- The target is known: the request is taken out of the buffer, and the upside may begin.
abbrev pub to_target : ParsedUri → ℕ → State → State
to_target u blank s = record s {
  host = u.domain;
  port = u.port_u16;
  proxy_relay_mode = connect;
  downstream_buf = drop (blank + 4) s.downstream_buf;
}

-- The URI of a request by its method, `none` where the request is refused.
unfoldable pub request_uri : Env → HttpHeader → Option ParsedUri
unfolding parse_uri
request_uri env h = if h.is_connect then ok_uri (parse_uri env h.target) else elim h.host [
  | none ↦ none
  | some host ↦ or_else (ok_uri (parse_uri env host)) (ok_uri (parse_uri env h.target))
]

-- The part behind the check of the client.
unfoldable pub take_request : Env → HttpHeader → ℕ → State → State
unfolding request_uri
take_request env h blank s = elim (request_uri env h) [
  | none ↦ fail s
  | some u ↦ do_when_down_ready env (to_target u blank s)
]

-- One authorization field; an exception is caught, and the handshake fails.
unfoldable pub check_field : Env → Bytes → HttpHeader → ℕ → State → State
unfolding take_request
check_field env value h blank s = elim (check_header_auth_string env (basic_part env value)) [
  | none ↦ fail s
  | some none ↦ begin http_407 s
  | some (some au) ↦ take_request env h blank (set_auth_user au s)
]

-- The check of the client, with `Proxy-Authorization` before `Authorization`.
unfoldable pub check_client : Env → HttpHeader → ℕ → State → State
unfolding check_field take_request
check_client env h blank s =
    if env.need_auth
    then elim h.proxy_authorization [
      | some value ↦ check_field env value h blank s
      | none ↦ elim h.authorization [
        | some value ↦ check_field env value h blank s
        | none ↦ begin http_407 s
      ]
    ]
    else take_request env h blank s

unfoldable pub do_analysis_client_first_http_header : Env → State → State
unfolding check_client
do_analysis_client_first_http_header env s = elim (env.find_blank_line s.downstream_buf) [
  | none ↦ begin http_read s
  | some blank ↦ elim (env.parse_header s.downstream_buf) [
    | none ↦ fail s
    | some h ↦ check_client env h blank s
  ]
]

-- The handler of `do_read_client_first_http_header`; `b` is what was received on top of the buffer.
unfoldable pub on_http_read : Env → Bytes → State → State
unfolding do_analysis_client_first_http_header
on_http_read env b s =
    do_analysis_client_first_http_header env (record s { downstream_buf = s.downstream_buf ++ b })
