-- ===== src/Tests/Http.antt =====
-- The HTTP handshake at concrete inputs.
use socks5balancer_asio.Handshake.State.{HttpHeader}
use socks5balancer_asio.Prelude.{◌≡◌, refl, true, false, [], ◌∷◌, some, Bytes, codes, arith}
use socks5balancer_asio.Handshake.State.{State, Env, http_407}
use socks5balancer_asio.Handshake.Relay.{domain, request, Relays}
use socks5balancer_asio.Handshake.Http.{
  request_uri, parse_uri, uri_of, ParsedUri, do_analysis_client_first_http_header,
}
use socks5balancer_asio.Handshake.Http.Requests.{
  IsRefused, next_round, next_round-IsRefused, do_analysis_client_first_http_header-Relays,
}
use socks5balancer_asio.Tests.Handshake.{env, header, entered}

abbrev head : Bytes
head = codes "GET\r\n\r\nrest"

abbrev refused : State
refused = record entered { pending = http_407 ∷ []; downstream_buf = head }

refused-IsRefused : IsRefused env refused
refused-IsRefused = record {
  needed = refl;
  asked = refl;
  blank = 3;
  complete = refl;
  header = header;
  parsed = refl;
  no_proxy_field = refl;
  no_field = refl;
}

next_round-IsRefused_example : next_round env refused ≡ refused
next_round-IsRefused_example = next_round-IsRefused env refused refused-IsRefused

abbrev open_env : Env
open_env = record env { need_auth = false }

abbrev uri : ParsedUri
uri = record {
  protocol = codes "http";
  domain = codes "hosts";
  port = codes "80";
  port_u16 = 80;
  resource = codes "/";
  query = [];
  is_ok = true;
}

uri_found : request_uri open_env header ≡ some uri
unfolding request_uri parse_uri uri_of
uri_found = refl

abbrev asking : State
asking = record entered { downstream_buf = head }

do_analysis_client_first_http_header-Relays_example :
    let s' = do_analysis_client_first_http_header open_env asking in
    Relays open_env asking s' [] (request 1 (domain (codes "hosts")) 0 80)
    × (s'.downstream_buf ≡ codes "rest")
do_analysis_client_first_http_header-Relays_example =
    do_analysis_client_first_http_header-Relays open_env asking (codes "GET") (codes "rest") header
      uri 0 80 [] refl refl refl refl uri_found (omega arith, refl) refl (omega arith) (omega arith)
      refl refl

-- A request with the login of a user.
abbrev login_header : HttpHeader
login_header = record header { proxy_authorization = some (codes "Basic c:w") }

abbrev login_env : Env
login_env = record env { parse_header = λ d. some login_header }
