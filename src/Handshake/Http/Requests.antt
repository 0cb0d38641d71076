-- ===== src/Handshake/Http/Requests.antt =====
-- What an HTTP client gets for its request.
use mathlib.Core.List.{append-nil}
use socks5balancer_asio.Prelude.{
  ℕ, List, ◌++◌, ◌∙◌, ap, suc, ◌+◌, ◌*◌, ◌<◌, ◌≡◌, refl, inl, true, false, [], ◌∷◌, none, some,
  Bytes, length, drop, arith,
}
use socks5balancer_asio.Handshake.State.{State, Env, Op, HttpHeader, http_407, http_read}
use socks5balancer_asio.Handshake.Client.{start, do_socks5_handshake_write, connect_message}
use socks5balancer_asio.Handshake.DownReady.{do_when_down_ready}
use socks5balancer_asio.Handshake.Relay.{
  domain, request, IsTarget, address_part-request, Relays, greeting, answered_request,
}
use socks5balancer_asio.Handshake.Run.{resume_write, resume_read, on_written, on_read, sent, taken}
use socks5balancer_asio.Handshake.Http.{
  ParsedUri, to_target, request_uri, take_request, check_client,
  do_analysis_client_first_http_header, on_http_read,
}

-- A client that is being told to authenticate, with its whole request still in the buffer.
pub record IsRefused (env : Env) (s : State) : Type 0 where
  pub needed : env.need_auth ≡ true
  pub asked : s.pending ≡ http_407 ∷ []
  pub blank : ℕ
  pub complete : env.find_blank_line s.downstream_buf ≡ some blank
  pub header : HttpHeader
  pub parsed : env.parse_header s.downstream_buf ≡ some header
  pub no_proxy_field : header.proxy_authorization ≡ none
  pub no_field : header.authorization ≡ none

-- The answer 407 is written in full, and the next read finds its blank line in the buffer at once.
abbrev pub next_round : Env → State → State
next_round env s =
    resume_read env http_read false []
      (taken (resume_write http_407 false (length (sent http_407)) (taken s [] [])) [] [])

refused_again :
    (env : Env) (s : State)
    → IsRefused env s
    → do_analysis_client_first_http_header env (taken s [] []) ≡ s
unfolding do_analysis_client_first_http_header check_client
refused_again env s v =
    ground (arith, v.needed, v.asked, v.complete, v.parsed, v.no_proxy_field, v.no_field)

-- A client without an authorization field that was answered 407 is answered 407 again: after the
-- write and the next read, which completes with no new byte, the handshake is in the same state.
pub next_round-IsRefused : (env : Env) (s : State) → IsRefused env s → next_round env s ≡ s
unfolding resume_read resume_write on_read on_written on_http_read
next_round-IsRefused env s v = rw (append-nil s.downstream_buf) (refused_again env s v)

-- "\r\n\r\n"
abbrev pub blank_line : Bytes
blank_line = 13 ∷ 10 ∷ 13 ∷ 10 ∷ []

taken_request :
    (env : Env) (s : State) (blank : ℕ) (h : HttpHeader) (u : ParsedUri)
    → env.need_auth ≡ false
    → env.find_blank_line s.downstream_buf ≡ some blank
    → env.parse_header s.downstream_buf ≡ some h
    → request_uri env h ≡ some u
    → do_analysis_client_first_http_header env s ≡ do_when_down_ready env (to_target u blank s)
unfolding do_analysis_client_first_http_header check_client take_request
taken_request env s blank h u off b p r = ground (arith, off, b, p, r)

drop_request : (head rest : Bytes) → drop (length head + 4) (head ++ blank_line ++ rest) ≡ rest
drop_request [] rest = refl
drop_request (b ∷ head) rest =
    let next : suc (length head) + 4 ≡ suc (length head + 4) = omega arith in
    rw next (drop_request head rest)

down_ready_message :
    (env : Env) (s : State) (u : ParsedUri) (blank hi lo : ℕ)
    → IsTarget env (domain u.domain)
    → u.port_u16 ≡ hi * 256 + lo
    → hi < 256
    → lo < 256
    → s.ready_down ≡ false
    → s.complete_up ≡ false
    → connect_message env (do_when_down_ready env (to_target u blank s))
      ≡ some (request 1 (domain u.domain) hi lo)
unfolding do_when_down_ready start do_socks5_handshake_write
down_ready_message env s u blank hi lo t n hh hl rd c =
    rw (rd, c)
      (address_part-request env _ 1 (domain u.domain) hi lo t hh hl refl n (inl (refl, refl)))

down_ready_started :
    (env : Env) (s : State) (u : ParsedUri) (blank : ℕ)
    → s.ready_down ≡ false
    → s.complete_up ≡ false
    → let s' = do_when_down_ready env (to_target u blank s) in
      (s'.pending ≡ s.pending ++ greeting env ∷ [])
      × (s'.downstream_buf ≡ drop (blank + 4) s.downstream_buf)
unfolding do_when_down_ready start do_socks5_handshake_write
down_ready_started env s u blank rd c = rw (rd, c) (refl, refl)

-- With no authentication demanded, in a handshake that has taken no request yet and whose upside is
-- not complete: a complete request, up to its blank line, whose URI names a domain (of at most 253
-- bytes, and no address) and a port begins the upside handshake by writing its greeting. When the
-- upstream server answers the greeting with "no authentication", or a login with success, the
-- SOCKS5 CONNECT request for that domain and port is written to it. What the client sent behind the
-- request stays in the buffer.
pub do_analysis_client_first_http_header-Relays :
    (env : Env) (s : State) (head rest : Bytes) (h : HttpHeader) (u : ParsedUri) (hi lo : ℕ)
    (ops : List Op)
    → env.need_auth ≡ false
    → s.downstream_buf ≡ head ++ blank_line ++ rest
    → env.find_blank_line s.downstream_buf ≡ some (length head)
    → env.parse_header s.downstream_buf ≡ some h
    → request_uri env h ≡ some u
    → IsTarget env (domain u.domain)
    → u.port_u16 ≡ hi * 256 + lo
    → hi < 256
    → lo < 256
    → s.ready_down ≡ false
    → s.complete_up ≡ false
    → let s' = do_analysis_client_first_http_header env s in
      Relays env s s' ops (request 1 (domain u.domain) hi lo) × (s'.downstream_buf ≡ rest)
do_analysis_client_first_http_header-Relays env s head rest h u hi lo ops off d b p r t n hh hl rd
      c =
    rw (taken_request env s (length head) h u off b p r) (
      let (started, left) = down_ready_started env s u (length head) rd c in
      (
        (
          started,
          answered_request env _ _ ops
              (down_ready_message env s u (length head) hi lo t n hh hl rd c),
        ),
        left ∙ ap (drop (length head + 4)) d ∙ drop_request head rest,
      ))
