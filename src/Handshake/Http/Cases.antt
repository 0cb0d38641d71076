-- ===== src/Handshake/Http/Cases.antt =====
-- What the analysis of an HTTP request comes to.
use socks5balancer_asio.Prelude.{
  ℕ, ◌≡◌, inl, inr, false, none, some, Bytes, arith, Bool-cases, Option-cases,
}
use socks5balancer_asio.Auth.Users.{AuthUser}
use socks5balancer_asio.Handshake.State.{State, Env, HttpHeader, http_read, http_407, begin}
use socks5balancer_asio.Handshake.Complete.{fail}
use socks5balancer_asio.Handshake.DownReady.{do_when_down_ready}
use socks5balancer_asio.Handshake.Server5.{set_auth_user}
use socks5balancer_asio.Handshake.Http.{
  check_header_auth_string, basic_part, ParsedUri, to_target, request_uri, take_request,
  check_field, check_client, do_analysis_client_first_http_header,
}

module _ (P : State → Type 0) (env : Env) where
  take_request_cases :
      (h : HttpHeader) (blank : ℕ) (s : State)
      → P (fail s)
      → ((u : ParsedUri) → P (do_when_down_ready env (to_target u blank s)))
      → P (take_request env h blank s)
  unfolding take_request
  take_request_cases h blank s bad good = elim (Option-cases (request_uri env h)) [
    | inl e ↦ ground (arith, e, bad)
    | inr (u, e) ↦ ground (arith, e, good u)
  ]

  module _ (s : State) (bad : P (fail s)) (more : P (begin http_read s))
      (refused : P (begin http_407 s))
      (free : (u : ParsedUri) (blank : ℕ)
        → env.need_auth ≡ false
        → P (do_when_down_ready env (to_target u blank s)))
      (bad_user : (au : AuthUser) → P (fail (set_auth_user au s)))
      (known : (au : AuthUser) (u : ParsedUri) (blank : ℕ)
        → P (do_when_down_ready env (to_target u blank (set_auth_user au s)))) where
    check_field_cases :
        (value : Bytes) (h : HttpHeader) (blank : ℕ) → P (check_field env value h blank s)
    unfolding check_field
    check_field_cases value h blank =
        elim (Option-cases (check_header_auth_string env (basic_part env value))) [
          | inl e ↦ ground (arith, e, bad)
          | inr (none, e) ↦ ground (arith, e, refused)
          | inr (some au, e) ↦ ground (
            arith,
            e,
            take_request_cases h blank (set_auth_user au s) (bad_user au) (λ u. known au u blank),
          )
        ]

    check_client_cases : (h : HttpHeader) (blank : ℕ) → P (check_client env h blank s)
    unfolding check_client
    check_client_cases h blank = elim (Bool-cases env.need_auth) [
      | inr off ↦ ground (arith, off, take_request_cases h blank s bad (λ u. free u blank off))
      | inl on ↦ elim (Option-cases h.proxy_authorization) [
        | inr (value, e) ↦ ground (arith, on, e, check_field_cases value h blank)
        | inl e ↦ elim (Option-cases h.authorization) [
          | inr (value, f) ↦ ground (arith, on, e, f, check_field_cases value h blank)
          | inl f ↦ ground (arith, on, e, f, refused)
        ]
      ]
    ]

    pub analysis_cases : P (do_analysis_client_first_http_header env s)
    unfolding do_analysis_client_first_http_header
    analysis_cases = elim (Option-cases (env.find_blank_line s.downstream_buf)) [
      | inl e ↦ ground (arith, e, more)
      | inr (blank, e) ↦ elim (Option-cases (env.parse_header s.downstream_buf)) [
        | inl f ↦ ground (arith, e, f, bad)
        | inr (h, f) ↦ ground (arith, e, f, check_client_cases h blank)
      ]
    ]
