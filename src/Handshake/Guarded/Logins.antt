-- ===== src/Handshake/Guarded/Logins.antt =====
-- The handlers that run before the client is known, with authentication demanded.
use socks5balancer_asio.Prelude.{
  ℕ, ◌≡◌, refl, true, false, ◌++◌, some, Bytes, arith, drop, take, ◌+◌, ◌*◌, ◌-◌, inl, inr,
  Option-cases,
}
use socks5balancer_asio.Handshake.State.{
  State, Env, ConnectType, socks5, socks4, http_connect, http_other, unknown, upside_socks5,
  http_read, http_407, auth_client_write, auth_client_error, handshake_client_header_error,
  socks4_client_end_error, at,
}
use socks5balancer_asio.Handshake.Server5.{
  do_analysis_client_first_socks5_header, on_auth_client_read, set_auth_user,
}
use socks5balancer_asio.Handshake.Server4.{
  do_socks4_client_end_error, socks4_auth, do_analysis_client_first_socks4_header, socks4_host,
  null_byte_index, first_index,
}
use socks5balancer_asio.Handshake.Complete.{fail}
use socks5balancer_asio.Handshake.DownReady.{do_when_down_ready}
use socks5balancer_asio.Handshake.Http.{do_analysis_client_first_http_header, to_target}
use socks5balancer_asio.Handshake.Http.Cases.{analysis_cases}
use socks5balancer_asio.Handshake.Run.{
  enter_socks5, enter_socks4, enter_http, dispatch, on_first_read,
}
use socks5balancer_asio.Handshake.Guarded.Handlers.{
  down_ready_known, set_auth_user_known, socks4_command_known, open_more, fail_guarded,
}
use socks5balancer_asio.Handshake.Guarded.{is_known, is_guarded, KeepsGuarded}

-- The branches of the dispatch.
pub dispatch_cases :
    (P : State → Type 0) (env : Env) (d : Bytes) (s : State)
    → P (enter_socks5 env d s)
    → P (enter_socks4 env d s)
    → P (enter_http env http_connect s)
    → P (enter_http env http_other s)
    → P (fail (record s { connect_type = unknown }))
    → P (dispatch env d s)
unfolding dispatch
dispatch_cases P env d s five four tunnel other none_of =
    ground (arith, five, four, tunnel, other, none_of)

module _ (env : Env) (need : env.need_auth ≡ true) where
  first_header_guarded : KeepsGuarded (do_analysis_client_first_socks5_header env)
  unfolding do_analysis_client_first_socks5_header
  first_header_guarded s v =
      let cut : ℕ → State = λ n. record s { downstream_buf = drop n s.downstream_buf } in
      let n : ℕ = 2 + at s.downstream_buf 1 in
      ground (
        arith,
        fail_guarded s v,
        fail_guarded (cut 3) v,
        open_more auth_client_write (cut n) refl v,
        open_more handshake_client_header_error (cut n) refl v,
        open_more handshake_client_header_error s refl v,
      )

  socks4_error_guarded : (e : ℕ) → KeepsGuarded (do_socks4_client_end_error e)
  unfolding do_socks4_client_end_error
  socks4_error_guarded e s v =
      ground (arith, fail_guarded s v, open_more (socks4_client_end_error e) s refl v)

  socks4_auth_guarded : (d : Bytes) (i : ℕ) → KeepsGuarded (socks4_auth env d i)
  unfolding socks4_auth
  socks4_auth_guarded d i s v =
      elim (Option-cases (env.check_auth_user_only (take (i - 8) (drop 8 d)))) [
        | inl e ↦ ground (arith, e, socks4_error_guarded 92 s v)
        | inr (au, e) ↦ ground (
          arith,
          e,
          socks4_error_guarded 92 s v,
          socks4_command_known env d (set_auth_user au s) (set_auth_user_known au s),
        )
      ]

  socks4_header_guarded : KeepsGuarded (do_analysis_client_first_socks4_header env)
  unfolding do_analysis_client_first_socks4_header
  socks4_header_guarded s v =
      let nulls = null_byte_index 8 (drop 8 s.downstream_buf) in
      elim (Option-cases (socks4_host env s.downstream_buf nulls)) [
        | inl e ↦ ground (arith, e, fail_guarded s v)
        | inr (h, e) ↦
            let port : ℕ = at s.downstream_buf 2 * 256 + at s.downstream_buf 3 in
            ground (
              arith,
              e,
              fail_guarded s v,
              socks4_auth_guarded s.downstream_buf (first_index nulls)
                  (record s { host = h; port = port }) v,
            )
      ]

  enter_socks5_guarded : (d : Bytes) → KeepsGuarded (enter_socks5 env d)
  unfolding enter_socks5
  enter_socks5_guarded d s v = ground (
    arith,
    fail_guarded s v,
    first_header_guarded
        (record s {
          connect_type = socks5;
          upside_connect_type = upside_socks5;
          socks5_server = some false;
        })
        v,
  )

  enter_socks4_guarded : (d : Bytes) → KeepsGuarded (enter_socks4 env d)
  unfolding enter_socks4
  enter_socks4_guarded d s v = ground (
    arith,
    fail_guarded s v,
    socks4_header_guarded
        (record s {
          connect_type = socks4;
          upside_connect_type = upside_socks5;
          socks4_server = some false;
        })
        v,
  )

  known_guarded : (s : State) → is_known s ≡ true → is_guarded s ≡ true
  known_guarded s v = ground arith

  pub http_header_guarded : KeepsGuarded (do_analysis_client_first_http_header env)
  http_header_guarded s v =
      analysis_cases (λ t. is_guarded t ≡ true) env s (fail_guarded s v)
        (open_more http_read s refl v) (open_more http_407 s refl v)
        (λ u blank off. absurd (cc (need, off)))
        (λ au.
          fail_guarded (set_auth_user au s)
            (known_guarded (set_auth_user au s) (set_auth_user_known au s)))
        (λ au u blank.
          known_guarded (do_when_down_ready env (to_target u blank (set_auth_user au s))) (
            down_ready_known env (to_target u blank (set_auth_user au s))
              (set_auth_user_known au s)))

  enter_http_guarded : (t : ConnectType) → KeepsGuarded (enter_http env t)
  unfolding enter_http
  enter_http_guarded t s v =
      http_header_guarded
        (record s { connect_type = t; upside_connect_type = upside_socks5; http_server = true }) v

  dispatch_guarded : (d : Bytes) → KeepsGuarded (dispatch env d)
  dispatch_guarded d s v =
      dispatch_cases (λ t. is_guarded t ≡ true) env d s (enter_socks5_guarded d s v)
        (enter_socks4_guarded d s v) (enter_http_guarded http_connect s v)
        (enter_http_guarded http_other s v) (fail_guarded (record s { connect_type = unknown }) v)

  pub first_read_guarded : (b : Bytes) → KeepsGuarded (on_first_read env b)
  unfolding on_first_read
  first_read_guarded b s v =
      let s' : State = record s { downstream_buf = s.downstream_buf ++ b } in
      ground (arith, fail_guarded s' v, dispatch_guarded (s.downstream_buf ++ b) s' v)

  pub auth_client_read_guarded : (b : Bytes) → KeepsGuarded (on_auth_client_read env b)
  unfolding on_auth_client_read
  auth_client_read_guarded b s v =
      elim (Option-cases (
        env.check_auth (take (at b 1) (drop 2 b))
          (take (at b (2 + at b 1)) (drop (2 + at b 1 + 1) b)))) [
            | inl e ↦ ground (arith, e, fail_guarded s v, open_more auth_client_error s refl v)
            | inr (au, e) ↦ ground (arith, e, fail_guarded s v, set_auth_user_known au s)
          ]
