-- ===== src/Handshake/Held/Logins.antt =====
-- The early handlers, with the session held.
use socks5balancer_asio.Prelude.{
  ℕ, ◌≡◌, refl, true, false, inl, inr, some, Bytes, arith, drop, take, length, ltb, ◌++◌, ◌+◌, ◌-◌,
  Bool-cases, Option-cases,
}
use socks5balancer_asio.Auth.Users.{AuthUser}
use socks5balancer_asio.Handshake.State.{
  State, Env, Op, ConnectType, socks5, socks4, http_connect, http_other, unknown, upside_socks5,
  http_read, http_407, auth_client_write, auth_client_ok, auth_client_error, handshake_client_write,
  handshake_client_header_error, begin, at,
}
use socks5balancer_asio.Handshake.Complete.{fail}
use socks5balancer_asio.Handshake.Server5.{
  do_analysis_client_first_socks5_header, on_auth_client_read, set_auth_user,
}
use socks5balancer_asio.Handshake.Server4.{socks4_auth}
use socks5balancer_asio.Handshake.DownReady.{do_when_down_ready}
use socks5balancer_asio.Handshake.Http.{ParsedUri, do_analysis_client_first_http_header, to_target}
use socks5balancer_asio.Handshake.Http.Cases.{analysis_cases}
use socks5balancer_asio.Handshake.Run.{enter_socks5, enter_http, dispatch, on_first_read}
use socks5balancer_asio.Handshake.Guarded.{fail-IsSame}
use socks5balancer_asio.Handshake.Guarded.Logins.{dispatch_cases}
use socks5balancer_asio.Handshake.Held.Cases.{socks4_header_cases, enter_socks4_cases}
use socks5balancer_asio.Handshake.Held.{is_late, is_held, KeepsLate, IsFresh}
use socks5balancer_asio.Handshake.Held.Handlers.{
  down_ready_late, socks4_error_late, socks4_command_late,
}

pub late_held : (s : State) → is_late s ≡ true → is_held s ≡ true
late_held s v = ground arith

fresh_late : (s : State) → IsFresh s → is_late s ≡ true
fresh_late s v = rw v.empty (ground (arith, v.clean))

pub fail_late : KeepsLate fail
fail_late s v = ground (arith, fail-IsSame s)

pub fail_held : (s : State) → IsFresh s → is_held (fail s) ≡ true
fail_held s v = late_held (fail s) (fail_late s (fresh_late s v))

pub begin_held : (op : Op) (s : State) → IsFresh s → is_held (begin op s) ≡ true
begin_held op s v = rw v.empty (ground (arith, v.session, v.clean))

set_auth_user-IsFresh : (au : AuthUser) (s : State) → IsFresh s → IsFresh (set_auth_user au s)
set_auth_user-IsFresh au s v =
    rw v.session (record { empty = v.empty; session = refl; clean = v.clean })

-- `n` bytes of the data received are taken.
abbrev cut : State → ℕ → State
cut s n = record s { downstream_buf = drop n s.downstream_buf }

cut-IsFresh : (s : State) (n : ℕ) → IsFresh s → IsFresh (cut s n)
cut-IsFresh s n v = record { empty = v.empty; session = v.session; clean = v.clean }

-- The branches of the SOCKS5 header.
first_header_cases :
    (P : State → Type 0) (env : Env) (s : State)
    → P (fail s)
    → P (fail (cut s 3))
    → P (begin handshake_client_write (cut s 3))
    → ((op : Op) → P (begin op (cut s (2 + at s.downstream_buf 1))))
    → P (begin handshake_client_header_error s)
    → P (do_analysis_client_first_socks5_header env s)
unfolding do_analysis_client_first_socks5_header
first_header_cases P env s bad cut_bad plain chosen refused = ground (
  arith,
  bad,
  cut_bad,
  plain,
  chosen handshake_client_write,
  chosen auth_client_write,
  chosen handshake_client_header_error,
  refused,
)

-- The branches of a SOCKS5 method list.
enter_socks5_cases :
    (P : State → Type 0) (env : Env) (d : Bytes) (s : State)
    → P (fail s)
    → P (
        do_analysis_client_first_socks5_header env (record s {
          connect_type = socks5;
          upside_connect_type = upside_socks5;
          socks5_server = some false;
        }))
    → P (enter_socks5 env d s)
unfolding enter_socks5
enter_socks5_cases P env d s bad good = ground (arith, bad, good)

-- The branches of a login.
auth_client_read_cases :
    (P : State → Type 0) (env : Env) (b : Bytes) (s : State)
    → P (fail s)
    → P (begin auth_client_error s)
    → ((au : AuthUser) → P (begin auth_client_ok (set_auth_user au s)))
    → P (on_auth_client_read env b s)
unfolding on_auth_client_read
auth_client_read_cases P env b s bad refused accepted =
    elim (Option-cases (
      env.check_auth (take (at b 1) (drop 2 b))
        (take (at b (2 + at b 1)) (drop (2 + at b 1 + 1) b)))) [
          | inl e ↦ ground (arith, e, bad, refused)
          | inr (au, e) ↦ ground (arith, e, bad, accepted au)
        ]

module _ (env : Env) where
  first_header_held :
      (s : State) → IsFresh s → is_held (do_analysis_client_first_socks5_header env s) ≡ true
  first_header_held s v =
      first_header_cases (λ t. is_held t ≡ true) env s (fail_held s v)
        (fail_held (cut s 3) (cut-IsFresh s 3 v))
        (begin_held handshake_client_write (cut s 3) (cut-IsFresh s 3 v))
        (λ op.
          begin_held op (cut s (2 + at s.downstream_buf 1))
            (cut-IsFresh s (2 + at s.downstream_buf 1) v))
        (begin_held handshake_client_header_error s v)

  socks4_auth_late :
      (d : Bytes) (i : ℕ) (s : State) → IsFresh s → is_late (socks4_auth env d i s) ≡ true
  unfolding socks4_auth
  socks4_auth_late d i s v =
      let l = fresh_late s v in
      elim (Option-cases (env.check_auth_user_only (take (i - 8) (drop 8 d)))) [
        | inl e ↦ ground (arith, e, socks4_error_late 92 s l, socks4_command_late env d s l)
        | inr (au, e) ↦ ground (
          arith,
          e,
          socks4_error_late 92 s l,
          socks4_command_late env d s l,
          socks4_command_late env d (set_auth_user au s)
              (fresh_late (set_auth_user au s) (set_auth_user-IsFresh au s v)),
        )
      ]

  enter_socks5_held : (d : Bytes) (s : State) → IsFresh s → is_held (enter_socks5 env d s) ≡ true
  enter_socks5_held d s v =
      enter_socks5_cases (λ t. is_held t ≡ true) env d s (fail_held s v)
        (first_header_held
          (record s {
            connect_type = socks5;
            upside_connect_type = upside_socks5;
            socks5_server = some false;
          })
          (record { empty = v.empty; session = v.session; clean = v.clean }))

  down_ready_held :
      (u : ParsedUri) (blank : ℕ) (s : State)
      → IsFresh s
      → is_held (do_when_down_ready env (to_target u blank s)) ≡ true
  down_ready_held u blank s v =
      late_held (do_when_down_ready env (to_target u blank s))
        (down_ready_late env (to_target u blank s) (fresh_late s v))

  pub http_header_held :
      (s : State) → IsFresh s → is_held (do_analysis_client_first_http_header env s) ≡ true
  http_header_held s v =
      analysis_cases (λ t. is_held t ≡ true) env s (fail_held s v) (begin_held http_read s v)
        (begin_held http_407 s v) (λ u blank off. down_ready_held u blank s v)
        (λ au. fail_held (set_auth_user au s) (set_auth_user-IsFresh au s v))
        (λ au u blank. down_ready_held u blank (set_auth_user au s) (set_auth_user-IsFresh au s v))

  enter_http_held : (t : ConnectType) (s : State) → IsFresh s → is_held (enter_http env t s) ≡ true
  unfolding enter_http
  enter_http_held t s v =
      http_header_held
        (record s { connect_type = t; upside_connect_type = upside_socks5; http_server = true })
        (record { empty = v.empty; session = v.session; clean = v.clean })

  dispatch_held : (d : Bytes) (s : State) → IsFresh s → is_held (dispatch env d s) ≡ true
  dispatch_held d s v =
      dispatch_cases (λ t. is_held t ≡ true) env d s (enter_socks5_held d s v)
        (enter_socks4_cases (λ t. is_held t ≡ true) env d s (fail_held s v)
          (socks4_header_cases (λ t. is_held t ≡ true) env socks4_start (fail_held socks4_start f)
            (λ h i port.
              late_held
                (socks4_auth env s.downstream_buf i (record socks4_start { host = h; port = port }))
                (socks4_auth_late s.downstream_buf i (record socks4_start { host = h; port = port })
                  (record { empty = v.empty; session = v.session; clean = v.clean })))))
        (enter_http_held http_connect s v) (enter_http_held http_other s v)
        (fail_held (record s { connect_type = unknown })
          (record { empty = v.empty; session = v.session; clean = v.clean }))
    where
      socks4_start : State
      socks4_start = record s {
        connect_type = socks4;
        upside_connect_type = upside_socks5;
        socks4_server = some false;
      }

      f : IsFresh socks4_start
      f = record { empty = v.empty; session = v.session; clean = v.clean }

  pub first_read_held : (b : Bytes) (s : State) → IsFresh s → is_held (on_first_read env b s) ≡ true
  unfolding on_first_read
  first_read_held b s v = elim (Bool-cases (ltb (length b) 3)) [
    | inl short ↦ rw short (fail_held grown f)
    | inr enough ↦ rw enough (dispatch_held (s.downstream_buf ++ b) grown f)
  ]
    where
      grown : State
      grown = record s { downstream_buf = s.downstream_buf ++ b }

      f : IsFresh grown
      f = record { empty = v.empty; session = v.session; clean = v.clean }

  pub auth_client_read_held :
      (b : Bytes) (s : State) → IsFresh s → is_held (on_auth_client_read env b s) ≡ true
  auth_client_read_held b s v =
      auth_client_read_cases (λ t. is_held t ≡ true) env b s (fail_held s v)
        (begin_held auth_client_error s v)
        (λ au. begin_held auth_client_ok (set_auth_user au s) (set_auth_user-IsFresh au s v))
