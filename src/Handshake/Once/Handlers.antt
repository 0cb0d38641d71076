-- ===== src/Handshake/Once/Handlers.antt =====
-- The handlers of both sides keep the count of callbacks.
use socks5balancer_asio.Prelude.{
  ℕ, refl, true, some, Bytes, arith, drop, take, length, ◌+◌, ◌*◌, ◌-◌, inl, inr, Option-cases,
}
use socks5balancer_asio.Auth.Users.{AuthUser}
use socks5balancer_asio.Handshake.State.{State, Env, connect, bind, udp, at, null_session}
use socks5balancer_asio.Handshake.Client
use socks5balancer_asio.Handshake.Client.{
  do_socks5_connect_write, do_socks5_auth_write, on_socks5_handshake_read, on_socks5_auth_read,
  do_socks5_handshake_write, connect_message,
}
use socks5balancer_asio.Handshake.DownReady.{do_when_down_ready}
use socks5balancer_asio.Handshake.Server5.{
  do_analysis_client_first_socks5_header, on_auth_client_read, do_handshake_client_end_error,
  on_command, on_handshake_client_read, do_handshake_client_end, set_auth_user, read_target,
}
use socks5balancer_asio.Handshake.Server4.{
  do_socks4_client_end_error, on_socks4_command, socks4_auth,
  do_analysis_client_first_socks4_header, socks4_host, null_byte_index, first_index,
}
use socks5balancer_asio.Handshake.Ready.{do_when_up_ready, do_when_up_ready_error}
use socks5balancer_asio.Handshake.Once.{Keeps, noted, fail-IsOnce}

connect_write-IsOnce : (env : Env) → Keeps (do_socks5_connect_write env)
unfolding do_socks5_connect_write
connect_write-IsOnce env s v = ground (arith, fail-IsOnce s v)

pub handshake_read-IsOnce : (env : Env) (b : Bytes) → Keeps (on_socks5_handshake_read env b)
unfolding on_socks5_handshake_read do_socks5_auth_write
handshake_read-IsOnce env b s v = ground (arith, fail-IsOnce s v, connect_write-IsOnce env s v)

pub auth_read-IsOnce : (env : Env) (b : Bytes) → Keeps (on_socks5_auth_read env b)
unfolding on_socks5_auth_read
auth_read-IsOnce env b s v = ground (arith, fail-IsOnce s v, connect_write-IsOnce env s v)

pub down_ready-IsOnce : (env : Env) → Keeps (do_when_down_ready env)
unfolding do_when_down_ready Client.start do_socks5_handshake_write
down_ready-IsOnce env s v = ground (arith, fail-IsOnce s v)

pub first_header-IsOnce : (env : Env) → Keeps (do_analysis_client_first_socks5_header env)
unfolding do_analysis_client_first_socks5_header
first_header-IsOnce env s v =
    ground (
      arith,
      fail-IsOnce s v,
      fail-IsOnce (record s { downstream_buf = drop 3 s.downstream_buf }) v,
    )

pub auth_client_read-IsOnce : (env : Env) (b : Bytes) → Keeps (on_auth_client_read env b)
unfolding on_auth_client_read
auth_client_read-IsOnce env b s v = ground (arith, fail-IsOnce s v, noted null_session s refl v)

end_error-IsOnce : (e : ℕ) → Keeps (do_handshake_client_end_error e)
unfolding do_handshake_client_end_error
end_error-IsOnce e s v = ground (arith, fail-IsOnce s v)

command-IsOnce : (env : Env) (cmd : ℕ) → Keeps (on_command env cmd)
unfolding on_command
command-IsOnce env cmd s v = ground (
  arith,
  fail-IsOnce s v,
  end_error-IsOnce 7 s v,
  down_ready-IsOnce env (record s { proxy_relay_mode = connect }) v,
  down_ready-IsOnce env (record s { socks5_server = some true; proxy_relay_mode = udp }) v,
  down_ready-IsOnce env (record (do_handshake_client_end_error 0x07 s) { proxy_relay_mode = bind })
      (end_error-IsOnce 7 s v),
)

pub handshake_client_read-IsOnce : (env : Env) (b : Bytes) → Keeps (on_handshake_client_read env b)
unfolding on_handshake_client_read
handshake_client_read-IsOnce env b s v = elim (Option-cases (read_target env b)) [
  | inl e ↦ ground (arith, e, fail-IsOnce s v)
  | inr ((host, port), e) ↦ ground (
    arith,
    e,
    fail-IsOnce s v,
    command-IsOnce env (at b 1) (record s { host = host; port = port }) v,
  )
]

pub client_end-IsOnce : Keeps do_handshake_client_end
unfolding do_handshake_client_end
client_end-IsOnce s v = ground (arith, fail-IsOnce s v, end_error-IsOnce 7 s v)

socks4_error-IsOnce : (e : ℕ) → Keeps (do_socks4_client_end_error e)
unfolding do_socks4_client_end_error
socks4_error-IsOnce e s v = ground (arith, fail-IsOnce s v)

socks4_command-IsOnce : (env : Env) (d : Bytes) → Keeps (on_socks4_command env d)
unfolding on_socks4_command
socks4_command-IsOnce env d s v = ground (
  arith,
  fail-IsOnce s v,
  down_ready-IsOnce env
      (record s { proxy_relay_mode = connect; downstream_buf = drop (length d) d }) v,
  down_ready-IsOnce env
      (record (do_socks4_client_end_error 91 (record s { downstream_buf = drop (length d) d })) {
        proxy_relay_mode = bind;
      })
      (socks4_error-IsOnce 91 (record s { downstream_buf = drop (length d) d }) v),
)

pub set_auth_user-IsOnce : (au : AuthUser) → Keeps (set_auth_user au)
set_auth_user-IsOnce au s v = ground (arith, noted null_session s refl v)

socks4_auth-IsOnce : (env : Env) (d : Bytes) (i : ℕ) → Keeps (socks4_auth env d i)
unfolding socks4_auth
socks4_auth-IsOnce env d i s v =
    elim (Option-cases (env.check_auth_user_only (take (i - 8) (drop 8 d)))) [
      | inl e ↦ ground (arith, e, socks4_error-IsOnce 92 s v, socks4_command-IsOnce env d s v)
      | inr (au, e) ↦ ground (
        arith,
        e,
        socks4_error-IsOnce 92 s v,
        socks4_command-IsOnce env d s v,
        socks4_command-IsOnce env d (set_auth_user au s) (set_auth_user-IsOnce au s v),
      )
    ]

pub socks4_header-IsOnce : (env : Env) → Keeps (do_analysis_client_first_socks4_header env)
unfolding do_analysis_client_first_socks4_header
socks4_header-IsOnce env s v =
    let nulls = null_byte_index 8 (drop 8 s.downstream_buf) in
    elim (Option-cases (socks4_host env s.downstream_buf nulls)) [
      | inl e ↦ ground (arith, e, fail-IsOnce s v)
      | inr (h, e) ↦
          let port : ℕ = at s.downstream_buf 2 * 256 + at s.downstream_buf 3 in
          ground (
            arith,
            e,
            fail-IsOnce s v,
            socks4_auth-IsOnce env s.downstream_buf (first_index nulls)
                (record s { host = h; port = port }) v,
          )
    ]

pub up_ready-IsOnce : Keeps do_when_up_ready
unfolding do_when_up_ready
up_ready-IsOnce s v =
    let s' : State = record s { ready_up = true } in
    ground (arith, fail-IsOnce s v, fail-IsOnce s' v, client_end-IsOnce s' v)

pub up_ready_error-IsOnce : Keeps do_when_up_ready_error
unfolding do_when_up_ready_error
up_ready_error-IsOnce s v =
    let s' : State = record s { ready_up = true; complete_up_error = true } in
    ground (
      arith,
      fail-IsOnce s v,
      fail-IsOnce s' v,
      end_error-IsOnce 1 s' v,
      socks4_error-IsOnce 91 s' v,
    )
