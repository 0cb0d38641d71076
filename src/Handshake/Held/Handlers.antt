-- ===== src/Handshake/Held/Handlers.antt =====
-- The handlers behind the login start no early operation.
use socks5balancer_asio.Prelude.{
  ℕ, true, [], ◌∷◌, some, Bytes, arith, drop, length, inl, inr, Option-cases,
}
use socks5balancer_asio.Handshake.State.{
  State, Env, connect, bind, udp, at, http_established, http_failed,
}
use socks5balancer_asio.Handshake.Client
use socks5balancer_asio.Handshake.Client.{
  do_socks5_connect_write, do_socks5_auth_write, on_socks5_handshake_read, on_socks5_auth_read,
  do_socks5_handshake_write, connect_message,
}
use socks5balancer_asio.Handshake.DownReady.{do_when_down_ready}
use socks5balancer_asio.Handshake.Server5.{
  do_handshake_client_end_error, on_command, on_handshake_client_read, do_handshake_client_end,
  read_target,
}
use socks5balancer_asio.Handshake.Server4.{do_socks4_client_end_error, on_socks4_command}
use socks5balancer_asio.Handshake.Ready.{do_when_up_ready, do_when_up_ready_error}
use socks5balancer_asio.Handshake.Guarded.{fail-IsSame}
use socks5balancer_asio.Handshake.Held.{KeepsLate, no_early-append}
use socks5balancer_asio.Prelude.{if◌then◌else◌, is_empty}
use socks5balancer_asio.Handshake.State.{
  socks5_connect_write, socks5_auth_write, socks5_handshake_write, handshake_client_end_error,
  handshake_client_end, socks4_client_end_error, socks4_client_end,
}
use socks5balancer_asio.Handshake.Client.{auth_message}
use socks5balancer_asio.Handshake.Server5.{end_reply}

connect_write_late : (env : Env) → KeepsLate (do_socks5_connect_write env)
unfolding do_socks5_connect_write
connect_write_late env s v = elim (Option-cases (connect_message env s)) [
  | inl e ↦ ground (arith, e, fail-IsSame s)
  | inr (b, e) ↦ ground (arith, e, no_early-append s.pending (socks5_connect_write b ∷ []))
]

pub handshake_read_late : (env : Env) (b : Bytes) → KeepsLate (on_socks5_handshake_read env b)
unfolding on_socks5_handshake_read do_socks5_auth_write
handshake_read_late env b s v = ground (
  arith,
  fail-IsSame s,
  connect_write_late env s v,
  no_early-append s.pending
      (socks5_auth_write (auth_message env.server_auth_user env.server_auth_pwd) ∷ []),
)

pub auth_read_late : (env : Env) (b : Bytes) → KeepsLate (on_socks5_auth_read env b)
unfolding on_socks5_auth_read
auth_read_late env b s v = ground (arith, fail-IsSame s, connect_write_late env s v)

pub down_ready_late : (env : Env) → KeepsLate (do_when_down_ready env)
unfolding do_when_down_ready Client.start do_socks5_handshake_write
down_ready_late env s v = ground (
  arith,
  fail-IsSame s,
  no_early-append s.pending (
      socks5_handshake_write
        (0x05 ∷ 0x01 ∷ (if is_empty env.server_auth_user then 0x00 else 0x02) ∷ [])
      ∷ []),
)

pub end_error_late : (e : ℕ) → KeepsLate (do_handshake_client_end_error e)
unfolding do_handshake_client_end_error
end_error_late e s v =
    ground (arith, fail-IsSame s, no_early-append s.pending (handshake_client_end_error e ∷ []))

command_late : (env : Env) (cmd : ℕ) → KeepsLate (on_command env cmd)
unfolding on_command
command_late env cmd s v = ground (
  arith,
  fail-IsSame s,
  end_error_late 7 s v,
  down_ready_late env (record s { proxy_relay_mode = connect }) v,
  down_ready_late env (record s { socks5_server = some true; proxy_relay_mode = udp }) v,
  down_ready_late env (record (do_handshake_client_end_error 0x07 s) { proxy_relay_mode = bind })
      (end_error_late 7 s v),
)

pub handshake_client_read_late :
    (env : Env) (b : Bytes) → KeepsLate (on_handshake_client_read env b)
unfolding on_handshake_client_read
handshake_client_read_late env b s v = elim (Option-cases (read_target env b)) [
  | inl e ↦ ground (arith, e, fail-IsSame s)
  | inr ((host, port), e) ↦
      ground (
        arith,
        e,
        fail-IsSame s,
        command_late env (at b 1) (record s { host = host; port = port }) v,
      )
]

client_end_late : KeepsLate do_handshake_client_end
unfolding do_handshake_client_end
client_end_late s v = elim (Option-cases (end_reply s)) [
  | inl e ↦ ground (arith, e, fail-IsSame s)
  | inr (b, e) ↦
      ground
        (arith, e, end_error_late 7 s v, no_early-append s.pending (handshake_client_end b ∷ []))
]

pub socks4_error_late : (e : ℕ) → KeepsLate (do_socks4_client_end_error e)
unfolding do_socks4_client_end_error
socks4_error_late e s v =
    ground (arith, fail-IsSame s, no_early-append s.pending (socks4_client_end_error e ∷ []))

pub socks4_command_late : (env : Env) (d : Bytes) → KeepsLate (on_socks4_command env d)
unfolding on_socks4_command
socks4_command_late env d s v = ground (
  arith,
  fail-IsSame s,
  down_ready_late env (record s { proxy_relay_mode = connect; downstream_buf = drop (length d) d })
      v,
  down_ready_late env
      (record (do_socks4_client_end_error 91 (record s { downstream_buf = drop (length d) d })) {
        proxy_relay_mode = bind;
      })
      (socks4_error_late 91 (record s { downstream_buf = drop (length d) d }) v),
)

pub up_ready_late : KeepsLate do_when_up_ready
unfolding do_when_up_ready
up_ready_late s v =
    let s' : State = record s { ready_up = true } in
    ground (
      arith,
      fail-IsSame s,
      fail-IsSame s',
      client_end_late s' v,
      no_early-append s.pending (socks4_client_end ∷ []),
      no_early-append s.pending (http_established ∷ []),
    )

pub up_ready_error_late : KeepsLate do_when_up_ready_error
unfolding do_when_up_ready_error
up_ready_error_late s v =
    let s' : State = record s { ready_up = true; complete_up_error = true } in
    ground (
      arith,
      fail-IsSame s,
      fail-IsSame s',
      end_error_late 1 s' v,
      socks4_error_late 91 s' v,
      no_early-append s.pending (http_failed ∷ []),
    )
