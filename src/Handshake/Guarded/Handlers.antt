-- ===== src/Handshake/Guarded/Handlers.antt =====
-- The handlers keep a known client known, and an unknown one out.
use socks5balancer_asio.Prelude.{
  ℕ, ◌≡◌, true, [], ◌∷◌, some, Bytes, arith, drop, length, inl, inr, Option-cases,
}
use socks5balancer_asio.Auth.Users.{AuthUser}
use socks5balancer_asio.Handshake.State.{
  State, Env, Op, begin, call, connect, bind, udp, at, null_session,
}
use socks5balancer_asio.Handshake.Client
use socks5balancer_asio.Handshake.Client.{
  do_socks5_connect_write, do_socks5_auth_write, on_socks5_handshake_read, on_socks5_auth_read,
  do_socks5_handshake_write, connect_message,
}
use socks5balancer_asio.Handshake.DownReady.{do_when_down_ready}
use socks5balancer_asio.Handshake.Server5.{
  do_handshake_client_end_error, on_command, on_handshake_client_read, do_handshake_client_end,
  set_auth_user, read_target,
}
use socks5balancer_asio.Handshake.Server4.{do_socks4_client_end_error, on_socks4_command}
use socks5balancer_asio.Handshake.Ready.{do_when_up_ready, do_when_up_ready_error}
use socks5balancer_asio.Handshake.Complete.{fail}
use socks5balancer_asio.Handshake.Guarded.{
  is_open, is_known, is_guarded, KeepsKnown, KeepsGuarded, uses_null-append, all_open-append,
  fail-IsSame,
}

pub noted_null : (s : State) → is_known (call null_session s) ≡ true
noted_null s = ground (arith, uses_null-append s.calls (null_session ∷ []))

pub set_auth_user_known : (au : AuthUser) (s : State) → is_known (set_auth_user au s) ≡ true
set_auth_user_known au s = ground (arith, noted_null s)

connect_write_known : (env : Env) → KeepsKnown (do_socks5_connect_write env)
unfolding do_socks5_connect_write
connect_write_known env s v = ground (arith, fail-IsSame s)

pub handshake_read_known : (env : Env) (b : Bytes) → KeepsKnown (on_socks5_handshake_read env b)
unfolding on_socks5_handshake_read do_socks5_auth_write
handshake_read_known env b s v = ground (arith, fail-IsSame s, connect_write_known env s v)

pub auth_read_known : (env : Env) (b : Bytes) → KeepsKnown (on_socks5_auth_read env b)
unfolding on_socks5_auth_read
auth_read_known env b s v = ground (arith, fail-IsSame s, connect_write_known env s v)

pub down_ready_known : (env : Env) → KeepsKnown (do_when_down_ready env)
unfolding do_when_down_ready Client.start do_socks5_handshake_write
down_ready_known env s v = ground (arith, fail-IsSame s)

pub end_error_known : (e : ℕ) → KeepsKnown (do_handshake_client_end_error e)
unfolding do_handshake_client_end_error
end_error_known e s v = ground (arith, fail-IsSame s)

command_known : (env : Env) (cmd : ℕ) → KeepsKnown (on_command env cmd)
unfolding on_command
command_known env cmd s v = ground (
  arith,
  fail-IsSame s,
  end_error_known 7 s v,
  down_ready_known env (record s { proxy_relay_mode = connect }) v,
  down_ready_known env (record s { socks5_server = some true; proxy_relay_mode = udp }) v,
  down_ready_known env (record (do_handshake_client_end_error 0x07 s) { proxy_relay_mode = bind })
      (end_error_known 7 s v),
)

pub handshake_client_read_known :
    (env : Env) (b : Bytes) → KeepsKnown (on_handshake_client_read env b)
unfolding on_handshake_client_read
handshake_client_read_known env b s v = elim (Option-cases (read_target env b)) [
  | inl e ↦ ground (arith, e, fail-IsSame s)
  | inr ((host, port), e) ↦ ground (
    arith,
    e,
    fail-IsSame s,
    command_known env (at b 1) (record s { host = host; port = port }) v,
  )
]

client_end_known : KeepsKnown do_handshake_client_end
unfolding do_handshake_client_end
client_end_known s v = ground (arith, fail-IsSame s, end_error_known 7 s v)

pub socks4_error_known : (e : ℕ) → KeepsKnown (do_socks4_client_end_error e)
unfolding do_socks4_client_end_error
socks4_error_known e s v = ground (arith, fail-IsSame s)

pub socks4_command_known : (env : Env) (d : Bytes) → KeepsKnown (on_socks4_command env d)
unfolding on_socks4_command
socks4_command_known env d s v = ground (
  arith,
  fail-IsSame s,
  down_ready_known env (record s { proxy_relay_mode = connect; downstream_buf = drop (length d) d })
      v,
  down_ready_known env
      (record (do_socks4_client_end_error 91 (record s { downstream_buf = drop (length d) d })) {
        proxy_relay_mode = bind;
      })
      (socks4_error_known 91 (record s { downstream_buf = drop (length d) d }) v),
)

pub up_ready_known : KeepsKnown do_when_up_ready
unfolding do_when_up_ready
up_ready_known s v =
    let s' : State = record s { ready_up = true } in
    ground (arith, fail-IsSame s, fail-IsSame s', client_end_known s' v)

pub up_ready_error_known : KeepsKnown do_when_up_ready_error
unfolding do_when_up_ready_error
up_ready_error_known s v =
    let s' : State = record s { ready_up = true; complete_up_error = true } in
    ground
      (arith, fail-IsSame s, fail-IsSame s', end_error_known 1 s' v, socks4_error_known 91 s' v)

-- A guarded state that does not know the client, with one more open operation.
pub open_more :
    (op : Op) (s : State) → is_open op ≡ true → is_guarded s ≡ true → is_guarded (begin op s) ≡ true
open_more op s o v = ground (arith, all_open-append s.pending (op ∷ []))

pub fail_guarded : KeepsGuarded fail
fail_guarded s v = ground (arith, fail-IsSame s)
