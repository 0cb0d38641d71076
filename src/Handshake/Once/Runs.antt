-- ===== src/Handshake/Once/Runs.antt =====
-- The count of callbacks over a whole handshake.
use socks5balancer_asio.Prelude.{
  ℕ, refl, sym, subst, Bool, true, false, [], ◌∷◌, ◌++◌, some, inl, Bytes, arith, length, ◌-◌,
}
use socks5balancer_asio.Handshake.State.{
  State, Env, Op, ConnectType, socks5, socks4, http_connect, http_other, unknown, upside_socks5,
  initial, http_read, http_407, http_established, http_failed, at, first_read, auth_client_write,
  auth_client_read, auth_client_ok, auth_client_error, handshake_client_write,
  handshake_client_read, handshake_client_header_error, handshake_client_end_error,
  handshake_client_end, socks4_client_end_error, socks4_client_end, socks5_handshake_write,
  socks5_handshake_read, socks5_auth_write, socks5_auth_read, socks5_connect_write,
  socks5_connect_read,
}
use socks5balancer_asio.Handshake.Ready.{
  do_when_up_ready, do_when_up_ready_error, on_socks5_connect_read, read_bind,
}
use socks5balancer_asio.Handshake.Server5.{set_auth_user}
use socks5balancer_asio.Handshake.Http.{
  do_analysis_client_first_http_header, on_http_read, to_target,
}
use socks5balancer_asio.Handshake.Http.Cases.{analysis_cases}
use socks5balancer_asio.Handshake.Run.{
  enter_socks5, enter_socks4, enter_http, dispatch, on_first_read, start, on_written, resume_write,
  on_read, resume_read, taken, Step, Reach, writes, reads, begins, steps,
}
use socks5balancer_asio.Handshake.Once.{
  IsOnce, watched, Keeps, fail-IsOnce, do_when_down_end-IsOnce, do_when_up_end-IsOnce,
}
use socks5balancer_asio.Handshake.Once.Handlers.{
  down_ready-IsOnce, set_auth_user-IsOnce, auth_client_read-IsOnce, handshake_read-IsOnce,
  auth_read-IsOnce, first_header-IsOnce, handshake_client_read-IsOnce, socks4_header-IsOnce,
  up_ready-IsOnce, up_ready_error-IsOnce,
}

connect_read-IsOnce : (b : Bytes) → Keeps (on_socks5_connect_read b)
unfolding on_socks5_connect_read
connect_read-IsOnce b s v =
    let s' : State = record s {
      bind_port = at b (length b - 2) ∷ at b (length b - 1) ∷ [];
      bind_host = read_bind b;
    } in
    ground (
      arith,
      fail-IsOnce s v,
      do_when_up_end-IsOnce (do_when_up_ready_error s) (up_ready_error-IsOnce s v),
      do_when_up_end-IsOnce (do_when_up_ready s') (up_ready-IsOnce s' v),
    )

enter_socks5-IsOnce : (env : Env) (d : Bytes) → Keeps (enter_socks5 env d)
unfolding enter_socks5
enter_socks5-IsOnce env d s v = ground (
  arith,
  fail-IsOnce s v,
  first_header-IsOnce env
      (record s {
        connect_type = socks5;
        upside_connect_type = upside_socks5;
        socks5_server = some false;
      })
      v,
)

enter_socks4-IsOnce : (env : Env) (d : Bytes) → Keeps (enter_socks4 env d)
unfolding enter_socks4
enter_socks4-IsOnce env d s v = ground (
  arith,
  fail-IsOnce s v,
  socks4_header-IsOnce env
      (record s {
        connect_type = socks4;
        upside_connect_type = upside_socks5;
        socks4_server = some false;
      })
      v,
)

http_header-IsOnce : (env : Env) → Keeps (do_analysis_client_first_http_header env)
http_header-IsOnce env s v =
    analysis_cases (λ t. IsOnce (watched t)) env s (fail-IsOnce s v) v v
      (λ u blank off. down_ready-IsOnce env (to_target u blank s) v)
      (λ au. fail-IsOnce (set_auth_user au s) (set_auth_user-IsOnce au s v))
      (λ au u blank.
        down_ready-IsOnce env (to_target u blank (set_auth_user au s))
          (set_auth_user-IsOnce au s v))

enter_http-IsOnce : (env : Env) (t : ConnectType) → Keeps (enter_http env t)
unfolding enter_http
enter_http-IsOnce env t s v =
    http_header-IsOnce env
      (record s { connect_type = t; upside_connect_type = upside_socks5; http_server = true }) v

dispatch-IsOnce : (env : Env) (d : Bytes) → Keeps (dispatch env d)
unfolding dispatch
dispatch-IsOnce env d s v = ground (
  arith,
  fail-IsOnce (record s { connect_type = unknown }) v,
  enter_socks5-IsOnce env d s v,
  enter_socks4-IsOnce env d s v,
  enter_http-IsOnce env http_connect s v,
  enter_http-IsOnce env http_other s v,
)

first_read-IsOnce : (env : Env) (b : Bytes) → Keeps (on_first_read env b)
unfolding on_first_read
first_read-IsOnce env b s v =
    let s' : State = record s { downstream_buf = s.downstream_buf ++ b } in
    ground (arith, fail-IsOnce s' v, dispatch-IsOnce env (s.downstream_buf ++ b) s' v)

on_written-IsOnce : (op : Op) → Keeps (on_written op)
unfolding on_written
on_written-IsOnce auth_client_error s v = do_when_down_end-IsOnce true s v
on_written-IsOnce handshake_client_header_error s v = do_when_down_end-IsOnce true s v
on_written-IsOnce (handshake_client_end_error e) s v = do_when_down_end-IsOnce true s v
on_written-IsOnce (handshake_client_end b) s v = do_when_down_end-IsOnce false s v
on_written-IsOnce (socks4_client_end_error e) s v = do_when_down_end-IsOnce true s v
on_written-IsOnce socks4_client_end s v = do_when_down_end-IsOnce false s v
on_written-IsOnce auth_client_write s v = v
on_written-IsOnce auth_client_ok s v = v
on_written-IsOnce handshake_client_write s v = v
on_written-IsOnce (socks5_handshake_write b) s v = v
on_written-IsOnce (socks5_auth_write b) s v = v
on_written-IsOnce (socks5_connect_write b) s v = v
on_written-IsOnce http_established s v = do_when_down_end-IsOnce false s v
on_written-IsOnce http_failed s v = fail-IsOnce s v
on_written-IsOnce http_407 s v = v
on_written-IsOnce http_read s v = v
on_written-IsOnce first_read s v = v
on_written-IsOnce auth_client_read s v = v
on_written-IsOnce handshake_client_read s v = v
on_written-IsOnce socks5_handshake_read s v = v
on_written-IsOnce socks5_auth_read s v = v
on_written-IsOnce socks5_connect_read s v = v

on_read-IsOnce : (env : Env) (op : Op) (b : Bytes) → Keeps (on_read env op b)
unfolding on_read on_http_read
on_read-IsOnce env first_read b s v = first_read-IsOnce env b s v
on_read-IsOnce env auth_client_read b s v = auth_client_read-IsOnce env b s v
on_read-IsOnce env handshake_client_read b s v = handshake_client_read-IsOnce env b s v
on_read-IsOnce env socks5_handshake_read b s v = handshake_read-IsOnce env b s v
on_read-IsOnce env socks5_auth_read b s v = auth_read-IsOnce env b s v
on_read-IsOnce env socks5_connect_read b s v = connect_read-IsOnce b s v
on_read-IsOnce env http_read b s v =
    http_header-IsOnce env (record s { downstream_buf = s.downstream_buf ++ b }) v
on_read-IsOnce env _ b s v = v

resume_write-IsOnce : (op : Op) (ec : Bool) (n : ℕ) → Keeps (resume_write op ec n)
unfolding resume_write
resume_write-IsOnce op ec n s v = ground (arith, fail-IsOnce s v, on_written-IsOnce op s v)

resume_read-IsOnce : (env : Env) (op : Op) (ec : Bool) (b : Bytes) → Keeps (resume_read env op ec b)
unfolding resume_read
resume_read-IsOnce env op true b s v = fail-IsOnce s v
resume_read-IsOnce env op false b s v = on_read-IsOnce env op b s v

Step-IsOnce : (env : Env) {s t : State} → Step env s t → IsOnce (watched s) → IsOnce (watched t)
Step-IsOnce env (writes s before after op ec n p w) v =
    resume_write-IsOnce op ec n (taken s before after) v
Step-IsOnce env (reads s before after op ec b p w) v =
    resume_read-IsOnce env op ec b (taken s before after) v

begins-IsOnce : IsOnce (watched (start initial))
unfolding start initial
begins-IsOnce = record { held = refl; together = refl; budget = refl; justified = inl refl }

-- In every state of a handshake, whatever order its operations complete in and whatever they bring: the relay session has been called back at most once; it
-- has not been called back exactly as long as the handshake holds it and both callbacks; and it was told
-- of completion only if both sides are complete.
pub Reach-IsOnce : (env : Env) (s : State) → Reach env s → IsOnce (watched s)
Reach-IsOnce env s (begins _ e) = subst (λ x. IsOnce (watched x)) (sym e) begins-IsOnce
Reach-IsOnce env t (steps r step) = Step-IsOnce env step (Reach-IsOnce env _ r)
