-- ===== src/Handshake/Held/Cases.antt =====
-- The branches of a SOCKS4 request.
use socks5balancer_asio.Prelude.{
  ℕ, ◌+◌, ◌*◌, inl, inr, false, some, Bytes, arith, drop, Option-cases,
}
use socks5balancer_asio.Handshake.State.{State, Env, socks4, upside_socks5, at}
use socks5balancer_asio.Handshake.Complete.{fail}
use socks5balancer_asio.Handshake.Server4.{
  socks4_auth, socks4_host, null_byte_index, first_index, do_analysis_client_first_socks4_header,
}
use socks5balancer_asio.Handshake.Run.{enter_socks4}

-- The branches of the SOCKS4 header.
pub socks4_header_cases :
    (P : State → Type 0) (env : Env) (s : State)
    → P (fail s)
    → ((h : Bytes) (i port : ℕ)
        → P (socks4_auth env s.downstream_buf i (record s { host = h; port = port })))
    → P (do_analysis_client_first_socks4_header env s)
unfolding do_analysis_client_first_socks4_header
socks4_header_cases P env s bad good =
    let nulls = null_byte_index 8 (drop 8 s.downstream_buf) in
    elim (Option-cases (socks4_host env s.downstream_buf nulls)) [
      | inl e ↦ ground (arith, e, bad)
      | inr (h, e) ↦ ground (
        arith,
        e,
        bad,
        good h (first_index nulls) (at s.downstream_buf 2 * 256 + at s.downstream_buf 3),
      )
    ]

-- The branches of a SOCKS4 request.
pub enter_socks4_cases :
    (P : State → Type 0) (env : Env) (d : Bytes) (s : State)
    → P (fail s)
    → P (
        do_analysis_client_first_socks4_header env (record s {
          connect_type = socks4;
          upside_connect_type = upside_socks5;
          socks4_server = some false;
        }))
    → P (enter_socks4 env d s)
unfolding enter_socks4
enter_socks4_cases P env d s bad good = ground (arith, bad, good)
