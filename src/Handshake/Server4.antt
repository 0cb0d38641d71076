-- ===== src/Handshake/Server4.antt =====
-- Socks4ServerImpl.cpp: the SOCKS4 and SOCKS4a handshake with the client.
use socks5balancer_asio.Prelude.{
  ℕ, suc, ◌+◌, ◌-◌, ◌*◌, Bool, not, ◌&&◌, ◌||◌, List, [], ◌∷◌, Option, none, some, Bytes, length,
  take, drop, ltb, leb, ◌==◌, if◌then◌else◌,
}
use socks5balancer_asio.Handshake.State.{
  State, Env, connect, bind, socks4_client_end_error, begin, at, peek,
}
use socks5balancer_asio.Handshake.Complete.{fail}
use socks5balancer_asio.Handshake.DownReady.{do_when_down_ready}
use socks5balancer_asio.Handshake.Server5.{set_auth_user}

-- The positions of the zero bytes of `d` from position `i` on, which is where `d` starts.
unfoldable pub null_byte_index : ℕ → Bytes → List ℕ
null_byte_index i [] = []
null_byte_index i (b ∷ bs) =
    let rest = null_byte_index (suc i) bs in if b == 0 then i ∷ rest else rest

unfoldable pub do_socks4_client_end_error : ℕ → State → State
do_socks4_client_end_error error s =
    if error == 91 || error == 92 then begin (socks4_client_end_error error) s else fail s

-- 0.0.0.x with x not 0
abbrev pub is_socks4a : Bytes → Bool
is_socks4a d = at d 4 == 0 && at d 5 == 0 && at d 6 == 0 && not (at d 7 == 0)

-- The host of a request, `none` where the zero bytes do not fit.
unfoldable pub socks4_host : Env → Bytes → List ℕ → Option Bytes
socks4_host env d [] = none
socks4_host env d (i ∷ []) =
    if is_socks4a d then none else some (env.v4_to_string (take 4 (drop 4 d)))
socks4_host env d (i ∷ j ∷ []) =
    if is_socks4a d
    then (if ltb (j - i) 2 then none else some (take (j - (i + 1)) (drop (i + 1) d)))
    else none
socks4_host env d (i ∷ j ∷ k ∷ rest) = none

-- The switch on the command. BIND is refused, and then treated as accepted.
unfoldable pub on_socks4_command : Env → Bytes → State → State
unfolding do_socks4_client_end_error
on_socks4_command env d s =
    if at d 1 == 0x01
    then do_when_down_ready env
        (record s { proxy_relay_mode = connect; downstream_buf = drop (length d) d })
    else if at d 1 == 0x02
    then do_when_down_ready env
        (record (do_socks4_client_end_error 91 (record s { downstream_buf = drop (length d) d })) {
          proxy_relay_mode = bind;
        })
    else fail s

-- The check of the user name, which ends at the first zero byte `i`.
unfoldable pub socks4_auth : Env → Bytes → ℕ → State → State
unfolding on_socks4_command do_socks4_client_end_error
socks4_auth env d i s =
    if env.need_auth
    then (if leb i 8
        then do_socks4_client_end_error 92 s
        else elim (env.check_auth_user_only (take (i - 8) (drop 8 d))) [
          | none ↦ do_socks4_client_end_error 92 s
          | some au ↦ on_socks4_command env d (set_auth_user au s)
        ])
    else on_socks4_command env d s

abbrev pub first_index : List ℕ → ℕ
first_index [] = 0
first_index (i ∷ is) = i

-- `d[len]` is the byte behind the received data.
unfoldable pub do_analysis_client_first_socks4_header : Env → State → State
unfolding null_byte_index socks4_host socks4_auth
do_analysis_client_first_socks4_header env s =
    let d = s.downstream_buf in
    let nulls = null_byte_index 8 (drop 8 d) in
    if ltb (length d) 9
    then fail s
    else if not (peek env d (length d) == 0)
    then fail s
    else elim (socks4_host env d nulls) [
      | none ↦ fail s
      | some host ↦
          socks4_auth env d (first_index nulls)
            (record s { host = host; port = at d 2 * 256 + at d 3 })
    ]
