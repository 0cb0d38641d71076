-- ===== src/Handshake/Run.antt =====
-- The handshake as a whole: the first bytes of the client, and the operations as they complete in
-- any order that the network gives.
use socks5balancer_asio.Prelude.{
  ℕ, ◌+◌, ◌≡◌, Bool, true, false, not, ◌&&◌, ◌||◌, List, [], ◌∷◌, ◌++◌, Bytes, codes, length, ltb,
  ◌==◌, if◌then◌else◌, some,
}
use socks5balancer_asio.Handshake.State.{
  State, Env, Op, ConnectType, socks5, socks4, http_connect, http_other, unknown, upside_socks5,
  first_read, auth_client_write, auth_client_read, auth_client_ok, auth_client_error,
  handshake_client_write, handshake_client_read, handshake_client_header_error,
  handshake_client_end_error, handshake_client_end, socks4_client_end_error, socks4_client_end,
  socks5_handshake_write, socks5_handshake_read, socks5_auth_write, socks5_auth_read,
  socks5_connect_write, socks5_connect_read, http_read, http_407, http_established, http_failed,
  initial, begin, at, peek,
}
use socks5balancer_asio.Handshake.Complete.{fail, do_when_error, do_when_down_end}
use socks5balancer_asio.Handshake.Client.{on_socks5_handshake_read, on_socks5_auth_read}
use socks5balancer_asio.Handshake.Server5.{
  do_analysis_client_first_socks5_header, on_auth_client_read, on_handshake_client_read,
}
use socks5balancer_asio.Handshake.Server4.{do_analysis_client_first_socks4_header}
use socks5balancer_asio.Handshake.Http.{do_analysis_client_first_http_header, on_http_read}
use socks5balancer_asio.Handshake.Ready.{on_socks5_connect_read}

-- A letter in either case.
abbrev is_letter : ℕ → ℕ → ℕ → Bool
is_letter upper lower c = c == upper || c == lower

unfoldable pub is_connect : Env → Bytes → Bool
is_connect env d =
    is_letter b'C' b'c' (peek env d 0)
    && is_letter b'O' b'o' (peek env d 1)
    && is_letter b'N' b'n' (peek env d 2)
    && is_letter b'N' b'n' (peek env d 3)
    && is_letter b'E' b'e' (peek env d 4)
    && is_letter b'C' b'c' (peek env d 5)
    && is_letter b'T' b't' (peek env d 6)

-- POST, PUT, PATCH, GET, HEAD, DELETE, OPTIONS and TRACE, by the first letter.
unfoldable pub is_http_letter : ℕ → Bool
is_http_letter c =
    is_letter b'P' b'p' c
    || is_letter b'G' b'g' c
    || is_letter b'H' b'h' c
    || is_letter b'D' b'd' c
    || is_letter b'O' b'o' c
    || is_letter b'T' b't' c

unfoldable pub enter_http : Env → ConnectType → State → State
enter_http env t s =
    do_analysis_client_first_http_header env
      (record s { connect_type = t; upside_connect_type = upside_socks5; http_server = true })

-- The branch of a SOCKS4 request.
unfoldable pub enter_socks4 : Env → Bytes → State → State
enter_socks4 env d s =
    if env.disable_socks4
    then fail s
    else if ltb (length d) 9 || not (peek env d (length d) == 0)
    then fail s
    else do_analysis_client_first_socks4_header env (record s {
      connect_type = socks4;
      upside_connect_type = upside_socks5;
      socks4_server = some false;
    })

-- The branch of a SOCKS5 method list.
unfoldable pub enter_socks5 : Env → Bytes → State → State
enter_socks5 env d s =
    if not (length d == 2 + at d 1)
    then fail s
    else do_analysis_client_first_socks5_header env (record s {
      connect_type = socks5;
      upside_connect_type = upside_socks5;
      socks5_server = some false;
    })

-- The dispatch on the data received so far.
unfoldable pub dispatch : Env → Bytes → State → State
dispatch env d s =
    if at d 0 == 0x05 && (at d 1 == 0x02 || at d 1 == 0x01) && (at d 2 == 0x02 || at d 2 == 0x00)
    then enter_socks5 env d s
    else if at d 0 == 0x04 && (at d 1 == 0x02 || at d 1 == 0x01)
    then enter_socks4 env d s
    else if is_connect env d
    then enter_http env http_connect s
    else if is_http_letter (at d 0)
    then enter_http env http_other s
    else fail (record s { connect_type = unknown })

-- The handler of `do_read_client_first_3_byte`; `b` is what was received.
unfoldable pub on_first_read : Env → Bytes → State → State
unfolding dispatch
on_first_read env b s =
    if ltb (length b) 3
    then fail (record s { downstream_buf = s.downstream_buf ++ b })
    else dispatch env (s.downstream_buf ++ b) (record s { downstream_buf = s.downstream_buf ++ b })

-- `start`, on a new handshake or on one whose session was released; `badParentPtr` is the other branch.
unfoldable pub start : State → State
start s =
    if s.tcp_relay_session
    then begin first_read s
    else if s.complete_down && s.complete_up
    then s
    else do_when_error s

abbrev pub data_407 : Bytes
data_407 =
    codes
      "HTTP/1.1 407 Proxy Authentication Required\r\nProxy-Authenticate: Basic realm=\"Access to internal site\", charset=\"UTF-8\"\r\n\r\n"

abbrev pub data_established : Bytes
data_established = codes "HTTP/1.1 200 Connection Established\r\n\r\n"

abbrev pub data_failed : Bytes
data_failed = codes "HTTP/1.1 503 Service Unavailable\r\n\r\n"

-- The data that a write sends.
unfoldable pub sent : Op → Bytes
sent auth_client_write = 0x05 ∷ 0x02 ∷ []
sent auth_client_ok = 0x01 ∷ 0x00 ∷ []
sent auth_client_error = 0x01 ∷ 0xff ∷ []
sent handshake_client_write = 0x05 ∷ 0x00 ∷ []
sent handshake_client_header_error = 0x05 ∷ 0xff ∷ []
sent (handshake_client_end_error e) =
    0x05 ∷ e ∷ 0x00 ∷ 0x01 ∷ 0x00 ∷ 0x00 ∷ 0x00 ∷ 0x00 ∷ 0x00 ∷ 0x00 ∷ []
sent (handshake_client_end b) = b
sent (socks4_client_end_error e) = 0x00 ∷ e ∷ 0x00 ∷ 0x00 ∷ 0x00 ∷ 0x00 ∷ 0x00 ∷ 0x00 ∷ []
sent socks4_client_end = 0x00 ∷ 90 ∷ 0x00 ∷ 0x00 ∷ 0x00 ∷ 0x00 ∷ 0x00 ∷ 0x00 ∷ []
sent (socks5_handshake_write b) = b
sent (socks5_auth_write b) = b
sent (socks5_connect_write b) = b
sent http_407 = data_407
sent http_established = data_established
sent http_failed = data_failed
sent _ = []

-- The handlers of the HTTP server's writes, once the data is sent: `do_send_407` reads the next
-- request, `do_send_Connection_Failed` ends the handshake with an error.
abbrev pub on_sent_407 : State → State
on_sent_407 s = begin http_read s

abbrev pub on_sent_connection_established : State → State
on_sent_connection_established s = do_when_down_end false s

abbrev pub on_sent_connection_failed : State → State
on_sent_connection_failed s = fail s

-- What a write leads to once all its data is sent; a read is no write.
unfoldable pub on_written : Op → State → State
on_written auth_client_write s = begin auth_client_read s
on_written auth_client_ok s = begin handshake_client_read s
on_written auth_client_error s = do_when_down_end true s
on_written handshake_client_write s = begin handshake_client_read s
on_written handshake_client_header_error s = do_when_down_end true s
on_written (handshake_client_end_error e) s = do_when_down_end true s
on_written (handshake_client_end b) s = do_when_down_end false s
on_written (socks4_client_end_error e) s = do_when_down_end true s
on_written socks4_client_end s = do_when_down_end false s
on_written (socks5_handshake_write b) s = begin socks5_handshake_read s
on_written (socks5_auth_write b) s = begin socks5_auth_read s
on_written (socks5_connect_write b) s = begin socks5_connect_read s
on_written http_407 s = on_sent_407 s
on_written http_established s = on_sent_connection_established s
on_written http_failed s = on_sent_connection_failed s
on_written first_read s = s
on_written auth_client_read s = s
on_written handshake_client_read s = s
on_written socks5_handshake_read s = s
on_written socks5_auth_read s = s
on_written socks5_connect_read s = s
on_written http_read s = s

-- The handlers of the writes: `ec` is the error flag, `n` the bytes transferred.
unfoldable pub resume_write : Op → Bool → ℕ → State → State
unfolding on_written sent
resume_write op ec n s =
    if ec then fail s else if not (n == length (sent op)) then fail s else on_written op s

-- The handlers of the reads, with no error; a write is no read.
unfoldable pub on_read : Env → Op → Bytes → State → State
on_read env first_read b s = on_first_read env b s
on_read env auth_client_read b s = on_auth_client_read env b s
on_read env handshake_client_read b s = on_handshake_client_read env b s
on_read env socks5_handshake_read b s = on_socks5_handshake_read env b s
on_read env socks5_auth_read b s = on_socks5_auth_read env b s
on_read env socks5_connect_read b s = on_socks5_connect_read b s
on_read env http_read b s = on_http_read env b s
on_read env _ b s = s

unfoldable pub resume_read : Env → Op → Bool → Bytes → State → State
unfolding on_read
resume_read env op ec b s = if ec then fail s else on_read env op b s

abbrev pub is_read : Op → Bool
is_read first_read = true
is_read auth_client_read = true
is_read handshake_client_read = true
is_read socks5_handshake_read = true
is_read socks5_auth_read = true
is_read socks5_connect_read = true
is_read http_read = true
is_read _ = false

-- The state once one pending operation is taken out, and its handler about to run.
abbrev pub taken : State → List Op → List Op → State
taken s before after = record s { pending = before ++ after }

-- Any pending operation may complete next, with any result.
pub data Step (env : Env) : State → State → Type 0 where
  writes :
      (s : State) (before after : List Op) (op : Op) (ec : Bool) (n : ℕ)
      → s.pending ≡ before ++ op ∷ after
      → is_read op ≡ false
      → Step env s (resume_write op ec n (taken s before after))
  reads :
      (s : State) (before after : List Op) (op : Op) (ec : Bool) (b : Bytes)
      → s.pending ≡ before ++ op ∷ after
      → is_read op ≡ true
      → Step env s (resume_read env op ec b (taken s before after))

pub data Reach (env : Env) : State → Type 0 where
  begins : (s : State) → s ≡ start initial → Reach env s
  steps : {s t : State} → Reach env s → Step env s t → Reach env t
