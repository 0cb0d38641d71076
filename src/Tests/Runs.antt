-- ===== src/Tests/Runs.antt =====
-- Runs of the handshake: a SOCKS5 client that offers the login and breaks off, and one that logs in
-- and asks for a connection.
use socks5balancer_asio.Prelude.{◌≡◌, refl, true, false, [], ◌∷◌}
use socks5balancer_asio.Prelude.{some, Bytes}
use socks5balancer_asio.Handshake.State.{auth_client_read, auth_client_ok, handshake_client_read}
use socks5balancer_asio.Handshake.State.{State, initial, first_read, auth_client_write}
use socks5balancer_asio.Handshake.Run.{
  start, resume_read, resume_write, on_written, sent, on_read, on_first_read, dispatch,
  enter_socks5, taken, Reach, reads, writes, begins, steps,
}
use socks5balancer_asio.Handshake.Server5.{
  on_auth_client_read, on_handshake_client_read, read_target, on_command,
  do_analysis_client_first_socks5_header,
}
use socks5balancer_asio.Handshake.Once.{IsOnce, watched}
use socks5balancer_asio.Handshake.Once.Runs.{Reach-IsOnce}
use socks5balancer_asio.Tests.Handshake.{env, carol, dotted}
use socks5balancer_asio.Auth.Users.{AuthUser}
use socks5balancer_asio.Handshake.Client
use socks5balancer_asio.Handshake.DownReady.{do_when_down_ready}
use socks5balancer_asio.Handshake.Relay.{request}
use socks5balancer_asio.Handshake.Guarded.{uses_null}
use socks5balancer_asio.Handshake.Held.Runs.{Reach-authenticated, Reach-clean}

abbrev offered : State
offered = resume_read env first_read false (0x05 ∷ 0x01 ∷ 0x02 ∷ []) (taken (start initial) [] [])

started_pending : (start initial).pending ≡ first_read ∷ []
unfolding start initial
started_pending = refl

offered_pending : offered.pending ≡ auth_client_write ∷ []
unfolding start initial resume_read on_read on_first_read dispatch
    do_analysis_client_first_socks5_header enter_socks5
offered_pending = refl

abbrev broken_off : State
broken_off = resume_write auth_client_write true 0 (taken offered [] [])

broken_off-Reach : Reach env broken_off
broken_off-Reach =
    steps
      (steps (begins (start initial) refl) (
        reads (start initial) [] [] first_read false (0x05 ∷ 0x01 ∷ 0x02 ∷ []) started_pending
          refl))
      (writes offered [] [] auth_client_write true 0 offered_pending refl)

Reach-IsOnce_example : IsOnce (watched broken_off)
Reach-IsOnce_example = Reach-IsOnce env broken_off broken_off-Reach

abbrev logging_in : State
logging_in = resume_write auth_client_write false 2 (taken offered [] [])

logging_in_pending : logging_in.pending ≡ auth_client_read ∷ []
unfolding start initial resume_read on_read on_first_read dispatch
    do_analysis_client_first_socks5_header enter_socks5 resume_write on_written sent
logging_in_pending = refl

abbrev login : Bytes
login = 0x01 ∷ 1 ∷ b'c' ∷ 1 ∷ b'w' ∷ []

abbrev logged_in : State
logged_in = resume_read env auth_client_read false login (taken logging_in [] [])

logged_in_pending : logged_in.pending ≡ auth_client_ok ∷ []
unfolding start initial resume_read on_read on_first_read dispatch
    do_analysis_client_first_socks5_header enter_socks5 resume_write on_written sent
    on_auth_client_read
logged_in_pending = refl

abbrev welcomed : State
welcomed = resume_write auth_client_ok false 2 (taken logged_in [] [])

welcomed_pending : welcomed.pending ≡ handshake_client_read ∷ []
unfolding start initial resume_read on_read on_first_read dispatch
    do_analysis_client_first_socks5_header enter_socks5 resume_write on_written sent
    on_auth_client_read
welcomed_pending = refl

abbrev asked : State
asked = resume_read env handshake_client_read false (request 1 dotted 1 187) (taken welcomed [] [])

asked_ready : asked.ready_down ≡ true
unfolding start initial resume_read on_read on_first_read dispatch
    do_analysis_client_first_socks5_header enter_socks5 resume_write on_written sent
    on_auth_client_read on_handshake_client_read read_target on_command do_when_down_ready
    Client.start
asked_ready = refl

asked-Reach : Reach env asked
asked-Reach =
    steps
      (steps
        (steps
          (steps
            (steps (begins (start initial) refl) (
              reads (start initial) [] [] first_read false (0x05 ∷ 0x01 ∷ 0x02 ∷ []) started_pending
                refl))
            (writes offered [] [] auth_client_write false 2 offered_pending refl))
          (reads logging_in [] [] auth_client_read false login logging_in_pending refl))
        (writes logged_in [] [] auth_client_ok false 2 logged_in_pending refl))
      (reads welcomed [] [] handshake_client_read false (request 1 dotted 1 187) welcomed_pending
        refl)

Reach-authenticated_example : (u : AuthUser) × (asked.auth_user ≡ some u)
Reach-authenticated_example = Reach-authenticated env asked refl asked-Reach asked_ready

Reach-clean_example : uses_null asked.calls ≡ false
Reach-clean_example = Reach-clean env asked asked-Reach

asked_user : asked.auth_user ≡ some carol
unfolding start initial resume_read on_read on_first_read dispatch
    do_analysis_client_first_socks5_header enter_socks5 resume_write on_written sent
    on_auth_client_read on_handshake_client_read read_target on_command do_when_down_ready
    Client.start
asked_user = refl
