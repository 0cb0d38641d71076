-- ===== src/Tests/Pipe.antt =====
-- A session that relays three bytes from its upstream server to its client.
use socks5balancer_asio.Relay.Transfer.{on_upstream_read}
use socks5balancer_asio.Relay.Session.{on_connect, on_resolve, track}
use socks5balancer_asio.Pool.Select.{
  get_next_server, get_server_by_hint, get_server_global, next_loop,
}
use socks5balancer_asio.Relay.Select.{Readings, try_connect_upstream}
use socks5balancer_asio.Prelude.{
  ◌≡◌, refl, true, false, List, [], ◌∷◌, ◌++◌, none, is_some, AllSome, ◌>>=◌, arith,
}
use socks5balancer_asio.Config.{loop}
use socks5balancer_asio.Pool.Server.{set_config, check_server, make_server}
use socks5balancer_asio.Relay.State.{RelayOp, resolve, connect, upstream_read, downstream_read}
use socks5balancer_asio.Relay.World.{World, success}
use socks5balancer_asio.Relay.Run.{
  Income, Event, make_session, start, handle, taken, resolves, connects, upstream_reads,
}
use socks5balancer_asio.Relay.Pipe.Lanes.{flight, down_lane, up_lane}
use socks5balancer_asio.Relay.Pipe.Effects.{HasEffect, handle-HasEffect}
use socks5balancer_asio.Relay.Pipe.Runs.{WholeRun, starts, runs, WholeRun-flight}
use socks5balancer_asio.Relay.Retries.{
  Failure, refused, no_address, empty_answer, fail_attempts, fail_attempts-start,
}
use socks5balancer_asio.Tests.Ring.{ring}
use socks5balancer_asio.Tests.Servers.{untested_config, pool_of}
use socks5balancer_asio.Tests.Sessions.{session_list}
use socks5balancer_asio.Tests.Relay.{income, readings, or_before, done}

abbrev relaying : Income
relaying = record income { tradition_tcp_relay = true }

abbrev fresh : World ring session_list
fresh = record {
  pool = set_config 3 untested_config (pool_of loop);
  statistics = none;
  session = make_session relaying;
}

abbrev accepted : World ring session_list
accepted = or_before fresh (start readings fresh)

abbrev after_event : Event → List RelayOp → World ring session_list → World ring session_list
after_event e rest w = or_before w (handle readings e (taken [] rest w))

abbrev resolved : World ring session_list
resolved = after_event (resolves success false) [] accepted

abbrev connected : World ring session_list
connected = after_event (connects success 9) [] resolved

abbrev received : World ring session_list
received =
    after_event (upstream_reads success (1 ∷ 2 ∷ 3 ∷ []) (10, 10)) (downstream_read ∷ []) connected

start_runs : is_some (start readings fresh) ≡ true
unfolding start try_connect_upstream make_session get_server_global get_server_by_hint set_config
    get_next_server next_loop check_server make_server
start_runs = refl

resolves_runs : is_some (handle readings (resolves success false) (taken [] [] accepted)) ≡ true
unfolding handle on_resolve
resolves_runs = refl

connects_runs : is_some (handle readings (connects success 9) (taken [] [] resolved)) ≡ true
unfolding handle on_connect on_resolve start try_connect_upstream make_session get_server_global
    get_server_by_hint set_config get_next_server next_loop check_server make_server
connects_runs = refl

reads_runs :
    is_some (
      handle readings
        (upstream_reads success (1 ∷ 2 ∷ 3 ∷ []) (10, 10))
        (taken [] (downstream_read ∷ []) connected))
    ≡ true
unfolding handle on_upstream_read track on_connect on_resolve start try_connect_upstream
    make_session get_server_global get_server_by_hint set_config get_next_server next_loop
    check_server make_server
reads_runs = refl

resolve_pending : accepted.session.pending ≡ resolve ∷ []
unfolding start try_connect_upstream make_session get_server_global get_server_by_hint set_config
    get_next_server next_loop check_server make_server
resolve_pending = refl

connect_pending : resolved.session.pending ≡ connect ∷ []
unfolding start handle on_resolve
connect_pending = refl

read_pending : connected.session.pending ≡ upstream_read ∷ downstream_read ∷ []
unfolding start handle on_connect on_resolve try_connect_upstream make_session get_server_global
    get_server_by_hint set_config get_next_server next_loop check_server make_server
read_pending = refl

received_run : WholeRun received
received_run =
    runs connected received readings (upstream_reads success (1 ∷ 2 ∷ 3 ∷ []) (10, 10)) []
      (downstream_read ∷ [])
      (runs resolved connected readings (connects success 9) [] []
        (runs accepted resolved readings (resolves success false) [] []
          (starts _ none relaying readings accepted (done fresh _ start_runs)) resolve_pending tt
          (done accepted _ resolves_runs))
        connect_pending tt (done resolved _ connects_runs))
      read_pending tt (done connected _ reads_runs)

WholeRun-flight_example :
    (received.session.from_upstream
      ≡ received.session.to_downstream
        ++ flight down_lane received.session.pending received.session.upstream_data)
    × (received.session.from_downstream
        ≡ received.session.to_upstream
          ++ flight up_lane received.session.pending received.session.downstream_data)
WholeRun-flight_example = WholeRun-flight received received_run

handle-HasEffect_example :
    HasEffect
      (upstream_reads success (1 ∷ 2 ∷ 3 ∷ []) (10, 10))
      (taken [] (downstream_read ∷ []) connected)
      received
handle-HasEffect_example =
    handle-HasEffect readings (upstream_reads success (1 ∷ 2 ∷ 3 ∷ []) (10, 10))
      (taken [] (downstream_read ∷ []) connected) received (done connected _ reads_runs)

abbrev failures : List (Failure × Readings)
failures = (refused, readings) ∷ (no_address, readings) ∷ (empty_answer, readings) ∷ []

fail_attempts-start_example :
    AllSome (λ v. v.session.pending ≡ []) (start readings fresh >>= λ w. fail_attempts failures w)
fail_attempts-start_example =
    fail_attempts-start (set_config 3 untested_config (pool_of loop)) none relaying readings
      failures (omega arith) (omega arith)
