-- ===== src/Tests/Relay.antt =====
-- A session that is accepted, resolves its server's name and is connected; and the statistics.
use socks5balancer_asio.Relay.Statistics.Listen.{add_session_listen}
use socks5balancer_asio.Relay.Statistics.Client.{add_session_client}
use socks5balancer_asio.Relay.Statistics.Sessions.{session_info, SessionInfo}
use socks5balancer_asio.Relay.Statistics.Upstream.{add_session_upstream}
use socks5balancer_asio.Relay.Session.{on_connect, on_resolve}
use socks5balancer_asio.Pool.Select.{
  after_global, get_next_server, get_server_by_hint, get_server_global, next_loop,
}
use socks5balancer_asio.Prelude.{
  ℕ, ◌%◌, ◌≤◌, ◌<◌, ◌≡◌, refl, Bool, true, false, [], ◌∷◌, Option, none, some, codes, arith,
  is_some, ◌==◌, length, size_mod, ◌^◌,
}
use socks5balancer_asio.Config.{loop}
use socks5balancer_asio.Pool.Server.{make_servers, set_config, check_server, make_server}
use socks5balancer_asio.Relay.Id.{nth_relay_id, nth_relay_id_unique}
use socks5balancer_asio.Relay.State.{resolve, connect}
use socks5balancer_asio.Relay.Statistics.Info.{
  Info, make_info, calc_byte, close_all_session, calc_sessions_number,
}
use socks5balancer_asio.Relay.Statistics.Maps.{Statistics}
use socks5balancer_asio.Relay.Statistics.Bytes.{up, down, reports, calc_byte-reports}
use socks5balancer_asio.Relay.Statistics.Expiry.{ids, live, close_all_session-calc_sessions_number}
use socks5balancer_asio.Relay.World.{World, Reading, success}
use socks5balancer_asio.Relay.Select.{Readings, try_connect_upstream}
use socks5balancer_asio.Relay.Run.{
  Income, make_session, start, handle, taken, resolves, connects, runs, Sessions, world_of, joined,
  acts, accepts, Reach, begins, moves,
}
use socks5balancer_asio.Relay.Counts.Lists.{count_at, total}
use socks5balancer_asio.Relay.Counts.Runs.{Reach-counts}
use socks5balancer_asio.Tests.Ring.{ring}
use socks5balancer_asio.Tests.Servers.{untested_config, pool_of}
use socks5balancer_asio.Tests.Sessions.{session_list}

abbrev no_statistics : Statistics session_list
no_statistics = record {
  upstream_index = [];
  client_index = [];
  listen_index = [];
  auth_user_index = [];
  last_connect_server_index = 0;
}

abbrev pub income : Income
income = record {
  relay_id = 1;
  client_endpoint_addr_string = codes "10.0.0.1";
  client_endpoint_addr_port_string = codes "10.0.0.1:5000";
  listen_endpoint_addr_string = codes "10.0.0.2:5000";
  retry_limit = 2;
  tradition_tcp_relay = false;
  disable_connection_tracker = false;
}

abbrev pub reading : Reading
reading = record { draw = λ b. 0; now = 7; now' = 7 }

abbrev pub readings : Readings
readings = record { by_client = reading; by_listen = reading; by_all = reading }

abbrev at_start : Sessions ring session_list
at_start = record {
  pool = set_config 3 untested_config (pool_of loop);
  statistics = some no_statistics;
  sessions = [];
}

abbrev pub or_before :
    World ring session_list → Option (World ring session_list) → World ring session_list
or_before w none = w
or_before w (some v) = v

abbrev accepted : World ring session_list
accepted =
    or_before (world_of at_start (make_session income))
      (start readings (world_of at_start (make_session income)))

abbrev resolved : World ring session_list
resolved = or_before accepted (handle readings (resolves success false) (taken [] [] accepted))

abbrev connected : World ring session_list
connected = or_before resolved (handle readings (connects success 9) (taken [] [] resolved))

pub done :
    (w : World ring session_list) (o : Option (World ring session_list))
    → is_some o ≡ true
    → o ≡ some (or_before w o)
done w none e = cc
done w (some v) e = refl

start_runs : is_some (start readings (world_of at_start (make_session income))) ≡ true
unfolding start try_connect_upstream make_session get_server_global get_server_by_hint set_config
    get_next_server next_loop check_server make_server
start_runs = refl

resolves_runs : is_some (handle readings (resolves success false) (taken [] [] accepted)) ≡ true
unfolding handle on_resolve
resolves_runs = refl

connects_runs : is_some (handle readings (connects success 9) (taken [] [] resolved)) ≡ true
unfolding handle on_connect on_resolve start try_connect_upstream make_session get_server_global
    get_server_by_hint set_config get_next_server next_loop check_server make_server
    add_session_upstream session_info add_session_client add_session_listen
connects_runs = refl

resolve_pending : accepted.session.pending ≡ resolve ∷ []
unfolding start try_connect_upstream make_session get_server_global get_server_by_hint set_config
    get_next_server next_loop check_server make_server
resolve_pending = refl

connect_pending : resolved.session.pending ≡ connect ∷ []
unfolding start handle on_resolve
connect_pending = refl

connected-Reach : Reach at_start (joined connected (connected.session ∷ []))
connected-Reach =
    moves
      (moves (moves begins (accepts at_start income readings accepted (done _ _ start_runs))) (
        acts _ [] [] accepted.session resolved refl (
          runs _ resolved readings (resolves success false) [] [] resolve_pending
            (done _ _ resolves_runs))))
      (acts _ [] [] resolved.session connected refl (
        runs _ connected readings (connects success 9) [] [] connect_pending
          (done _ _ connects_runs)))

two_servers : length connected.pool.servers ≡ 2
unfolding start handle on_connect on_resolve try_connect_upstream make_session get_server_global
    get_server_by_hint set_config get_next_server next_loop check_server make_server
    add_session_upstream session_info add_session_client add_session_listen after_global
    make_servers
two_servers = refl

inside : 1 < length connected.pool.servers
inside = omega (arith, two_servers)

Reach-counts_example :
    count_at 1 connected.pool.servers % size_mod ≡ total 1 (connected.session ∷ []) % size_mod
Reach-counts_example =
    Reach-counts 3 untested_config (pool_of loop) (some no_statistics)
      (joined connected (connected.session ∷ [])) connected-Reach 1 inside

abbrev five : ℕ
five = 5

nth_relay_id_unique_example :
    (1 ≤ nth_relay_id 0 3)
    × (nth_relay_id 0 3 ≤ 2 ^ 63)
    × (nth_relay_id 0 3 ≡ nth_relay_id 0 8 → five ≡ 0)
nth_relay_id_unique_example = nth_relay_id_unique 2 five (omega arith)

abbrev entry : Info session_list
entry = make_info session_list

calc_byte-reports_example :
    ((calc_byte (reports (up 3 ∷ down 4 ∷ up 5 ∷ []) (calc_byte entry))).byte_up_change ≡ 8)
    × ((calc_byte (reports (up 3 ∷ down 4 ∷ up 5 ∷ []) (calc_byte entry))).byte_down_change ≡ 4)
    × (8 ≤ (calc_byte (reports (up 3 ∷ down 4 ∷ up 5 ∷ []) (calc_byte entry))).byte_up_change_max)
    × (4 ≤ (calc_byte (reports (up 3 ∷ down 4 ∷ up 5 ∷ []) (calc_byte entry))).byte_down_change_max)
unfolding make_info
calc_byte-reports_example =
    calc_byte-reports (up 3 ∷ down 4 ∷ up 5 ∷ []) entry
      (record { sized_up = omega arith; sized_down = omega arith })

abbrev is_second : ℕ → Bool
is_second i = i == 2

abbrev info_of : ℕ → SessionInfo
info_of i = record {
  upstream_index = 0;
  client_endpoint_addr_port_string = codes "10.0.0.1:5000";
  listen_endpoint_addr_string = codes "10.0.0.2:5000";
  raw_ptr = i;
  start_time = 0;
  host = [];
  post = 0;
  target_endpoint_addr_string = [];
  auth_user_id = 0;
}

abbrev two_sessions : Info session_list
two_sessions = record entry { sessions = info_of 1 ∷ info_of 2 ∷ [] }

close_all_session-calc_sessions_number_example :
    let (closed, after) = close_all_session is_second two_sessions in
    (closed ≡ ids (live is_second two_sessions.sessions))
    × (after.sessions ≡ live is_second two_sessions.sessions)
    × ((calc_sessions_number is_second after).0 ≡ length closed)
    × ((calc_sessions_number is_second after).1.sessions ≡ after.sessions)
close_all_session-calc_sessions_number_example =
    close_all_session-calc_sessions_number is_second two_sessions
