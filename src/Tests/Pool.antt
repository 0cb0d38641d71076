-- ===== src/Tests/Pool.antt =====
-- The pool at concrete inputs.
use socks5balancer_asio.Prelude.{
  ℕ, suc, ◌≡◌, ◌≢◌, ◌⊎◌, ◌≤◌, refl, true, false, List, [], ◌∷◌, some, none, pos, arith,
}
use socks5balancer_asio.Config.{random, loop, one_by_one, force_only_one, inherit}
use socks5balancer_asio.Pool.Server.{UpstreamServer, Pool, check_server, set_config}
use socks5balancer_asio.Pool.Select.{
  Found, picked, get_next_server, try_get_last_server, get_server_by_hint, get_server_global,
}
use socks5balancer_asio.Pool.Select.Cycle.{ahead, SearchResult}
use socks5balancer_asio.Pool.Select.Next.{get_next_server_searches}
use socks5balancer_asio.Pool.Select.Last.{try_get_last_server_searches}
use socks5balancer_asio.Pool.Select.Hint.{
  IsForcedPick, PickResult, get_server_global_picks, get_server_by_hint_picks,
}
use socks5balancer_asio.Pool.Sound.{
  Call, choose, force_index, connect_come, run, IsSound, run-set_config-IsSound,
}
use socks5balancer_asio.Pool.Checks.{TestResult, tcp_ok, tcp_error, connect_ok, record_all}
use socks5balancer_asio.Pool.Checks.Validity.{
  check_server-record_all_ok, check_server-record_all_error,
}
use socks5balancer_asio.Delay.Bounded.{AreBounded}
use socks5balancer_asio.Pool.Timers.{
  Checker, tcp_test, test_each, start_check_timer, tcp_checker_fires, force_check_now,
  do_tcp_checker_timer_impl,
}
use socks5balancer_asio.Pool.Timers.Schedule.{
  forces, forces_one, tcp_fires, step, Runs, done, next, start_check_timer-start_check_timer,
  Runs-launch_none,
}
use socks5balancer_asio.Pool.Timers.Targets.{TestsEnabled, step-TestsEnabled}
use socks5balancer_asio.Tests.Ring.{ring}
use socks5balancer_asio.Tests.Servers.{
  config, config_of, collect, fresh, servers, servers-IsIndexed, pool_of, checker, idle_checker,
}

abbrev lowest : ℕ → ℕ
lowest b = 0

lowest_fair : (b : ℕ) → lowest b ≤ b
lowest_fair b = omega arith

get_next_server_searches_example :
    (r : Found ring) × (get_next_server config servers 1 ≡ some r)
    × SearchResult config servers (λ k. ahead 3 1 (suc k)) 1 r
get_next_server_searches_example = get_next_server_searches config servers 1 (omega arith)

try_get_last_server_searches_example :
    (r : Found ring) × (try_get_last_server config servers 1 ≡ some r)
    × SearchResult config servers (ahead 3 1) 1 r
try_get_last_server_searches_example = try_get_last_server_searches config servers 1 (omega arith)

get_server_global_picks_example :
    ((random ≡ force_only_one)
      × IsForcedPick (config_of random) servers 1 (get_server_global (pool_of random) lowest 30 31))
    ⊎ PickResult (config_of random) servers 1 (get_server_global (pool_of random) lowest 30 31)
get_server_global_picks_example =
    get_server_global_picks (pool_of random) lowest 30 31 (omega arith) lowest_fair
      servers-IsIndexed

get_server_by_hint_picks_example :
    ((one_by_one ≡ inherit)
      × (get_server_by_hint (pool_of loop) one_by_one 2 lowest 30 31 false ≡ picked none 2 10))
    ⊎ (((one_by_one ≡ force_only_one)
          × IsForcedPick config servers 2
              (get_server_by_hint (pool_of loop) one_by_one 2 lowest 30 31 false))
        ⊎ PickResult config servers 2
            (get_server_by_hint (pool_of loop) one_by_one 2 lowest 30 31 false))
get_server_by_hint_picks_example =
    get_server_by_hint_picks (pool_of loop) one_by_one 2 lowest 30 31 (omega arith) lowest_fair
      servers-IsIndexed

abbrev empty_pool : Pool ring
empty_pool = record {
  config = config;
  servers = [];
  last_use_upstream_index = 0;
  last_change_upstream_time = 0;
  last_connect_come_time = 0;
}

abbrev calls : List Call
calls = choose lowest 30 31 ∷ force_index 1 ∷ connect_come 40 ∷ []

run-set_config-IsSound_example : IsSound (run (set_config 3 config empty_pool) calls)
run-set_config-IsSound_example =
    run-set_config-IsSound 3 config empty_pool calls (omega arith) refl (lowest_fair, tt)

collect-AreBounded : AreBounded collect
collect-AreBounded = record {
  tcp = record { within = omega arith; some_room = omega arith; keeps_one = omega arith };
  http = record { within = omega arith; some_room = omega arith; keeps_one = omega arith };
  first = record { within = omega arith; some_room = omega arith; keeps_one = omega arith };
}

abbrev good_results : List TestResult
good_results = connect_ok (pos 20) 200 9 ∷ tcp_ok (pos 5) 8 ∷ tcp_error 4 ∷ []

check_server-record_all_ok_example :
    (u' : UpstreamServer ring) × (record_all (fresh 0) good_results ≡ some u')
    × (check_server config (some u') ≡ true)
check_server-record_all_ok_example =
    check_server-record_all_ok config (fresh 0) good_results refl refl collect-AreBounded
      (omega arith, (omega arith, tt)) refl refl

abbrev bad_results : List TestResult
bad_results = connect_ok (pos 20) 200 9 ∷ tcp_error 8 ∷ tcp_ok (pos 5) 4 ∷ []

check_server-record_all_error_example :
    (u' : UpstreamServer ring) × (record_all (fresh 0) bad_results ≡ some u')
    × (check_server config (some u') ≡ false)
check_server-record_all_error_example =
    check_server-record_all_error config (fresh 0) bad_results refl collect-AreBounded
      (omega arith, (omega arith, tt)) refl

start_check_timer-start_check_timer_example :
    start_check_timer (start_check_timer checker 5) 6 ≡ start_check_timer checker 5
start_check_timer-start_check_timer_example = start_check_timer-start_check_timer checker 5 6

abbrev later_checker : Checker ring
later_checker = record idle_checker { tcp_checker_timer = some 600 }

idle-Runs : Runs later_checker idle_checker (tcp_fires false 30 ∷ forces 31 ∷ [])
unfolding step tcp_checker_fires force_check_now do_tcp_checker_timer_impl
idle-Runs = next refl (next refl (done refl))

Runs-launch_none_example : later_checker.launched ≡ idle_checker.launched
Runs-launch_none_example =
    Runs-launch_none idle_checker later_checker (tcp_fires false 30 ∷ forces 31 ∷ []) refl idle-Runs

abbrev fired : Checker ring
fired = record checker {
  tcp_checker_timer = some 600;
  launched = tcp_test 0 (some 0) ∷ tcp_test 2 (some 0) ∷ [];
}

fires_tested : step checker (tcp_fires false 30) ≡ some fired
unfolding step tcp_checker_fires do_tcp_checker_timer_impl test_each
fires_tested = refl

is_no_forces_one : (i : ℕ) → tcp_fires false 30 ≢ forces_one i
is_no_forces_one i = λ e. cc

step-TestsEnabled_example : TestsEnabled checker fired
step-TestsEnabled_example =
    step-TestsEnabled checker fired (tcp_fires false 30) is_no_forces_one fires_tested
