-- ===== src/Tests/Servers.antt =====
-- A pool of three servers, of which the second is disabled by hand and the third never tested.
use socks5balancer_asio.Prelude.{ℕ, true, false, List, [], ◌∷◌, some, none, zero, suc, arith}
use socks5balancer_asio.Config.{Config, Upstream, RuleEnum, loop}
use socks5balancer_asio.Pool.Server.{UpstreamServer, Pool, IsIndexed}
use socks5balancer_asio.Delay.Collect.{DelayCollect, time_ms_invalid}
use socks5balancer_asio.Pool.Timers.{Checker}
use socks5balancer_asio.Tests.Ring.{ring}

abbrev pub upstream : Upstream
upstream = record {
  host = b'a' ∷ [];
  port = 1080;
  name = b'n' ∷ [];
  auth_user = [];
  auth_pwd = [];
  disable = false;
  slow_impl = false;
}

abbrev pub config_of : RuleEnum → Config
config_of rule = record {
  auth_client_info = [];
  upstream = upstream ∷ upstream ∷ [];
  test_remote_host = b'h' ∷ [];
  test_remote_port = 443;
  upstream_select_rule = rule;
  server_change_time = 5_000;
  disable_connect_test = false;
  tradition_tcp_relay = false;
  disable_socks4 = false;
  sleep_time = 1_800;
  tcp_check_period = 500;
  tcp_check_start = 1;
  connect_check_period = 300;
  connect_check_start = 1;
  addition_check_period = 10;
}

abbrev pub config : Config
config = config_of loop

abbrev pub untested_config : Config
untested_config = record config { disable_connect_test = true }

abbrev pub collect : DelayCollect ring
collect = record {
  last_tcp_ping = time_ms_invalid;
  last_http_ping = time_ms_invalid;
  last_relay_first_delay = time_ms_invalid;
  history_tcp_ping = record {
    q = record { room = 3; stored = []; fits = omega arith };
    max_size = 3;
  };
  history_http_ping = record {
    q = record { room = 3; stored = []; fits = omega arith };
    max_size = 3;
  };
  history_relay_first_delay = record {
    q = record { room = 3; stored = []; fits = omega arith };
    max_size = 3;
  };
  tradition_tcp_relay = false;
}

-- A server that no test has reached yet.
abbrev pub fresh : ℕ → UpstreamServer ring
fresh i = record {
  host = b'a' ∷ [];
  port = 1080;
  name = b'n' ∷ [];
  index = i;
  auth_user = [];
  auth_pwd = [];
  last_online_time = 0;
  last_connect_time = 0;
  last_connect_failed = true;
  last_connect_check_result = [];
  is_offline = true;
  connect_count = 0;
  is_manual_disable = false;
  disable = false;
  slow_impl = false;
  last_online_ping = time_ms_invalid;
  last_connect_ping = time_ms_invalid;
  tradition_tcp_relay = false;
  delay_collect = collect;
}

abbrev pub online : ℕ → UpstreamServer ring
online i = record (fresh i) {
  last_online_time = 7;
  last_connect_time = 8;
  last_connect_failed = false;
  is_offline = false;
}

abbrev pub servers : List (UpstreamServer ring)
servers = online 0 ∷ record (online 1) { is_manual_disable = true } ∷ fresh 2 ∷ []

pub servers-IsIndexed : IsIndexed servers
servers-IsIndexed zero u e = ground arith
servers-IsIndexed (suc zero) u e = ground arith
servers-IsIndexed (suc (suc zero)) u e = ground arith
servers-IsIndexed (suc (suc (suc i))) u e = cc

abbrev pub pool_of : RuleEnum → Pool ring
pool_of rule = record {
  config = config_of rule;
  servers = servers;
  last_use_upstream_index = 1;
  last_change_upstream_time = 10;
  last_connect_come_time = 20;
}

abbrev pub checker : Checker ring
checker = record {
  pool = pool_of loop;
  tcp_checker_timer = some 100;
  connect_checker_timer = some 101;
  addition_timer = none;
  force_checker_timer = none;
  is_addition_timer_running = false;
  launched = [];
}

abbrev pub idle_checker : Checker ring
idle_checker = record checker { pool = record (pool_of loop) { config = untested_config } }
