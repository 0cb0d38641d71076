-- ===== src/Pool/Server.antt =====
-- `UpstreamServer` and the pool's own state. The servers live in the pool's list and are named by
-- their position; mutexes and atomics are not modelled, since each method runs under the pool's lock.
use socks5balancer_asio.Prelude.{
  ℕ, suc, ◌≡◌, ℤ, Bool, true, false, not, ◌&&◌, List, [], ◌∷◌, Option, none, some, Bytes, length,
  get_elem?, ltb, ◌==◌, if◌then◌else◌,
}
use socks5balancer_asio.Config.{Config, Upstream}
use socks5balancer_asio.Delay.Buffer.{CircularBuffer}
use socks5balancer_asio.Delay.Collect.{DelayCollect, make_collect, time_ms_invalid}

pub record UpstreamServer (cb : CircularBuffer) : Type 0 where
  pub host : Bytes
  pub port : ℕ
  pub name : Bytes
  pub index : ℕ
  pub auth_user : Bytes
  pub auth_pwd : Bytes
  pub last_online_time : ℕ
  pub last_connect_time : ℕ
  pub last_connect_failed : Bool
  pub last_connect_check_result : Bytes
  pub is_offline : Bool
  pub connect_count : ℕ
  pub is_manual_disable : Bool
  pub disable : Bool
  pub slow_impl : Bool
  pub last_online_ping : ℤ
  pub last_connect_ping : ℤ
  pub tradition_tcp_relay : Bool
  pub delay_collect : DelayCollect cb

pub record Pool (cb : CircularBuffer) : Type 0 where
  pub config : Config
  pub servers : List (UpstreamServer cb)
  pub last_use_upstream_index : ℕ
  pub last_change_upstream_time : ℕ
  pub last_connect_come_time : ℕ

-- The constructor, on one entry of the configuration; `limit` is the size of the delay histories.
unfoldable pub make_server : (cb : CircularBuffer) → ℕ → ℕ → Upstream → Bool → UpstreamServer cb
make_server cb limit i r tradition = record {
  host = r.host;
  port = r.port;
  name = r.name;
  index = i;
  auth_user = r.auth_user;
  auth_pwd = r.auth_pwd;
  last_online_time = 0;
  last_connect_time = 0;
  last_connect_failed = true;
  last_connect_check_result = [];
  is_offline = true;
  connect_count = 0;
  is_manual_disable = r.disable;
  disable = r.disable;
  slow_impl = r.slow_impl;
  last_online_ping = time_ms_invalid;
  last_connect_ping = time_ms_invalid;
  tradition_tcp_relay = tradition;
  delay_collect = make_collect cb limit tradition;
}

-- The loop of `setConfig`, from position `i` on.
unfoldable pub make_servers :
    (cb : CircularBuffer) → ℕ → ℕ → List Upstream → Bool → List (UpstreamServer cb)
make_servers cb limit i [] tradition = []
make_servers cb limit i (r ∷ rs) tradition =
    make_server cb limit i r tradition ∷ make_servers cb limit (suc i) rs tradition

module _ {cb : CircularBuffer} where
  unfoldable pub set_config : ℕ → Config → Pool cb → Pool cb
  unfolding make_servers
  set_config limit c p = record p {
    config = c;
    servers = make_servers cb limit 0 c.upstream c.tradition_tcp_relay;
  }

  unfoldable pub update_online_time : UpstreamServer cb → ℕ → UpstreamServer cb
  update_online_time u now = record u { is_offline = false; last_online_time = now }

  unfoldable pub update_last_connect_come_time : Pool cb → ℕ → Pool cb
  update_last_connect_come_time p now = record p { last_connect_come_time = now }

  unfoldable pub force_set_last_use_upstream_index : Pool cb → ℕ → Pool cb
  force_set_last_use_upstream_index p i =
      if ltb i (length p.servers) then record p { last_use_upstream_index = i } else p

  -- `none` is a null reference.
  unfoldable pub check_server : Config → Option (UpstreamServer cb) → Bool
  check_server c none = false
  check_server c (some u) =
      if c.disable_connect_test
      then not u.is_manual_disable
      else not (u.last_connect_time == 0)
        && not (u.last_online_time == 0)
        && not u.last_connect_failed
        && not u.is_offline
        && not u.is_manual_disable

  -- `setConfig` numbers the servers by their positions.
  abbrev pub IsIndexed : List (UpstreamServer cb) → Type 0
  IsIndexed xs = (i : ℕ) (u : UpstreamServer cb) → get_elem? xs i ≡ some u → u.index ≡ i
