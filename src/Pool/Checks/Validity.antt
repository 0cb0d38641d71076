-- ===== src/Pool/Checks/Validity.antt =====
-- Which results make a server valid for `checkServer`.
use socks5balancer_asio.Prelude.{
  ◌<◌, ◌≡◌, refl, Bool, true, false, List, [], ◌∷◌, ◌++◌, decimal, Option, none, some, arith,
  if◌then◌else◌,
}
use socks5balancer_asio.Config.{Config}
use socks5balancer_asio.Delay.Buffer.{CircularBuffer}
use socks5balancer_asio.Delay.Collect.{time_ms_invalid}
use socks5balancer_asio.Delay.Bounded.{
  AreBounded, push_tcp_ping-AreBounded, push_http_ping-AreBounded,
}
use socks5balancer_asio.Pool.Server.{UpstreamServer, check_server}
use socks5balancer_asio.Pool.Checks.{
  status_code_text, TestResult, tcp_ok, tcp_error, connect_ok, connect_error, tcp_test_ok,
  tcp_test_error, connect_test_ok, connect_test_error, record_result, record_all,
}

-- The outcome of the newest TCP test of a history.
abbrev pub last_tcp : List TestResult → Option Bool
last_tcp [] = none
last_tcp (tcp_ok _ _ ∷ rs) = some true
last_tcp (tcp_error _ ∷ rs) = some false
last_tcp (_ ∷ rs) = last_tcp rs

-- The outcome of the newest connect test of a history.
abbrev pub last_connect : List TestResult → Option Bool
last_connect [] = none
last_connect (connect_ok _ _ _ ∷ rs) = some true
last_connect (connect_error _ ∷ rs) = some false
last_connect (_ ∷ rs) = last_connect rs

-- Every success is recorded after the epoch of the clock.
abbrev pub ArePositive : List TestResult → Type 0
ArePositive [] = Unit
ArePositive (tcp_ok _ now ∷ rs) = (0 < now) × ArePositive rs
ArePositive (connect_ok _ _ now ∷ rs) = (0 < now) × ArePositive rs
ArePositive (_ ∷ rs) = ArePositive rs

positive_later : (r : TestResult) (rs : List TestResult) → ArePositive (r ∷ rs) → ArePositive rs
positive_later (tcp_ok _ _) rs pos = pos.1
positive_later (connect_ok _ _ _) rs pos = pos.1
positive_later (tcp_error _) rs pos = pos
positive_later (connect_error _) rs pos = pos

module _ {cb : CircularBuffer} where
  record Recorded (u : UpstreamServer cb) (rs : List TestResult) (u' : UpstreamServer cb)
      : Type 0 where
    bounded : AreBounded u'.delay_collect
    same_switch : u'.is_manual_disable ≡ u.is_manual_disable
    online : last_tcp rs ≡ some true → (u'.is_offline ≡ false) × (0 < u'.last_online_time)
    offline : last_tcp rs ≡ some false → u'.is_offline ≡ true
    connected :
        last_connect rs ≡ some true → (u'.last_connect_failed ≡ false) × (0 < u'.last_connect_time)

  one-Recorded :
      (u w : UpstreamServer cb) (r : TestResult) (rs : List TestResult)
      → ArePositive (r ∷ rs)
      → Recorded u rs w
      → (u' : UpstreamServer cb) × (record_result w r ≡ some u') × Recorded u (r ∷ rs) u'
  unfolding record_result tcp_test_ok tcp_test_error connect_test_ok connect_test_error
  one-Recorded u w (tcp_ok ping now) rs pos v =
      let (d, e, b) = push_tcp_ping-AreBounded w.delay_collect ping now v.bounded in
      (
        record w {
          last_connect_failed = if w.is_offline then false else w.last_connect_failed;
          last_online_time = now;
          is_offline = false;
          last_online_ping = ping;
          delay_collect = d;
        },
        rw e,
        record {
          bounded = b;
          same_switch = v.same_switch;
          online = λ _. (refl, pos.0);
          offline = λ f. cc;
          connected = λ f. ground (arith, v.connected f);
        },
      )
  one-Recorded u w (tcp_error now) rs pos v =
      let (d, e, b) = push_tcp_ping-AreBounded w.delay_collect time_ms_invalid now v.bounded in
      (
        record w { is_offline = true; last_online_ping = time_ms_invalid; delay_collect = d },
        rw e,
        record {
          bounded = b;
          same_switch = v.same_switch;
          online = λ f. cc;
          offline = λ _. refl;
          connected = v.connected;
        },
      )
  one-Recorded u w (connect_ok ping status now) rs pos v =
      let (d, e, b) = push_http_ping-AreBounded w.delay_collect ping now v.bounded in
      (
        record w {
          last_connect_time = now;
          last_connect_failed = false;
          last_connect_check_result = status_code_text ++ decimal status;
          last_connect_ping = ping;
          delay_collect = d;
        },
        rw e,
        record {
          bounded = b;
          same_switch = v.same_switch;
          online = v.online;
          offline = v.offline;
          connected = λ _. (refl, pos.0);
        },
      )
  one-Recorded u w (connect_error now) rs pos v =
      let (d, e, b) = push_http_ping-AreBounded w.delay_collect time_ms_invalid now v.bounded in
      (
        record w {
          last_connect_failed = true;
          last_connect_ping = time_ms_invalid;
          delay_collect = d;
        },
        rw e,
        record {
          bounded = b;
          same_switch = v.same_switch;
          online = v.online;
          offline = v.offline;
          connected = λ f. cc;
        },
      )

  all-Recorded :
      (u : UpstreamServer cb) (rs : List TestResult)
      → AreBounded u.delay_collect
      → ArePositive rs
      → (u' : UpstreamServer cb) × (record_all u rs ≡ some u') × Recorded u rs u'
  unfolding record_all
  all-Recorded u [] b pos = (
    u,
    refl,
    record {
      bounded = b;
      same_switch = refl;
      online = λ e. cc;
      offline = λ e. cc;
      connected = λ e. cc;
    },
  )
  all-Recorded u (r ∷ rs) b pos =
      let (w, e, v) = all-Recorded u rs b (positive_later r rs pos) in
      rw e (one-Recorded u w r rs pos v)

-- With the tests enabled, every success recorded after the epoch and delay histories that are
-- bounded at the start: a server that is not disabled by hand is valid after any history of
-- results whose newest TCP test and newest connect test succeeded, and no write has left a delay
-- history.
pub check_server-record_all_ok :
    {cb : CircularBuffer} (c : Config) (u : UpstreamServer cb) (rs : List TestResult)
    → c.disable_connect_test ≡ false
    → u.is_manual_disable ≡ false
    → AreBounded u.delay_collect
    → ArePositive rs
    → last_tcp rs ≡ some true
    → last_connect rs ≡ some true
    → (u' : UpstreamServer cb) × (record_all u rs ≡ some u') × (check_server c (some u') ≡ true)
unfolding check_server
check_server-record_all_ok c u rs on free b pos tcp con =
    let (u', e, v) = all-Recorded u rs b pos in
    (u', e, ground (arith, v.online tcp, v.connected con, v.same_switch))

-- With the tests enabled, every success recorded after the epoch and delay histories that are
-- bounded at the start: no server is valid after a history of results whose newest TCP test
-- failed, whatever the connect tests gave, and no write has left a delay history.
pub check_server-record_all_error :
    {cb : CircularBuffer} (c : Config) (u : UpstreamServer cb) (rs : List TestResult)
    → c.disable_connect_test ≡ false
    → AreBounded u.delay_collect
    → ArePositive rs
    → last_tcp rs ≡ some false
    → (u' : UpstreamServer cb) × (record_all u rs ≡ some u') × (check_server c (some u') ≡ false)
unfolding check_server
check_server-record_all_error c u rs on b pos tcp =
    let (u', e, v) = all-Recorded u rs b pos in (u', e, ground (arith, v.offline tcp))
