-- ===== src/Pool/Checks.antt =====
-- The results of the two tests of a server, as the callbacks of `do_tcpCheckerTimer_impl` and
-- `do_connectCheckerTimer_impl` (and of the `One` variants, which are the same) record them.
-- The tests themselves (TcpTest, ConnectTestHttps) are network code: each gives a result event.
-- `none` is undefined behaviour in the delay history.
pub mod Validity
use socks5balancer_asio.Prelude.{
  ℕ, ℤ, true, false, List, [], ◌∷◌, ◌++◌, Option, none, some, Bytes, decimal, if◌then◌else◌,
}
use socks5balancer_asio.Delay.Buffer.{CircularBuffer}
use socks5balancer_asio.Delay.Collect.{DelayCollect, push_tcp_ping, push_http_ping, time_ms_invalid}
use socks5balancer_asio.Pool.Server.{UpstreamServer}

-- "status_code:"
abbrev status_code_text : Bytes
status_code_text =
    b's' ∷ b't' ∷ b'a' ∷ b't' ∷ b'u' ∷ b's' ∷ b'_' ∷ b'c' ∷ b'o' ∷ b'd' ∷ b'e' ∷ b':' ∷ []

module _ {cb : CircularBuffer} where
  with_collect : UpstreamServer cb → Option (DelayCollect cb) → Option (UpstreamServer cb)
  with_collect u none = none
  with_collect u (some d) = some (record u { delay_collect = d })

  unfoldable pub tcp_test_ok : UpstreamServer cb → ℤ → ℕ → Option (UpstreamServer cb)
  unfolding with_collect
  tcp_test_ok u ping now =
      with_collect
        (record u {
          last_connect_failed = if u.is_offline then false else u.last_connect_failed;
          last_online_time = now;
          is_offline = false;
          last_online_ping = ping;
        })
        (push_tcp_ping u.delay_collect ping now)

  unfoldable pub tcp_test_error : UpstreamServer cb → ℕ → Option (UpstreamServer cb)
  unfolding with_collect
  tcp_test_error u now =
      with_collect (record u { is_offline = true; last_online_ping = time_ms_invalid })
        (push_tcp_ping u.delay_collect time_ms_invalid now)

  unfoldable pub connect_test_ok : UpstreamServer cb → ℤ → ℕ → ℕ → Option (UpstreamServer cb)
  unfolding with_collect
  connect_test_ok u ping status now =
      with_collect
        (record u {
          last_connect_time = now;
          last_connect_failed = false;
          last_connect_check_result = status_code_text ++ decimal status;
          last_connect_ping = ping;
        })
        (push_http_ping u.delay_collect ping now)

  unfoldable pub connect_test_error : UpstreamServer cb → ℕ → Option (UpstreamServer cb)
  unfolding with_collect
  connect_test_error u now =
      with_collect (record u { last_connect_failed = true; last_connect_ping = time_ms_invalid })
        (push_http_ping u.delay_collect time_ms_invalid now)

-- A result of a test, with the clock when its callback runs.
pub data TestResult : Type 0 where
  tcp_ok : ℤ → ℕ → TestResult
  tcp_error : ℕ → TestResult
  connect_ok : ℤ → ℕ → ℕ → TestResult
  connect_error : ℕ → TestResult

module _ {cb : CircularBuffer} where
  unfoldable pub record_result : UpstreamServer cb → TestResult → Option (UpstreamServer cb)
  record_result u (tcp_ok ping now) = tcp_test_ok u ping now
  record_result u (tcp_error now) = tcp_test_error u now
  record_result u (connect_ok ping status now) = connect_test_ok u ping status now
  record_result u (connect_error now) = connect_test_error u now

  -- All results of a history, whose newest stands first.
  unfoldable pub record_all : UpstreamServer cb → List TestResult → Option (UpstreamServer cb)
  record_all u [] = some u
  record_all u (r ∷ rs) = elim (record_all u rs) [ none ↦ none | some u' ↦ record_result u' r ]
