-- ===== src/Pool/Timers.antt =====
-- The timers of UpstreamPool.cpp that start the tests. A timer is its expiry; a handler is called
-- with `e` set when its timer was cancelled. `now` is the clock that the code reads at that place:
-- the steady clock where a timer is made, the system clock in a handler. The tests started are
-- recorded.
pub mod Schedule
pub mod Targets
use socks5balancer_asio.Prelude.{
  ℕ, ◌+◌, ◌-◌, ◌*◌, ◌/◌, min, Bool, true, false, not, ◌&&◌, List, [], ◌∷◌, ◌++◌, Option, none, some,
  length, leb, if◌then◌else◌, is_some, get_elem?,
}
use socks5balancer_asio.Config.{Config}
use socks5balancer_asio.Delay.Buffer.{CircularBuffer}
use socks5balancer_asio.Pool.Server.{UpstreamServer, Pool, check_server}

-- A test that was created and run: the server's index, and the largest start delay in
-- milliseconds, `none` for the default of `createTest`.
pub data Test : Type 0 where
  tcp_test : ℕ → Option ℕ → Test
  connect_test : ℕ → Option ℕ → Test

pub record Checker (cb : CircularBuffer) : Type 0 where
  pub pool : Pool cb
  pub tcp_checker_timer : Option ℕ
  pub connect_checker_timer : Option ℕ
  pub addition_timer : Option ℕ
  pub force_checker_timer : Option ℕ
  pub is_addition_timer_running : Bool
  pub launched : List Test

-- `maxDelayTime`: at most half the period in whole seconds, and one second for each server.
abbrev pub max_delay_time : ℕ → ℕ → ℕ
max_delay_time servers period = min servers (period / 1_000_000_000 / 2) * 1_000

module _ {cb : CircularBuffer} where
  -- The loop over the pool: a test for each server that is not disabled by hand.
  unfoldable pub test_each : (ℕ → Test) → List (UpstreamServer cb) → List Test
  test_each make [] = []
  test_each make (u ∷ us) =
      let rest = test_each make us in if u.is_manual_disable then rest else make u.index ∷ rest

  unfoldable pub do_tcp_checker_timer_impl : Checker cb → Checker cb
  do_tcp_checker_timer_impl k = if k.pool.config.disable_connect_test then k else record k {
    launched =
        k.launched
        ++ test_each
            (λ i.
              tcp_test i
                (some (max_delay_time (length k.pool.servers) k.pool.config.tcp_check_period)))
            k.pool.servers;
  }

  unfoldable pub do_connect_checker_timer_impl : Checker cb → Checker cb
  do_connect_checker_timer_impl k = if k.pool.config.disable_connect_test then k else record k {
    launched =
        k.launched
        ++ test_each
            (λ i.
              connect_test i
                (some (max_delay_time (length k.pool.servers) k.pool.config.connect_check_period)))
            k.pool.servers;
  }

  -- `(now - lastConnectComeTime) <= sleepTime`
  abbrev pub is_awake : Pool cb → ℕ → Bool
  is_awake p now = leb (now - p.last_connect_come_time) p.config.sleep_time

  -- The handler that `do_tcpCheckerTimer` waits with. The result is `none` where it uses a
  -- timer that is gone, a null pointer.
  unfoldable pub tcp_checker_fires : Checker cb → Bool → ℕ → Option (Checker cb)
  tcp_checker_fires k true now = some k
  tcp_checker_fires k false now =
      let k' = if is_awake k.pool now then do_tcp_checker_timer_impl k else k in
      elim k.tcp_checker_timer [
        | none ↦ none
        | some t ↦
            some (record k' { tcp_checker_timer = some (t + k.pool.config.tcp_check_period) })
      ]

  -- The handler that `do_connectCheckerTimer` waits with: the next expiry is counted from the
  -- expiry of the other timer.
  unfoldable pub connect_checker_fires : Checker cb → Bool → ℕ → Option (Checker cb)
  connect_checker_fires k true now = some k
  connect_checker_fires k false now =
      let k' = if is_awake k.pool now then do_connect_checker_timer_impl k else k in
      elim k.tcp_checker_timer [
        | none ↦ none
        | some t ↦
            if is_some k.connect_checker_timer
            then some (record k' {
              connect_checker_timer = some (t + k.pool.config.connect_check_period);
            })
            else none
      ]

  unfoldable pub do_addition_timer_impl : Checker cb → Checker cb
  unfolding do_tcp_checker_timer_impl do_connect_checker_timer_impl
  do_addition_timer_impl k =
      if k.pool.config.disable_connect_test
      then k
      else if k.is_addition_timer_running
      then k
      else do_connect_checker_timer_impl
          (do_tcp_checker_timer_impl (record k { is_addition_timer_running = true }))

  -- The timer `ct` of `do_AdditionTimer_impl`, whether it expired or was cancelled.
  unfoldable pub addition_run_ends : Checker cb → Checker cb
  addition_run_ends k = record k { is_addition_timer_running = false }

  unfoldable pub is_all_down : Config → List (UpstreamServer cb) → Bool
  is_all_down c [] = true
  is_all_down c (u ∷ us) = not (check_server c (some u)) && is_all_down c us

  unfoldable pub addition_fires : Checker cb → Bool → ℕ → Option (Checker cb)
  addition_fires k true now = some k
  addition_fires k false now =
      let k' =
        if is_all_down k.pool.config k.pool.servers && is_awake k.pool now
        then do_addition_timer_impl k
        else k in
      elim k.addition_timer [
        | none ↦ none
        | some t ↦
            some (record k' { addition_timer = some (t + k.pool.config.addition_check_period) })
      ]

  unfoldable pub end_check_timer : Checker cb → Checker cb
  end_check_timer k = record k { tcp_checker_timer = none; connect_checker_timer = none }

  unfoldable pub end_addition_timer : Checker cb → Checker cb
  end_addition_timer k = record k { addition_timer = none }

  unfoldable pub start_addition_timer : Checker cb → ℕ → Checker cb
  start_addition_timer k now =
      if k.pool.config.disable_connect_test
      then k
      else if is_some k.addition_timer
      then k
      else record k {
        addition_timer = some (
            now
            + (k.pool.config.tcp_check_start + k.pool.config.connect_check_start
                + k.pool.config.tcp_check_period)
              * 2);
      }

  unfoldable pub start_check_timer : Checker cb → ℕ → Checker cb
  unfolding end_check_timer end_addition_timer start_addition_timer
  start_check_timer k now =
      if is_some k.tcp_checker_timer && is_some k.connect_checker_timer
      then k
      else let ended = end_addition_timer (end_check_timer k) in
        if k.pool.config.disable_connect_test
        then ended
        else record (start_addition_timer ended now) {
          tcp_checker_timer = some (now + k.pool.config.tcp_check_start);
          connect_checker_timer = some (now + k.pool.config.connect_check_start);
        }

  -- The timer of `force_check_now` is only cancelled: it is there until its handler, which gets the
  -- error, has run.
  unfoldable pub stop : Checker cb → Checker cb
  unfolding end_check_timer end_addition_timer
  stop k = end_check_timer (end_addition_timer k)

  -- Half a second from now, both tests of every server.
  unfoldable pub force_check_now : Checker cb → ℕ → Checker cb
  force_check_now k now =
      if k.pool.config.disable_connect_test
      then k
      else if is_some k.force_checker_timer
      then k
      else record k { force_checker_timer = some (now + 500_000_000) }

  -- The handler of `do_forceCheckNow`; it holds the only strong reference to its timer.
  unfoldable pub force_check_fires : Checker cb → Bool → Checker cb
  force_check_fires k true = record k { force_checker_timer = none }
  force_check_fires k false = record (do_connect_checker_timer_impl (do_tcp_checker_timer_impl k)) {
    force_checker_timer = none;
  }

  -- With the posted handler, which runs the two `One` checks.
  unfoldable pub force_check_one : Checker cb → ℕ → Checker cb
  force_check_one k index =
      if k.pool.config.disable_connect_test then k else elim (get_elem? k.pool.servers index) [
        | none ↦ k
        | some u ↦ record k {
          launched = k.launched ++ tcp_test u.index none ∷ connect_test u.index none ∷ [];
        }
      ]
