-- ===== src/Pool/Timers/Schedule.antt =====
-- When the timers of the pool run, and what they start.
use socks5balancer_asio.Prelude.{
  ℕ, ◌≡◌, sym, ap, ◌∙◌, Bool, true, List, [], ◌∷◌, Option, some, arith,
}
use socks5balancer_asio.Delay.Buffer.{CircularBuffer}
use socks5balancer_asio.Pool.Timers.{
  Checker, do_tcp_checker_timer_impl, do_connect_checker_timer_impl, tcp_checker_fires,
  connect_checker_fires, do_addition_timer_impl, addition_run_ends, addition_fires,
  start_check_timer, stop, force_check_now, force_check_fires, force_check_one,
}

-- What happens to the checker: calls of its methods, and its timers' handlers with their error flag.
pub data Event : Type 0 where
  starts : ℕ → Event
  stops : Event
  forces : ℕ → Event
  forces_one : ℕ → Event
  tcp_fires : Bool → ℕ → Event
  connect_fires : Bool → ℕ → Event
  addition_timer_fires : Bool → ℕ → Event
  addition_ends : Event
  force_fires : Bool → Event

module _ {cb : CircularBuffer} where
  unfoldable pub step : Checker cb → Event → Option (Checker cb)
  step k (starts now) = some (start_check_timer k now)
  step k stops = some (stop k)
  step k (forces now) = some (force_check_now k now)
  step k (forces_one i) = some (force_check_one k i)
  step k (tcp_fires e now) = tcp_checker_fires k e now
  step k (connect_fires e now) = connect_checker_fires k e now
  step k (addition_timer_fires e now) = addition_fires k e now
  step k addition_ends = some (addition_run_ends k)
  step k (force_fires e) = some (force_check_fires k e)

  -- `Runs k es k'`: the events take the checker from `k` to `k'`, with no use of a null pointer.
  pub data Runs (last : Checker cb) : Checker cb → List Event → Type 0 where
    done : {k : Checker cb} → k ≡ last → Runs last k []
    next :
        {k k' : Checker cb} {e : Event} {es : List Event}
        → step k e ≡ some k'
        → Runs last k' es
        → Runs last k (e ∷ es)

  -- Starting the checks again changes nothing, whether the tests are disabled or not.
  pub start_check_timer-start_check_timer :
      (k : Checker cb) (now later : ℕ)
      → start_check_timer (start_check_timer k now) later ≡ start_check_timer k now
  unfolding start_check_timer
  start_check_timer-start_check_timer k now later = ground arith

  abbrev LaunchesNone : Checker cb → Checker cb → Type 0
  LaunchesNone k k' =
      (k'.launched ≡ k.launched)
      × (k'.pool.config.disable_connect_test ≡ k.pool.config.disable_connect_test)

  step-LaunchesNone :
      (k k' : Checker cb) (e : Event)
      → k.pool.config.disable_connect_test ≡ true
      → step k e ≡ some k'
      → LaunchesNone k k'
  unfolding step start_check_timer stop force_check_now force_check_one tcp_checker_fires
      connect_checker_fires addition_fires addition_run_ends force_check_fires
      do_tcp_checker_timer_impl do_connect_checker_timer_impl do_addition_timer_impl
  step-LaunchesNone k k' (starts now) off e = ground arith
  step-LaunchesNone k k' stops off e = ground arith
  step-LaunchesNone k k' (forces now) off e = ground arith
  step-LaunchesNone k k' (forces_one i) off e = ground arith
  step-LaunchesNone k k' (tcp_fires err now) off e = ground arith
  step-LaunchesNone k k' (connect_fires err now) off e = ground arith
  step-LaunchesNone k k' (addition_timer_fires err now) off e = ground arith
  step-LaunchesNone k k' addition_ends off e = ground arith
  step-LaunchesNone k k' (force_fires err) off e = ground arith

  -- While the connect tests are disabled in the configuration, no sequence of calls and timer
  -- events starts a test.
  pub Runs-launch_none :
      (k last : Checker cb) (es : List Event)
      → k.pool.config.disable_connect_test ≡ true
      → Runs last k es
      → last.launched ≡ k.launched
  Runs-launch_none k last [] off (done e) = ap (λ (c : Checker cb). c.launched) (sym e)
  Runs-launch_none k last (e ∷ es) off (next {k' = k'} s r) =
      let (same, still) = step-LaunchesNone k k' e off s in
      Runs-launch_none k' last es (still ∙ off) r ∙ same
