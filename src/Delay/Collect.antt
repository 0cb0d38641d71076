-- ===== src/Delay/Collect.antt =====
-- `DelayCollect` of DelayCollection.h: three histories with the last value of each.
use socks5balancer_asio.Prelude.{ℕ, ℤ, negsuc, Option, none, some, Bool, if◌then◌else◌}
use socks5balancer_asio.Delay.Buffer.{CircularBuffer}
use socks5balancer_asio.Delay.History.{
  TimeHistory, add_delay_info, set_max_size, remove_before, clean, make_history,
}

abbrev pub time_ms_invalid : ℤ
time_ms_invalid = negsuc 0

pub record DelayCollect (cb : CircularBuffer) : Type 0 where
  pub last_tcp_ping : ℤ
  pub last_http_ping : ℤ
  pub last_relay_first_delay : ℤ
  pub history_tcp_ping : TimeHistory cb
  pub history_http_ping : TimeHistory cb
  pub history_relay_first_delay : TimeHistory cb
  pub tradition_tcp_relay : Bool

abbrev map_some {ℓ κ} : {A : Type ℓ} {B : Type κ} → (A → B) → Option A → Option B
map_some f none = none
map_some f (some a) = some (f a)

unfoldable pub make_collect : (cb : CircularBuffer) → ℕ → Bool → DelayCollect cb
unfolding make_history
make_collect cb limit tradition = record {
  last_tcp_ping = time_ms_invalid;
  last_http_ping = time_ms_invalid;
  last_relay_first_delay = time_ms_invalid;
  history_tcp_ping = make_history cb limit;
  history_http_ping = make_history cb limit;
  history_relay_first_delay = make_history cb limit;
  tradition_tcp_relay = tradition;
}

module _ {cb : CircularBuffer} where
  unfoldable pub push_tcp_ping : DelayCollect cb → ℤ → ℕ → Option (DelayCollect cb)
  push_tcp_ping d t now =
      if d.tradition_tcp_relay
      then some (record d { last_tcp_ping = t })
      else map_some (λ h. record d { last_tcp_ping = t; history_tcp_ping = h })
          (add_delay_info d.history_tcp_ping t now)

  unfoldable pub push_http_ping : DelayCollect cb → ℤ → ℕ → Option (DelayCollect cb)
  push_http_ping d t now =
      if d.tradition_tcp_relay
      then some (record d { last_http_ping = t })
      else map_some (λ h. record d { last_http_ping = t; history_http_ping = h })
          (add_delay_info d.history_http_ping t now)

  unfoldable pub push_relay_first_delay : DelayCollect cb → ℤ → ℕ → Option (DelayCollect cb)
  push_relay_first_delay d t now =
      if d.tradition_tcp_relay
      then some (record d { last_relay_first_delay = t })
      else map_some (λ h. record d { last_relay_first_delay = t; history_relay_first_delay = h })
          (add_delay_info d.history_relay_first_delay t now)

  pub clean_tcp_ping : DelayCollect cb → DelayCollect cb
  clean_tcp_ping d = record d {
    history_tcp_ping = clean d.history_tcp_ping;
    last_tcp_ping = time_ms_invalid;
  }

  pub clean_http_ping : DelayCollect cb → DelayCollect cb
  clean_http_ping d = record d {
    history_http_ping = clean d.history_http_ping;
    last_http_ping = time_ms_invalid;
  }

  pub clean_first_delay : DelayCollect cb → DelayCollect cb
  clean_first_delay d = record d {
    history_relay_first_delay = clean d.history_relay_first_delay;
    last_relay_first_delay = time_ms_invalid;
  }

  pub set_max_size_tcp_ping : DelayCollect cb → ℕ → Option (DelayCollect cb)
  set_max_size_tcp_ping d m =
      map_some (λ h. record d { history_tcp_ping = h }) (set_max_size d.history_tcp_ping m)

  pub set_max_size_http_ping : DelayCollect cb → ℕ → Option (DelayCollect cb)
  set_max_size_http_ping d m =
      map_some (λ h. record d { history_http_ping = h }) (set_max_size d.history_http_ping m)

  pub set_max_size_first_delay : DelayCollect cb → ℕ → Option (DelayCollect cb)
  set_max_size_first_delay d m =
      map_some (λ h. record d { history_relay_first_delay = h })
        (set_max_size d.history_relay_first_delay m)

  pub remove_before_tcp_ping : DelayCollect cb → ℕ → Option (DelayCollect cb)
  remove_before_tcp_ping d time =
      map_some (λ h. record d { history_tcp_ping = h }) (remove_before d.history_tcp_ping time)

  pub remove_before_http_ping : DelayCollect cb → ℕ → Option (DelayCollect cb)
  remove_before_http_ping d time =
      map_some (λ h. record d { history_http_ping = h }) (remove_before d.history_http_ping time)

  pub remove_before_first_delay : DelayCollect cb → ℕ → Option (DelayCollect cb)
  remove_before_first_delay d time =
      map_some (λ h. record d { history_relay_first_delay = h })
        (remove_before d.history_relay_first_delay time)
