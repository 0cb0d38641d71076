-- ===== src/Delay/Bounded.antt =====
-- The three histories of a `DelayCollect` stay bounded, so that its push methods never fail.
use socks5balancer_asio.Prelude.{ℕ, ◌≡◌, ℤ, inl, inr, some, Bool-cases, ◌<◌, Bool, arith}
use socks5balancer_asio.Delay.Buffer.{CircularBuffer}
use socks5balancer_asio.Delay.Collect.{DelayCollect, push_tcp_ping, push_http_ping, make_collect}
use socks5balancer_asio.Delay.History.{make_history}
use socks5balancer_asio.Delay.History.Trim.{IsBounded, add_delay_info_keeps_latest}

pub record AreBounded {cb : CircularBuffer} (d : DelayCollect cb) : Type 0 where
  pub tcp : IsBounded d.history_tcp_ping
  pub http : IsBounded d.history_http_ping
  pub first : IsBounded d.history_relay_first_delay

module _ {cb : CircularBuffer} (d : DelayCollect cb) (t : ℤ) (now : ℕ) (v : AreBounded d) where
  pub push_tcp_ping-AreBounded :
      (d' : DelayCollect cb) × (push_tcp_ping d t now ≡ some d') × AreBounded d'
  unfolding push_tcp_ping
  push_tcp_ping-AreBounded = elim (Bool-cases d.tradition_tcp_relay) [
    | inl plain ↦ (
      record d { last_tcp_ping = t },
      rw plain,
      record { tcp = v.tcp; http = v.http; first = v.first },
    )
    | inr kept ↦
        let (h, e, b, _) = add_delay_info_keeps_latest d.history_tcp_ping t now v.tcp in
        (
          record d { last_tcp_ping = t; history_tcp_ping = h },
          rw (kept, e),
          record { tcp = b; http = v.http; first = v.first },
        )
  ]

  pub push_http_ping-AreBounded :
      (d' : DelayCollect cb) × (push_http_ping d t now ≡ some d') × AreBounded d'
  unfolding push_http_ping
  push_http_ping-AreBounded = elim (Bool-cases d.tradition_tcp_relay) [
    | inl plain ↦ (
      record d { last_http_ping = t },
      rw plain,
      record { tcp = v.tcp; http = v.http; first = v.first },
    )
    | inr kept ↦
        let (h, e, b, _) = add_delay_info_keeps_latest d.history_http_ping t now v.http in
        (
          record d { last_http_ping = t; history_http_ping = h },
          rw (kept, e),
          record { tcp = v.tcp; http = b; first = v.first },
        )
  ]

-- A new collection is bounded, for any positive limit.
pub make_collect-AreBounded :
    (cb : CircularBuffer) (limit : ℕ) (tradition : Bool)
    → 0 < limit
    → AreBounded (make_collect cb limit tradition)
unfolding make_collect
make_collect-AreBounded cb limit tradition h = record { tcp = fresh; http = fresh; first = fresh }
  where
    fresh : IsBounded (make_history cb limit)
    fresh = record {
      within = rw (cb.to_list-make limit) (omega arith);
      some_room = rw (cb.capacity-make limit) h;
      keeps_one = h;
    }
