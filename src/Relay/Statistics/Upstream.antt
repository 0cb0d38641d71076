-- ===== src/Relay/Statistics/Upstream.antt =====
-- The operations of TcpRelayStatisticsInfo by upstream server.
use socks5balancer_asio.Prelude.{ℕ, Bool, List, [], Option, none, some, ◌==◌, ◌>>=◌}
use socks5balancer_asio.Relay.State.{TcpRelaySession}
use socks5balancer_asio.Relay.Statistics.Sessions.{SessionInfoContainer, session_info}
use socks5balancer_asio.Relay.Statistics.Info.{
  Info, make_info, remove_expired_session, close_all_session, info_count_add, info_count_sub,
  info_up, info_down,
}
use socks5balancer_asio.Relay.Statistics.Maps.{Statistics, find, change, ensure, add_info}

module _ {sc : SessionInfoContainer} where
  abbrev with_upstream : (Info sc → Info sc) → ℕ → Statistics sc → Statistics sc
  with_upstream f k t = record t { upstream_index = change ◌==◌ f k t.upstream_index }

  unfoldable pub get_info_upstream : ℕ → Statistics sc → Option (Info sc)
  get_info_upstream k t = find ◌==◌ k t.upstream_index

  unfoldable pub remove_expired_session_upstream : (ℕ → Bool) → ℕ → Statistics sc → Statistics sc
  remove_expired_session_upstream expired k t = with_upstream (remove_expired_session expired) k t

  unfoldable pub add_byte_up_upstream : ℕ → ℕ → Statistics sc → Statistics sc
  add_byte_up_upstream k b t = with_upstream (info_up b) k t

  unfoldable pub add_byte_down_upstream : ℕ → ℕ → Statistics sc → Statistics sc
  add_byte_down_upstream k b t = with_upstream (info_down b) k t

  -- The sessions that are closed, and the statistics.
  unfoldable pub close_all_session_upstream :
      (ℕ → Bool) → ℕ → Statistics sc → List ℕ × Statistics sc
  close_all_session_upstream expired k t = elim (find ◌==◌ k t.upstream_index) [
    | none ↦ ([], t)
    | some n ↦
        let (closed, after) = close_all_session expired n in
        (closed, with_upstream (λ _. after) k t)
  ]

  unfoldable pub connect_count_add_upstream : ℕ → Statistics sc → Statistics sc
  connect_count_add_upstream k t = with_upstream info_count_add k t

  unfoldable pub connect_count_sub_upstream : ℕ → Statistics sc → Statistics sc
  connect_count_sub_upstream k t = with_upstream info_count_sub k t

  unfoldable pub get_index_upstream : Statistics sc → List (ℕ × Info sc)
  get_index_upstream t = t.upstream_index

  -- `addSession`; `none` is a session without a server.
  unfoldable pub add_session_upstream :
      ℕ → TcpRelaySession → ℕ → Statistics sc → Option (Statistics sc)
  add_session_upstream index s now t = session_info s now >>= λ a. some (record t {
    upstream_index =
        change ◌==◌ (add_info a s) index (ensure ◌==◌ index (make_info sc) t.upstream_index);
  })
