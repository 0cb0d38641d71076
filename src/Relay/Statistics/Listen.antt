-- ===== src/Relay/Statistics/Listen.antt =====
-- The operations of TcpRelayStatisticsInfo by listener address.
use socks5balancer_asio.Prelude.{ℕ, Bool, List, [], Option, none, some, Bytes, bytes_eq, ◌>>=◌}
use socks5balancer_asio.Relay.State.{TcpRelaySession}
use socks5balancer_asio.Relay.Statistics.Sessions.{SessionInfoContainer, session_info}
use socks5balancer_asio.Relay.Statistics.Info.{
  Info, make_info, remove_expired_session, close_all_session, info_count_add, info_count_sub,
  info_up, info_down,
}
use socks5balancer_asio.Relay.Statistics.Maps.{Statistics, find, change, ensure, add_info}

module _ {sc : SessionInfoContainer} where
  abbrev with_listen : (Info sc → Info sc) → Bytes → Statistics sc → Statistics sc
  with_listen f k t = record t { listen_index = change bytes_eq f k t.listen_index }

  unfoldable pub get_info_listen : Bytes → Statistics sc → Option (Info sc)
  get_info_listen k t = find bytes_eq k t.listen_index

  unfoldable pub remove_expired_session_listen : (ℕ → Bool) → Bytes → Statistics sc → Statistics sc
  remove_expired_session_listen expired k t = with_listen (remove_expired_session expired) k t

  unfoldable pub add_byte_up_listen : Bytes → ℕ → Statistics sc → Statistics sc
  add_byte_up_listen k b t = with_listen (info_up b) k t

  unfoldable pub add_byte_down_listen : Bytes → ℕ → Statistics sc → Statistics sc
  add_byte_down_listen k b t = with_listen (info_down b) k t

  -- The sessions that are closed, and the statistics.
  unfoldable pub close_all_session_listen :
      (ℕ → Bool) → Bytes → Statistics sc → List ℕ × Statistics sc
  close_all_session_listen expired k t = elim (find bytes_eq k t.listen_index) [
    | none ↦ ([], t)
    | some n ↦
        let (closed, after) = close_all_session expired n in (closed, with_listen (λ _. after) k t)
  ]

  unfoldable pub connect_count_add_listen : Bytes → Statistics sc → Statistics sc
  connect_count_add_listen k t = with_listen info_count_add k t

  unfoldable pub connect_count_sub_listen : Bytes → Statistics sc → Statistics sc
  connect_count_sub_listen k t = with_listen info_count_sub k t

  unfoldable pub get_index_listen : Statistics sc → List (Bytes × Info sc)
  get_index_listen t = t.listen_index

  -- `addSessionListen`; `none` is a session without a server.
  unfoldable pub add_session_listen : TcpRelaySession → ℕ → Statistics sc → Option (Statistics sc)
  add_session_listen s now t = session_info s now >>= λ a. some (record t {
    listen_index =
        change bytes_eq (add_info a s) s.listen_endpoint_addr_string
          (ensure bytes_eq s.listen_endpoint_addr_string (make_info sc) t.listen_index);
  })
