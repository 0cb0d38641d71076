-- ===== src/Relay/Statistics/Client.antt =====
-- The operations of TcpRelayStatisticsInfo by client address.
use socks5balancer_asio.Prelude.{ℕ, Bool, List, [], Option, none, some, Bytes, bytes_eq, ◌>>=◌}
use socks5balancer_asio.Relay.State.{TcpRelaySession}
use socks5balancer_asio.Relay.Statistics.Sessions.{SessionInfoContainer, session_info}
use socks5balancer_asio.Relay.Statistics.Info.{
  Info, make_info, remove_expired_session, close_all_session, info_count_add, info_count_sub,
  info_up, info_down,
}
use socks5balancer_asio.Relay.Statistics.Maps.{Statistics, find, change, ensure, add_info}

module _ {sc : SessionInfoContainer} where
  abbrev with_client : (Info sc → Info sc) → Bytes → Statistics sc → Statistics sc
  with_client f k t = record t { client_index = change bytes_eq f k t.client_index }

  unfoldable pub get_info_client : Bytes → Statistics sc → Option (Info sc)
  get_info_client k t = find bytes_eq k t.client_index

  unfoldable pub remove_expired_session_client : (ℕ → Bool) → Bytes → Statistics sc → Statistics sc
  remove_expired_session_client expired k t = with_client (remove_expired_session expired) k t

  unfoldable pub add_byte_up_client : Bytes → ℕ → Statistics sc → Statistics sc
  add_byte_up_client k b t = with_client (info_up b) k t

  unfoldable pub add_byte_down_client : Bytes → ℕ → Statistics sc → Statistics sc
  add_byte_down_client k b t = with_client (info_down b) k t

  -- The sessions that are closed, and the statistics.
  unfoldable pub close_all_session_client :
      (ℕ → Bool) → Bytes → Statistics sc → List ℕ × Statistics sc
  close_all_session_client expired k t = elim (find bytes_eq k t.client_index) [
    | none ↦ ([], t)
    | some n ↦
        let (closed, after) = close_all_session expired n in (closed, with_client (λ _. after) k t)
  ]

  unfoldable pub connect_count_add_client : Bytes → Statistics sc → Statistics sc
  connect_count_add_client k t = with_client info_count_add k t

  unfoldable pub connect_count_sub_client : Bytes → Statistics sc → Statistics sc
  connect_count_sub_client k t = with_client info_count_sub k t

  unfoldable pub get_index_client : Statistics sc → List (Bytes × Info sc)
  get_index_client t = t.client_index

  -- `addSessionClient`; `none` is a session without a server.
  unfoldable pub add_session_client : TcpRelaySession → ℕ → Statistics sc → Option (Statistics sc)
  add_session_client s now t = session_info s now >>= λ a. some (record t {
    client_index =
        change bytes_eq (add_info a s) s.client_endpoint_addr_string
          (ensure bytes_eq s.client_endpoint_addr_string (make_info sc) t.client_index);
  })
