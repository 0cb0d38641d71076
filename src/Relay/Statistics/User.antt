-- ===== src/Relay/Statistics/User.antt =====
-- The operations of TcpRelayStatisticsInfo by user.
use socks5balancer_asio.Prelude.{ℕ, Bool, List, [], Option, none, some, ◌==◌, ◌>>=◌}
use socks5balancer_asio.Relay.State.{TcpRelaySession}
use socks5balancer_asio.Relay.Statistics.Sessions.{SessionInfoContainer, session_info}
use socks5balancer_asio.Relay.Statistics.Info.{
  Info, make_info, remove_expired_session, close_all_session, info_count_add, info_count_sub,
  info_up, info_down,
}
use socks5balancer_asio.Relay.Statistics.Maps.{Statistics, find, change, ensure}

module _ {sc : SessionInfoContainer} where
  abbrev with_auth_user : (Info sc → Info sc) → ℕ → Statistics sc → Statistics sc
  with_auth_user f k t = record t { auth_user_index = change ◌==◌ f k t.auth_user_index }

  unfoldable pub get_info_auth_user : ℕ → Statistics sc → Option (Info sc)
  get_info_auth_user k t = find ◌==◌ k t.auth_user_index

  unfoldable pub remove_expired_session_auth_user : (ℕ → Bool) → ℕ → Statistics sc → Statistics sc
  remove_expired_session_auth_user expired k t = with_auth_user (remove_expired_session expired) k t

  unfoldable pub add_byte_up_auth_user : ℕ → ℕ → Statistics sc → Statistics sc
  add_byte_up_auth_user k b t = with_auth_user (info_up b) k t

  unfoldable pub add_byte_down_auth_user : ℕ → ℕ → Statistics sc → Statistics sc
  add_byte_down_auth_user k b t = with_auth_user (info_down b) k t

  -- The sessions that are closed, and the statistics.
  unfoldable pub close_all_session_auth_user :
      (ℕ → Bool) → ℕ → Statistics sc → List ℕ × Statistics sc
  close_all_session_auth_user expired k t = elim (find ◌==◌ k t.auth_user_index) [
    | none ↦ ([], t)
    | some n ↦
        let (closed, after) = close_all_session expired n in
        (closed, with_auth_user (λ _. after) k t)
  ]

  unfoldable pub connect_count_add_auth_user : ℕ → Statistics sc → Statistics sc
  connect_count_add_auth_user k t = with_auth_user info_count_add k t

  unfoldable pub connect_count_sub_auth_user : ℕ → Statistics sc → Statistics sc
  connect_count_sub_auth_user k t = with_auth_user info_count_sub k t

  unfoldable pub get_index_auth_user : Statistics sc → List (ℕ × Info sc)
  get_index_auth_user t = t.auth_user_index

  -- `addSessionAuthUser`, which leaves `lastUseUpstreamIndex` alone; `none` is a session without a
  -- user or a server.
  unfoldable pub add_session_auth_user :
      TcpRelaySession → ℕ → Statistics sc → Option (Statistics sc)
  add_session_auth_user s now t = s.auth_user >>= λ au. session_info s now >>= λ a. some (record t {
    auth_user_index =
        change ◌==◌ (λ n. record n { sessions = sc.emplace_back n.sessions a }) au.id
          (ensure ◌==◌ au.id (make_info sc) t.auth_user_index);
  })
