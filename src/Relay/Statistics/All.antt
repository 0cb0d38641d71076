-- ===== src/Relay/Statistics/All.antt =====
-- The operations of TcpRelayStatisticsInfo on all four maps.
use socks5balancer_asio.Prelude.{
  ℕ, Bool, List, [], ◌∷◌, Option, some, bytes_eq, ◌==◌, ◌>>=◌, is_some, if◌then◌else◌,
}
use socks5balancer_asio.Relay.State.{TcpRelaySession}
use socks5balancer_asio.Relay.Statistics.Sessions.{SessionInfoContainer, update_target_info}
use socks5balancer_asio.Relay.Statistics.Info.{Info, calc_byte, remove_expired_session}
use socks5balancer_asio.Relay.Statistics.Maps.{Statistics, find, change}

abbrev pub each : {A V : Type 0} → (V → V) → List (A × V) → List (A × V)
each f [] = []
each f ((k, v) ∷ rest) = (k, f v) ∷ each f rest

module _ {sc : SessionInfoContainer} where
  unfoldable pub calc_byte_all : Statistics sc → Statistics sc
  calc_byte_all t = record t {
    upstream_index = each calc_byte t.upstream_index;
    client_index = each calc_byte t.client_index;
    listen_index = each calc_byte t.listen_index;
    auth_user_index = each calc_byte t.auth_user_index;
  }

  unfoldable pub remove_expired_session_all : (ℕ → Bool) → Statistics sc → Statistics sc
  remove_expired_session_all expired t = record t {
    upstream_index = each (remove_expired_session expired) t.upstream_index;
    client_index = each (remove_expired_session expired) t.client_index;
    listen_index = each (remove_expired_session expired) t.listen_index;
    auth_user_index = each (remove_expired_session expired) t.auth_user_index;
  }

  -- The body of a block of `updateSessionInfo`.
  abbrev pub update_info : TcpRelaySession → Info sc → Info sc
  update_info s n = record n {
    sessions =
        sc.modify_pair s.client_endpoint_addr_port_string s.listen_endpoint_addr_string
          (update_target_info s) n.sessions;
  }

  -- One block: its test is `== end()`, so that the body follows the iterator where there is no
  -- entry, which is undefined, `none`.
  abbrev pub update_block :
      {A : Type 0}
      → (A → A → Bool)
      → A
      → TcpRelaySession
      → List (A × Info sc)
      → Option (List (A × Info sc))
  update_block eq k s m =
      if is_some (find eq k m)
      then some m
      else find eq k m >>= λ n. some (change eq (λ _. update_info s n) k m)

  -- `none` is undefined behaviour.
  unfoldable pub update_session_info : TcpRelaySession → Statistics sc → Option (Statistics sc)
  unfolding update_target_info
  update_session_info s t = s.now_server >>= λ index.
      update_block ◌==◌ index s t.upstream_index >>= λ upstream.
      update_block bytes_eq s.client_endpoint_addr_string s t.client_index >>= λ client.
      update_block bytes_eq s.listen_endpoint_addr_string s t.listen_index >>= λ listen.
      some (record t { upstream_index = upstream; client_index = client; listen_index = listen })
