-- ===== src/Relay/Statistics/Maps.antt =====
-- `std::map` as an association list, and the four maps of the statistics.
use socks5balancer_asio.Prelude.{
  ℕ, Bool, List, [], ◌∷◌, ◌++◌, Option, none, some, Bytes, if◌then◌else◌, is_some,
}
use socks5balancer_asio.Relay.State.{TcpRelaySession}
use socks5balancer_asio.Relay.Statistics.Sessions.{SessionInfo, SessionInfoContainer}
use socks5balancer_asio.Relay.Statistics.Info.{Info}

module _ {A V : Type 0} (eq : A → A → Bool) where
  abbrev pub find : A → List (A × V) → Option V
  find k [] = none
  find k ((k', v) ∷ rest) = let more = find k rest in if eq k k' then some v else more

  -- What is done to the value of a key that is there.
  abbrev pub change : (V → V) → A → List (A × V) → List (A × V)
  change f k [] = []
  change f k ((k', v) ∷ rest) =
      let more = change f k rest in if eq k k' then (k', f v) ∷ rest else (k', v) ∷ more

  -- `try_emplace` behind a `find` that failed.
  abbrev pub ensure : A → V → List (A × V) → List (A × V)
  ensure k v m = if is_some (find k m) then m else m ++ (k, v) ∷ []

pub record Statistics (sc : SessionInfoContainer) : Type 0 where
  pub upstream_index : List (ℕ × Info sc)
  pub client_index : List (Bytes × Info sc)
  pub listen_index : List (Bytes × Info sc)
  pub auth_user_index : List (ℕ × Info sc)
  pub last_connect_server_index : ℕ

module _ {sc : SessionInfoContainer} where
  -- `emplace_back` of a new SessionInfo, and the server that was used last.
  abbrev pub add_info : SessionInfo → TcpRelaySession → Info sc → Info sc
  add_info a s n = record n {
    sessions = sc.emplace_back n.sessions a;
    last_use_upstream_index = elim s.now_server [
      | none ↦ n.last_use_upstream_index
      | some index ↦ index
    ];
  }
