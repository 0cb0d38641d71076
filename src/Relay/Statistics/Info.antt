-- ===== src/Relay/Statistics/Info.antt =====
-- `TcpRelayStatisticsInfo::Info`: the sessions and the counters of one key.
use socks5balancer_asio.Prelude.{
  ℕ, zero, suc, Bool, true, false, List, [], ◌∷◌, none, some, get_elem?, ltb, if◌then◌else◌, add64,
  sub64,
}
use socks5balancer_asio.Config.{RuleEnum, inherit}
use socks5balancer_asio.Relay.Statistics.Sessions.{SessionInfoContainer}

pub record Info (sc : SessionInfoContainer) : Type 0 where
  pub sessions : sc.Container
  pub byte_up : ℕ
  pub byte_down : ℕ
  pub byte_up_last : ℕ
  pub byte_down_last : ℕ
  pub byte_up_change : ℕ
  pub byte_down_change : ℕ
  pub byte_up_change_max : ℕ
  pub byte_down_change_max : ℕ
  pub connect_count : ℕ
  pub rule : RuleEnum
  pub last_use_upstream_index : ℕ

unfoldable pub make_info : (sc : SessionInfoContainer) → Info sc
make_info sc = record {
  sessions = sc.empty;
  byte_up = 0;
  byte_down = 0;
  byte_up_last = 0;
  byte_down_last = 0;
  byte_up_change = 0;
  byte_down_change = 0;
  byte_up_change_max = 0;
  byte_down_change_max = 0;
  connect_count = 0;
  rule = inherit;
  last_use_upstream_index = 0;
}

-- `if (change > max) max = change`
abbrev pub raised : ℕ → ℕ → ℕ
raised change largest = if ltb largest change then change else largest

-- The loop of `closeAllSession`, its iterator at place `i`: a live session is closed and passed
-- over, and one that is gone is erased. The closed sessions are the first result.
unfoldable pub close_loop :
    (sc : SessionInfoContainer) → (ℕ → Bool) → ℕ → ℕ → sc.Container → List ℕ × sc.Container
close_loop sc expired zero i c = ([], c)
close_loop sc expired (suc fuel) i c = elim (get_elem? (sc.to_list c) i) [
  | none ↦ ([], c)
  | some a ↦ elim (expired a.raw_ptr) [
    | true ↦ close_loop sc expired fuel i (sc.erase i c)
    | false ↦
        let (closed, after) = close_loop sc expired fuel (suc i) c in (a.raw_ptr ∷ closed, after)
  ]
]

module _ {sc : SessionInfoContainer} where
  -- `expired` tells of a session whether it is gone.
  unfoldable pub remove_expired_session : (ℕ → Bool) → Info sc → Info sc
  remove_expired_session expired n = record n {
    sessions = sc.remove_if (λ a. expired a.raw_ptr) n.sessions;
  }

  -- Each turn of the loop passes or erases one session, so that their number is fuel enough.
  unfoldable pub close_all_session : (ℕ → Bool) → Info sc → List ℕ × Info sc
  unfolding close_loop
  close_all_session expired n =
      let (closed, after) = close_loop sc expired (sc.size n.sessions) 0 n.sessions in
      (closed, record n { sessions = after })

  unfoldable pub calc_byte : Info sc → Info sc
  calc_byte n = record n {
    byte_up_change = sub64 n.byte_up n.byte_up_last;
    byte_down_change = sub64 n.byte_down n.byte_down_last;
    byte_up_last = n.byte_up;
    byte_down_last = n.byte_down;
    byte_up_change_max = raised (sub64 n.byte_up n.byte_up_last) n.byte_up_change_max;
    byte_down_change_max = raised (sub64 n.byte_down n.byte_down_last) n.byte_down_change_max;
  }

  unfoldable pub info_count_add : Info sc → Info sc
  info_count_add n = record n { connect_count = add64 n.connect_count 1 }

  unfoldable pub info_count_sub : Info sc → Info sc
  info_count_sub n = record n { connect_count = sub64 n.connect_count 1 }

  unfoldable pub calc_sessions_number : (ℕ → Bool) → Info sc → ℕ × Info sc
  unfolding remove_expired_session
  calc_sessions_number expired n =
      let after = remove_expired_session expired n in (sc.size after.sessions, after)

  -- `byteUp += b` and `byteDown += b`
  unfoldable pub info_up : ℕ → Info sc → Info sc
  info_up b n = record n { byte_up = add64 n.byte_up b }

  unfoldable pub info_down : ℕ → Info sc → Info sc
  info_down b n = record n { byte_down = add64 n.byte_down b }
