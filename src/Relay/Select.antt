-- ===== src/Relay/Select.antt =====
-- `try_connect_upstream` of TcpRelaySession.cpp: the choice of a server for the next attempt.
use socks5balancer_asio.Prelude.{
  ℕ, false, Option, none, some, Bytes, leb, bytes_eq, if◌then◌else◌, ◌>>=◌, add64,
}
use socks5balancer_asio.Delay.Buffer.{CircularBuffer}
use socks5balancer_asio.Pool.Server.{UpstreamServer}
use socks5balancer_asio.Pool.Select.{
  Pick, picked, out_of_bounds, endless, get_server_by_hint, get_server_global, after_global,
  is_inherit,
}
use socks5balancer_asio.Relay.State.{resolve, begin}
use socks5balancer_asio.Relay.Statistics.Sessions.{SessionInfoContainer}
use socks5balancer_asio.Relay.Statistics.Info.{Info}
use socks5balancer_asio.Relay.Statistics.Maps.{Statistics, find, change}
use socks5balancer_asio.Relay.World.{World, Reading, on_session}

-- The readings of the three choices of one attempt.
pub record Readings : Type 0 where
  pub by_client : Reading
  pub by_listen : Reading
  pub by_all : Reading

abbrev pub Chosen : CircularBuffer → SessionInfoContainer → Type 0
Chosen cb sc = Option (UpstreamServer cb) × World cb sc

module _ {sc : SessionInfoContainer} where
  abbrev pub store_client : Bytes → ℕ → Statistics sc → Statistics sc
  store_client addr i t = record t {
    client_index =
        change bytes_eq (λ n. record n { last_use_upstream_index = i }) addr t.client_index;
  }

  abbrev pub store_listen : Bytes → ℕ → Statistics sc → Statistics sc
  store_listen addr i t = record t {
    listen_index =
        change bytes_eq (λ n. record n { last_use_upstream_index = i }) addr t.listen_index;
  }

module _ {cb : CircularBuffer} {sc : SessionInfoContainer} where
  -- A choice by a rule of the statistics; `store` writes back the index passed by reference.
  abbrev pub take_pick :
      (ℕ → Statistics sc → Statistics sc)
      → Statistics sc
      → Pick cb
      → World cb sc
      → Option (Chosen cb sc)
  take_pick store t (picked s i changed) w = some (
    s,
    record w {
      pool = record w.pool { last_change_upstream_time = changed };
      statistics = some (store i t);
    },
  )
  take_pick store t out_of_bounds w = none
  take_pick store t endless w = none

  unfoldable pub by_info :
      Option (Info sc)
      → (ℕ → Statistics sc → Statistics sc)
      → Statistics sc
      → Reading
      → World cb sc
      → Option (Chosen cb sc)
  by_info none store t r w = some (none, w)
  by_info (some n) store t r w =
      if is_inherit n.rule
      then some (none, w)
      else take_pick store t
          (get_server_by_hint w.pool n.rule n.last_use_upstream_index r.draw r.now r.now' false) w

  unfoldable pub try_client : Reading → World cb sc → Option (Chosen cb sc)
  unfolding by_info
  try_client r w = elim w.statistics [
    | none ↦ some (none, w)
    | some t ↦
        let addr = w.session.client_endpoint_addr_string in
        by_info (find bytes_eq addr t.client_index) (store_client addr) t r w
  ]

  -- The listener's rule is looked up under the client's address, as the code has it.
  unfoldable pub try_listen : Reading → World cb sc → Option (Chosen cb sc)
  unfolding by_info
  try_listen r w = elim w.statistics [
    | none ↦ some (none, w)
    | some t ↦
        let addr = w.session.client_endpoint_addr_string in
        by_info (find bytes_eq addr t.listen_index) (store_listen addr) t r w
  ]

  abbrev pub global_pick : Pick cb → World cb sc → Option (Chosen cb sc)
  global_pick (picked s i changed) w =
      some (s, record w { pool = after_global w.pool (picked s i changed) })
  global_pick out_of_bounds w = none
  global_pick endless w = none

  unfoldable pub try_global : Reading → World cb sc → Option (Chosen cb sc)
  try_global r w = global_pick (get_server_global w.pool r.draw r.now r.now') w

  -- The next source is asked where the last one gave no server.
  abbrev pub or_next : (World cb sc → Option (Chosen cb sc)) → Chosen cb sc → Option (Chosen cb sc)
  or_next next (some s, w) = some (some s, w)
  or_next next (none, w) = next w

  unfoldable pub choose_server : Readings → World cb sc → Option (Chosen cb sc)
  unfolding try_client try_listen try_global
  choose_server rs w = try_client rs.by_client w >>= λ c.
      or_next (try_listen rs.by_listen) c >>= λ d. or_next (try_global rs.by_all) d

  -- The session resolves the name of the server; without one it only logs.
  abbrev pub resolve_with : Chosen cb sc → World cb sc
  resolve_with (none, w) = w
  resolve_with (some u, w) =
      on_session (λ s. begin resolve (record s { now_server = some u.index })) w

  -- `none` is undefined behaviour of a choice.
  unfoldable pub try_connect_upstream : Readings → World cb sc → Option (World cb sc)
  unfolding choose_server
  try_connect_upstream rs w =
      if leb w.session.retry_count w.session.retry_limit
      then (choose_server rs (on_session (λ s. record s { retry_count = add64 s.retry_count 1 }) w)
          >>= λ c. some (resolve_with c))
      else some w
