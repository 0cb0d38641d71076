-- ===== src/Relay/Session.antt =====
-- TcpRelaySession.cpp: the connection to the upstream server, the relay, and the end of the session.
-- A handler gives `none` where the code dereferences a null pointer.
use socks5balancer_asio.Prelude.{
  ℕ, Bool, true, false, [], ◌∷◌, ◌++◌, Option, none, some, decimal, if◌then◌else◌, ◌>>=◌,
}
use socks5balancer_asio.Auth.Users.{AuthUser}
use socks5balancer_asio.Delay.Buffer.{CircularBuffer}
use socks5balancer_asio.Handshake.State.{unknown}
use socks5balancer_asio.Relay.State.{
  TcpRelaySession, Tracker, Analyzer, Fed, connect, handshake, upstream_read, downstream_read,
  posted_close, begin,
}
use socks5balancer_asio.Relay.Statistics.Sessions.{SessionInfoContainer}
use socks5balancer_asio.Relay.Statistics.Maps.{Statistics}
use socks5balancer_asio.Relay.Statistics.Upstream.{
  add_session_upstream, connect_count_add_upstream, connect_count_sub_upstream,
}
use socks5balancer_asio.Relay.Statistics.Client.{
  add_session_client, connect_count_add_client, connect_count_sub_client,
}
use socks5balancer_asio.Relay.Statistics.Listen.{
  add_session_listen, connect_count_add_listen, connect_count_sub_listen,
}
use socks5balancer_asio.Relay.Statistics.User.{add_session_auth_user}
use socks5balancer_asio.Relay.Statistics.All.{update_session_info}
use socks5balancer_asio.Relay.World.{
  World, Ec, success, aborted, failed, on_session, set_offline, modify_server, server_count_add,
  server_count_sub,
}
use socks5balancer_asio.Relay.Select.{Readings, try_connect_upstream}

-- `getConnectionTracker`: the tracker is made at the first call.
abbrev pub make_tracker : TcpRelaySession → Tracker
make_tracker s = record {
  made_with = elim s.first_pack_analyzer [
    | none ↦ none
    | some a ↦ some (a.connect_type, a.host, a.port)
  ];
  fed = [];
}

unfoldable pub get_connection_tracker : TcpRelaySession → TcpRelaySession
get_connection_tracker s = if s.disable_connection_tracker then s else elim s.connection_tracker [
  | some t ↦ s
  | none ↦ record s { connection_tracker = some (make_tracker s) }
]

-- `if (ct) ct->relayGotoUp(...)`, where `getConnectionTracker` gives no tracker when they are disabled.
abbrev pub feed : Fed → TcpRelaySession → TcpRelaySession
feed d s = if s.disable_connection_tracker then s else elim s.connection_tracker [
  | none ↦ s
  | some t ↦ record s { connection_tracker = some (record t { fed = t.fed ++ d ∷ [] }) }
]

unfoldable pub track : Fed → TcpRelaySession → TcpRelaySession
unfolding get_connection_tracker
track d s = feed d (get_connection_tracker s)

abbrev pub shut : TcpRelaySession → TcpRelaySession
shut s = record s { downstream_open = false; upstream_open = false }

abbrev pub start_relay : TcpRelaySession → TcpRelaySession
start_relay s = begin downstream_read (begin upstream_read s)

-- What the handshake has found, and the user it has set.
abbrev pub complete_session : Analyzer → Option AuthUser → TcpRelaySession → TcpRelaySession
complete_session a au s =
    let t = get_connection_tracker (record s { first_pack_analyzer = some a; auth_user = au }) in
    record t { target_endpoint_addr_string = a.host ++ b':' ∷ decimal a.port }

module _ {sc : SessionInfoContainer} where
  abbrev pub count_statistics : ℕ → ℕ → TcpRelaySession → Statistics sc → Option (Statistics sc)
  count_statistics i now s t = add_session_upstream i s now t >>= λ t1.
      add_session_client s now t1 >>= λ t2. add_session_listen s now t2 >>= λ t3. some (
        connect_count_add_listen s.listen_endpoint_addr_string (
          connect_count_add_client s.client_endpoint_addr_string
            (connect_count_add_upstream i (record t3 { last_connect_server_index = i }))))

  abbrev pub uncount_statistics : ℕ → TcpRelaySession → Statistics sc → Statistics sc
  uncount_statistics i s t =
      connect_count_sub_listen s.listen_endpoint_addr_string
        (connect_count_sub_client s.client_endpoint_addr_string (connect_count_sub_upstream i t))

  abbrev pub complete_statistics : TcpRelaySession → ℕ → Statistics sc → Option (Statistics sc)
  complete_statistics s now t = elim s.auth_user [
    | none ↦ update_session_info s t
    | some au ↦ add_session_auth_user s now t >>= λ t1. update_session_info s t1
  ]

module _ {cb : CircularBuffer} {sc : SessionInfoContainer} where
  -- What is done to the statistics where they can be locked.
  abbrev pub on_statistics :
      (Statistics sc → Option (Statistics sc)) → World cb sc → Option (World cb sc)
  on_statistics f w = elim w.statistics [
    | none ↦ some w
    | some t ↦ f t >>= λ t'. some (record w { statistics = some t' })
  ]

  abbrev pub uncount : ℕ → World cb sc → World cb sc
  uncount i w = record w {
    pool = modify_server i server_count_sub w.pool;
    statistics = elim w.statistics [
      | none ↦ none
      | some t ↦ some (uncount_statistics i w.session t)
    ];
    session = record w.session { is_de_cont = true };
  }

  abbrev pub uncount_at : Option ℕ → World cb sc → World cb sc
  uncount_at none w = w
  uncount_at (some i) w = if w.session.ref_added then uncount i w else w

  unfoldable pub close : World cb sc → World cb sc
  close w =
      let w1 = on_session shut w in
      if w.session.is_de_cont then w1 else uncount_at w.session.now_server w1

  unfoldable pub force_close : World cb sc → World cb sc
  force_close w = on_session (begin posted_close) w

  unfoldable pub stop : World cb sc → World cb sc
  stop w = on_session shut w

  -- The server fails, and the next one is tried.
  abbrev pub try_next : Readings → World cb sc → Option (World cb sc)
  try_next rs w = w.session.now_server >>= λ i. try_connect_upstream rs (set_offline i w)

  -- The handler of `do_resolve`; `is_empty` tells of an empty result.
  unfoldable pub on_resolve : Readings → Ec → Bool → World cb sc → Option (World cb sc)
  on_resolve rs success is_empty w =
      if is_empty
      then try_next rs w
      else some (on_session (λ s. begin connect (record s { upstream_open = true })) w)
  on_resolve rs aborted is_empty w = some w
  on_resolve rs failed is_empty w = try_next rs w

  -- The relay starts, or the handshake does; a second handshake is an error.
  abbrev pub start_data : World cb sc → World cb sc
  start_data w =
      if w.session.tradition_tcp_relay
      then on_session start_relay w
      else elim w.session.first_pack_analyzer [
        | none ↦
            on_session
              (λ s. begin handshake (record s {
                first_pack_analyzer = some (record { connect_type = unknown; host = []; port = 0 });
              }))
              w
        | some a ↦ close w
      ]

  abbrev pub counted_server : ℕ → ℕ → World cb sc → World cb sc
  counted_server i now w = record w {
    pool = modify_server i (server_count_add now) w.pool;
    session = record w.session { ref_added = true };
  }

  -- The handler of `do_connect_upstream`, at the time `now`.
  unfoldable pub on_connect : Readings → Ec → ℕ → World cb sc → Option (World cb sc)
  unfolding close
  on_connect rs success now w = w.session.now_server >>= λ i.
      on_statistics (count_statistics i now w.session) (counted_server i now w) >>= λ w1.
      some (start_data w1)
  on_connect rs aborted now w = some w
  on_connect rs failed now w = try_next rs w

  -- `whenComplete`
  unfoldable pub when_complete : Analyzer → Option AuthUser → ℕ → World cb sc → Option (World cb sc)
  unfolding get_connection_tracker
  when_complete a au now w =
      let w1 = on_session (complete_session a au) w in
      on_statistics (complete_statistics w1.session now) w1 >>= λ w2.
      some (on_session start_relay w2)

  -- `whenError`
  unfoldable pub when_error : World cb sc → World cb sc
  unfolding close
  when_error w = close w
