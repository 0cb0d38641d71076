-- ===== src/Relay/Transfer.antt =====
-- TcpRelaySession.cpp: the two directions of the relay, and the client's and server's data.
use socks5balancer_asio.Prelude.{
  ℕ, ◌-◌, Bool, true, false, not, ◌||◌, ◌++◌, Option, none, some, Bytes, length, take, get_elem?,
  pos, ◌==◌, if◌then◌else◌, ◌>>=◌,
}
use socks5balancer_asio.Delay.Buffer.{CircularBuffer}
use socks5balancer_asio.Delay.Collect.{push_relay_first_delay}
use socks5balancer_asio.Relay.State.{
  TcpRelaySession, relay_goto_up, relay_goto_down, upstream_read, downstream_read, downstream_write,
  upstream_write, begin,
}
use socks5balancer_asio.Relay.Statistics.Sessions.{SessionInfoContainer}
use socks5balancer_asio.Relay.Statistics.Maps.{Statistics}
use socks5balancer_asio.Relay.Statistics.Upstream.{add_byte_up_upstream, add_byte_down_upstream}
use socks5balancer_asio.Relay.Statistics.Client.{add_byte_up_client, add_byte_down_client}
use socks5balancer_asio.Relay.Statistics.Listen.{add_byte_up_listen, add_byte_down_listen}
use socks5balancer_asio.Relay.Statistics.User.{add_byte_up_auth_user, add_byte_down_auth_user}
use socks5balancer_asio.Relay.World.{
  Times, World, Ec, success, aborted, failed, on_session, modify_server,
}
use socks5balancer_asio.Relay.Session.{close, track, on_statistics}

-- No error.
abbrev pub is_success : Ec → Bool
is_success success = true
is_success aborted = false
is_success failed = false

abbrev pub read_up : Bytes → TcpRelaySession → TcpRelaySession
read_up b s = record s { upstream_data = b; from_upstream = s.from_upstream ++ b }

abbrev pub read_down : Bytes → TcpRelaySession → TcpRelaySession
read_down b s = record s { downstream_data = b; from_downstream = s.from_downstream ++ b }

module _ {sc : SessionInfoContainer} where
  abbrev pub up_statistics : ℕ → TcpRelaySession → ℕ → Statistics sc → Statistics sc
  up_statistics i s n t =
      let t1 =
        add_byte_up_listen s.listen_endpoint_addr_string n
          (add_byte_up_client s.client_endpoint_addr_string n (add_byte_up_upstream i n t)) in
      elim s.auth_user [ none ↦ t1 | some au ↦ add_byte_up_auth_user au.id n t1 ]

  abbrev pub down_statistics : ℕ → TcpRelaySession → ℕ → Statistics sc → Statistics sc
  down_statistics i s n t =
      let t1 =
        add_byte_down_listen s.listen_endpoint_addr_string n
          (add_byte_down_client s.client_endpoint_addr_string n (add_byte_down_upstream i n t)) in
      elim s.auth_user [ none ↦ t1 | some au ↦ add_byte_down_auth_user au.id n t1 ]

module _ {cb : CircularBuffer} {sc : SessionInfoContainer} where
  unfoldable pub add_up_2_statistics : ℕ → World cb sc → Option (World cb sc)
  add_up_2_statistics n w =
      on_statistics (λ t. w.session.now_server >>= λ i. some (up_statistics i w.session n t)) w

  unfoldable pub add_down_2_statistics : ℕ → World cb sc → Option (World cb sc)
  add_down_2_statistics n w =
      on_statistics (λ t. w.session.now_server >>= λ i. some (down_statistics i w.session n t)) w

  abbrev pub push_at : ℕ → ℕ → ℕ → World cb sc → Option (World cb sc)
  push_at i delay now w = elim (get_elem? w.pool.servers i) [
    | none ↦ none
    | some u ↦ push_relay_first_delay u.delay_collect (pos delay) now >>= λ d.
        some (record w { pool = modify_server i (λ v. record v { delay_collect = d }) w.pool })
  ]

  -- The first of the two directions writes the time, the other one pushes the delay; the steady clock
  -- does not go back.
  unfoldable pub first_delay : Times → World cb sc → Option (World cb sc)
  first_delay now w = elim w.session.first_delay_timestamp [
    | none ↦ some (on_session (λ s. record s { first_delay_timestamp = some now.0 }) w)
    | some first ↦ w.session.now_server >>= λ i. push_at i (now.0 - first) now.1 w
  ]

  abbrev pub up_delay : Times → World cb sc → Option (World cb sc)
  up_delay now w =
      if w.session.tradition_tcp_relay || w.session.first_delay_up_end
      then some w
      else first_delay now (on_session (λ s. record s { first_delay_up_end = true }) w)

  abbrev pub down_delay : Times → World cb sc → Option (World cb sc)
  down_delay now w =
      if w.session.tradition_tcp_relay || w.session.first_delay_down_end
      then some w
      else first_delay now (on_session (λ s. record s { first_delay_down_end = true }) w)

  -- The handler of `do_upstream_read`; `b` is what was received.
  unfoldable pub on_upstream_read : Ec → Bytes → Times → World cb sc → Option (World cb sc)
  on_upstream_read ec b now w =
      if is_success ec
      then (up_delay now (on_session (λ s. track (relay_goto_down b) (read_up b s)) w) >>= λ w1.
          some (on_session (begin (downstream_write (length b))) w1))
      else some (close w)

  -- The handler of `do_downstream_write`: `n` bytes were asked for, `k` were sent.
  unfoldable pub on_downstream_write : ℕ → Ec → ℕ → World cb sc → Option (World cb sc)
  on_downstream_write n ec k w =
      let w1 =
        on_session
          (λ s. record s { to_downstream = s.to_downstream ++ take k (take n s.upstream_data) })
          w in
      if is_success ec || not (k == n)
      then (add_down_2_statistics k w1 >>= λ w2. some (on_session (begin upstream_read) w2))
      else some (close w1)

  -- The handler of `do_downstream_read`.
  unfoldable pub on_downstream_read : Ec → Bytes → Times → World cb sc → Option (World cb sc)
  on_downstream_read ec b now w =
      if is_success ec
      then (down_delay now (on_session (λ s. track (relay_goto_up b) (read_down b s)) w) >>= λ w1.
          some (on_session (begin (upstream_write (length b))) w1))
      else some (close w)

  -- The handler of `do_upstream_write`.
  unfoldable pub on_upstream_write : ℕ → Ec → ℕ → World cb sc → Option (World cb sc)
  on_upstream_write n ec k w =
      let w1 =
        on_session
          (λ s. record s { to_upstream = s.to_upstream ++ take k (take n s.downstream_data) }) w in
      if is_success ec || not (k == n)
      then (add_up_2_statistics k w1 >>= λ w2. some (on_session (begin downstream_read) w2))
      else some (close w1)
