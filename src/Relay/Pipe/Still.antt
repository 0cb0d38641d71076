-- ===== src/Relay/Pipe/Still.antt =====
-- The parts of the handlers that leave the data and the running operations alone.
use socks5balancer_asio.Prelude.{
  ℕ, ◌-◌, ◌≡◌, refl, ◌∙◌, true, ◌||◌, [], ◌∷◌, ◌++◌, Option, none, some, pos, ◌>>=◌, AllSome,
  AllSome-bind, AllSome-any, if-both, get_elem?,
}
use socks5balancer_asio.Delay.Buffer.{CircularBuffer}
use socks5balancer_asio.Delay.Collect.{DelayCollect, push_relay_first_delay}
use socks5balancer_asio.Pool.Server.{UpstreamServer}
use socks5balancer_asio.Relay.State.{TcpRelaySession, Tracker, Fed}
use socks5balancer_asio.Relay.Statistics.Sessions.{SessionInfoContainer}
use socks5balancer_asio.Relay.Statistics.Maps.{Statistics}
use socks5balancer_asio.Relay.World.{Times, World, modify_server, on_session}
use socks5balancer_asio.Relay.Session.{
  get_connection_tracker, make_tracker, feed, track, on_statistics, close, uncount_at, shut,
}
use socks5balancer_asio.Relay.Transfer.{first_delay, push_at, up_delay, down_delay}
use socks5balancer_asio.Relay.Pipe.{pipes_of}

tracked : (s : TcpRelaySession) → pipes_of (get_connection_tracker s) ≡ pipes_of s
unfolding get_connection_tracker
tracked s =
    if-both (λ t. pipes_of t ≡ pipes_of s) s.disable_connection_tracker (λ e. refl)
      (λ e. made s.connection_tracker)
  where
    made :
        (o : Option Tracker)
        → pipes_of
            (elim o [ some t ↦ s | none ↦ record s { connection_tracker = some (make_tracker s) } ])
          ≡ pipes_of s
    made none = refl
    made (some t) = refl

pub pipes_of-get_connection_tracker :
    (s : TcpRelaySession) → pipes_of (get_connection_tracker s) ≡ pipes_of s
pipes_of-get_connection_tracker s = tracked s

given : (d : Fed) (s : TcpRelaySession) → pipes_of (feed d s) ≡ pipes_of s
given d s =
    if-both (λ t. pipes_of t ≡ pipes_of s) s.disable_connection_tracker (λ e. refl)
      (λ e. at_tracker s.connection_tracker)
  where
    at_tracker :
        (o : Option Tracker)
        → pipes_of (elim o [
          | none ↦ s
          | some t ↦ record s { connection_tracker = some (record t { fed = t.fed ++ d ∷ [] }) }
        ])
          ≡ pipes_of s
    at_tracker none = refl
    at_tracker (some t) = refl

pub pipes_of-track : (d : Fed) (s : TcpRelaySession) → pipes_of (track d s) ≡ pipes_of s
unfolding track
pipes_of-track d s = given d (get_connection_tracker s) ∙ tracked s

module _ {cb : CircularBuffer} {sc : SessionInfoContainer} where
  abbrev pub IsStill : World cb sc → World cb sc → Type 0
  IsStill w v = pipes_of v.session ≡ pipes_of w.session

  pub on_statistics-IsStill :
      (f : Statistics sc → Option (Statistics sc)) (w : World cb sc)
      → AllSome (IsStill w) (on_statistics f w)
  on_statistics-IsStill f w = over w.statistics
    where
      stored :
          (m : Option (Statistics sc))
          → AllSome (IsStill w) (m >>= λ t'. some (record w { statistics = some t' }))
      stored none = tt
      stored (some t) = refl

      over :
          (o : Option (Statistics sc))
          → AllSome (IsStill w) (elim o [
            | none ↦ some w
            | some t ↦ f t >>= λ t'. some (record w { statistics = some t' })
          ])
      over none = refl
      over (some t) = stored (f t)

  push_at-IsStill :
      (i delay now : ℕ) (w : World cb sc) → AllSome (IsStill w) (push_at i delay now w)
  push_at-IsStill i delay now w = at_server (get_elem? w.pool.servers i)
    where
      pushed :
          (m : Option (DelayCollect cb))
          → AllSome (IsStill w) (
              m >>= λ d.
              some
                (record w { pool = modify_server i (λ v. record v { delay_collect = d }) w.pool }))
      pushed none = tt
      pushed (some d) = refl

      at_server :
          (o : Option (UpstreamServer cb))
          → AllSome (IsStill w) (elim o [
            | none ↦ none
            | some u ↦ push_relay_first_delay u.delay_collect (pos delay) now >>= λ d.
                some
                  (record w { pool = modify_server i (λ v. record v { delay_collect = d }) w.pool })
          ])
      at_server none = tt
      at_server (some u) = pushed (push_relay_first_delay u.delay_collect (pos delay) now)

  first_delay-IsStill : (now : Times) (w : World cb sc) → AllSome (IsStill w) (first_delay now w)
  unfolding first_delay
  first_delay-IsStill now w = at_time w.session.first_delay_timestamp
    where
      at_time :
          (o : Option ℕ)
          → AllSome (IsStill w) (elim o [
            | none ↦ some (on_session (λ s. record s { first_delay_timestamp = some now.0 }) w)
            | some first ↦ w.session.now_server >>= λ i. push_at i (now.0 - first) now.1 w
          ])
      at_time none = refl
      at_time (some first) =
          AllSome-bind (λ _. Unit) (IsStill w) w.session.now_server _
            (AllSome-any w.session.now_server) λ i _. push_at-IsStill i (now.0 - first) now.1 w

  pub up_delay-IsStill : (now : Times) (w : World cb sc) → AllSome (IsStill w) (up_delay now w)
  up_delay-IsStill now w =
      if-both (AllSome (IsStill w)) (w.session.tradition_tcp_relay || w.session.first_delay_up_end)
        (λ e. refl)
        (λ e. first_delay-IsStill now (on_session (λ s. record s { first_delay_up_end = true }) w))

  pub down_delay-IsStill : (now : Times) (w : World cb sc) → AllSome (IsStill w) (down_delay now w)
  down_delay-IsStill now w =
      if-both (AllSome (IsStill w))
        (w.session.tradition_tcp_relay || w.session.first_delay_down_end) (λ e. refl)
        (λ e.
          first_delay-IsStill now (on_session (λ s. record s { first_delay_down_end = true }) w))

  uncount_at-IsStill : (o : Option ℕ) (w : World cb sc) → IsStill w (uncount_at o w)
  uncount_at-IsStill none w = refl
  uncount_at-IsStill (some i) w = if-both (IsStill w) w.session.ref_added (λ e. refl) (λ e. refl)

  pub close-IsStill : (w : World cb sc) → IsStill w (close w)
  unfolding close
  close-IsStill w =
      if-both (IsStill w) w.session.is_de_cont (λ e. refl)
        (λ e. uncount_at-IsStill w.session.now_server (on_session shut w))
