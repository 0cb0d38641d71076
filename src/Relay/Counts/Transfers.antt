-- ===== src/Relay/Counts/Transfers.antt =====
-- The handlers of the relay's reads and writes.
use socks5balancer_asio.Prelude.{
  ℕ, ◌≡◌, refl, not, ◌||◌, [], ◌∷◌, ◌++◌, Option, none, some, Bytes, ◌==◌, ◌>>=◌, AllSome, if-both,
  length, take,
}
use socks5balancer_asio.Delay.Buffer.{CircularBuffer}
use socks5balancer_asio.Relay.State.{RelayOp, begin, relay_goto_up, relay_goto_down}
use socks5balancer_asio.Relay.Statistics.Sessions.{SessionInfoContainer}
use socks5balancer_asio.Relay.World.{Times, World, Ec, on_session}
use socks5balancer_asio.Relay.Session.{close, track}
use socks5balancer_asio.Relay.Transfer.{
  on_upstream_read, on_downstream_read, on_upstream_write, on_downstream_write, up_delay,
  down_delay, add_up_2_statistics, add_down_2_statistics, is_success, up_statistics,
  down_statistics, read_up, read_down,
}
use socks5balancer_asio.Relay.Counts.Lists.{connecting}
use socks5balancer_asio.Relay.Counts.Handlers.{IsTidy, Kept, Kept-after, close-Kept}
use socks5balancer_asio.Relay.Counts.Quiet.{
  Alike-trans, alike, begin-Alike, track-Alike, Quiet, Quiet-trans, Quiet-Kept, Quiet-Tidy,
  session-Quiet, on_statistics-Quiet, up_delay-Quiet, down_delay-Quiet,
}

module _ {cb : CircularBuffer} {sc : SessionInfoContainer} where
  close_after : (w v : World cb sc) → Quiet w v → IsTidy w.session → Kept w (close v)
  close_after w v q t = Kept-after q.balanced (close-Kept v (Quiet-Tidy q t))

  add_down_2_statistics-Quiet :
      (k : ℕ) (w : World cb sc) → AllSome (Quiet w) (add_down_2_statistics k w)
  unfolding add_down_2_statistics
  add_down_2_statistics-Quiet k w =
      on_statistics-Quiet
        (λ t. w.session.now_server >>= λ i. some (down_statistics i w.session k t)) w

  add_up_2_statistics-Quiet :
      (k : ℕ) (w : World cb sc) → AllSome (Quiet w) (add_up_2_statistics k w)
  unfolding add_up_2_statistics
  add_up_2_statistics-Quiet k w =
      on_statistics-Quiet (λ t. w.session.now_server >>= λ i. some (up_statistics i w.session k t))
        w

  -- What follows a quiet part of a handler: one operation that is no attempt to connect.
  then_begin :
      (w v : World cb sc) (op : RelayOp) (o : Option (World cb sc))
      → connecting (op ∷ []) ≡ 0
      → IsTidy w.session
      → Quiet w v
      → AllSome (Quiet v) o
      → AllSome (Kept w) (o >>= λ u. some (on_session (begin op) u))
  then_begin w v op none z t q h = tt
  then_begin w v op (some u) z t q h =
      Quiet-Kept
        (Quiet-trans q (Quiet-trans h (session-Quiet u _ refl (begin-Alike op u.session z)))) t

  pub on_upstream_read-Kept :
      (ec : Ec) (b : Bytes) (now : Times) (w : World cb sc)
      → IsTidy w.session
      → AllSome (Kept w) (on_upstream_read ec b now w)
  unfolding on_upstream_read
  on_upstream_read-Kept ec b now w t =
      let v = on_session (λ s. track (relay_goto_down b) (read_up b s)) w in
      if-both (AllSome (Kept w)) (is_success ec)
        (λ e.
          then_begin w v (RelayOp.downstream_write (length b)) (up_delay now v) refl t
            (session-Quiet w v refl (
              Alike-trans (alike refl refl refl refl)
                (track-Alike (relay_goto_down b) (read_up b w.session))))
            (up_delay-Quiet now v))
        (λ e. close-Kept w t)

  pub on_downstream_read-Kept :
      (ec : Ec) (b : Bytes) (now : Times) (w : World cb sc)
      → IsTidy w.session
      → AllSome (Kept w) (on_downstream_read ec b now w)
  unfolding on_downstream_read
  on_downstream_read-Kept ec b now w t =
      let v = on_session (λ s. track (relay_goto_up b) (read_down b s)) w in
      if-both (AllSome (Kept w)) (is_success ec)
        (λ e.
          then_begin w v (RelayOp.upstream_write (length b)) (down_delay now v) refl t
            (session-Quiet w v refl (
              Alike-trans (alike refl refl refl refl)
                (track-Alike (relay_goto_up b) (read_down b w.session))))
            (down_delay-Quiet now v))
        (λ e. close-Kept w t)

  pub on_downstream_write-Kept :
      (n : ℕ) (ec : Ec) (k : ℕ) (w : World cb sc)
      → IsTidy w.session
      → AllSome (Kept w) (on_downstream_write n ec k w)
  unfolding on_downstream_write
  on_downstream_write-Kept n ec k w t =
      let v =
        on_session
          (λ s. record s { to_downstream = s.to_downstream ++ take k (take n s.upstream_data) })
          w in
      let q = session-Quiet w v refl (alike refl refl refl refl) in
      if-both (AllSome (Kept w)) (is_success ec || not (k == n))
        (λ e.
          then_begin w v RelayOp.upstream_read (add_down_2_statistics k v) refl t q
            (add_down_2_statistics-Quiet k v))
        (λ e. close_after w v q t)

  pub on_upstream_write-Kept :
      (n : ℕ) (ec : Ec) (k : ℕ) (w : World cb sc)
      → IsTidy w.session
      → AllSome (Kept w) (on_upstream_write n ec k w)
  unfolding on_upstream_write
  on_upstream_write-Kept n ec k w t =
      let v =
        on_session
          (λ s. record s { to_upstream = s.to_upstream ++ take k (take n s.downstream_data) }) w in
      let q = session-Quiet w v refl (alike refl refl refl refl) in
      if-both (AllSome (Kept w)) (is_success ec || not (k == n))
        (λ e.
          then_begin w v RelayOp.downstream_read (add_up_2_statistics k v) refl t q
            (add_up_2_statistics-Quiet k v))
        (λ e. close_after w v q t)
