-- ===== src/Relay/Pipe/Effects.antt =====
-- Every handler of a session has one of the effects.
use socks5balancer_asio.Prelude.{
  ℕ, ◌≡◌, refl, sym, subst, ap, ◌∙◌, Bool, true, false, [], ◌∷◌, ◌++◌, Option, none, some, Bytes,
  length, take, leb, ◌>>=◌, add64, AllSome, AllSome-bind, AllSome-any, if-both,
}
use socks5balancer_asio.Auth.Users.{AuthUser}
use socks5balancer_asio.Handshake.State.{unknown}
use socks5balancer_asio.Delay.Buffer.{CircularBuffer}
use socks5balancer_asio.Relay.State.{
  TcpRelaySession, Analyzer, resolve, connect, handshake, upstream_read, downstream_read,
  downstream_write, upstream_write, begin, relay_goto_up, relay_goto_down,
}
use socks5balancer_asio.Relay.Statistics.Sessions.{SessionInfoContainer}
use socks5balancer_asio.Relay.World.{
  Times, World, Ec, success, aborted, failed, on_session, set_offline,
}
use socks5balancer_asio.Relay.Select.{
  Readings, Chosen, choose_server, resolve_with, try_connect_upstream,
}
use socks5balancer_asio.Relay.Session.{
  close, when_error, on_statistics, try_next, on_resolve, on_connect, start_data, start_relay,
  counted_server, count_statistics, when_complete, complete_session, complete_statistics, track,
}
use socks5balancer_asio.Relay.Transfer.{
  on_upstream_read, on_downstream_read, on_upstream_write, on_downstream_write, up_delay,
  down_delay, add_up_2_statistics, add_down_2_statistics, read_up, read_down, up_statistics,
  down_statistics,
}
use socks5balancer_asio.Relay.Run.{
  Event, resolves, connects, completes, errs, upstream_reads, downstream_reads, downstream_writes,
  upstream_writes, posted, handle,
}
use socks5balancer_asio.Relay.Counts.Choice.{Same, choose_server_same}
use socks5balancer_asio.Relay.Pipe.{
  Pipes, pipes_of, MayEnd, Opens, no_address, no_answer, no_connection, resolved, connected,
  StartsRelay, goes_on, add, Effect, ends, opens, relays, takes_up, takes_down, gives_down,
  last_down, gives_up, last_up,
}
use socks5balancer_asio.Relay.Pipe.Still.{
  pipes_of-get_connection_tracker, pipes_of-track, IsStill, on_statistics-IsStill, up_delay-IsStill,
  down_delay-IsStill, close-IsStill,
}

module _ {cb : CircularBuffer} {sc : SessionInfoContainer} where
  abbrev pub HasEffect : Event → World cb sc → World cb sc → Type 0
  HasEffect e w v = Effect e (pipes_of w.session) (pipes_of v.session)

  -- A quiet part, and then a change of the session.
  then_session :
      (e : Event) (w v : World cb sc) (f : TcpRelaySession → TcpRelaySession) (g : Pipes → Pipes)
      (o : Option (World cb sc))
      → ((s : TcpRelaySession) → pipes_of (f s) ≡ g (pipes_of s))
      → AllSome (IsStill v) o
      → Effect e (pipes_of w.session) (g (pipes_of v.session))
      → AllSome (HasEffect e w) (o >>= λ u. some (on_session f u))
  then_session e w v f g none h q x = tt
  then_session e w v f g (some u) h q x =
      subst (λ c. Effect e (pipes_of w.session) c) (sym (h u.session ∙ ap g q)) x

  closed : (e : Event) (w v : World cb sc) → HasEffect e w v → HasEffect e w (close v)
  closed e w v x = subst (λ c. Effect e (pipes_of w.session) c) (sym (close-IsStill v)) x

  pub attempt-HasEffect :
      (e : Event) (rs : Readings) (w : World cb sc)
      → Opens e resolve
      → MayEnd e
      → AllSome (HasEffect e w) (try_connect_upstream rs w)
  unfolding try_connect_upstream
  attempt-HasEffect e rs w o n =
      if-both (AllSome (HasEffect e w)) (leb w.session.retry_count w.session.retry_limit)
        (λ _.
          AllSome-bind _ (HasEffect e w) (choose_server rs v) _ (choose_server_same rs v) resolving)
        (λ _. ends e _ n)
    where
      v : World cb sc
      v = on_session (λ s. record s { retry_count = add64 s.retry_count 1 }) w

      resolving : (c : Chosen cb sc) → Same v c.1 → HasEffect e w (resolve_with c)
      resolving (none, u) q = rw (q.session) (ends e _ n)
      resolving (some s, u) q = rw (q.session) (opens e resolve _ o)

  next-HasEffect :
      (e : Event) (rs : Readings) (w : World cb sc)
      → Opens e resolve
      → MayEnd e
      → AllSome (HasEffect e w) (try_next rs w)
  next-HasEffect e rs w o n =
      AllSome-bind (λ _. Unit) (HasEffect e w) w.session.now_server _
        (AllSome-any w.session.now_server) λ i _. attempt-HasEffect e rs (set_offline i w) o n

  on_resolve-HasEffect :
      (rs : Readings) (ec : Ec) (is_empty : Bool) (w : World cb sc)
      → AllSome (HasEffect (resolves ec is_empty) w) (on_resolve rs ec is_empty w)
  unfolding on_resolve
  on_resolve-HasEffect rs success true w =
      next-HasEffect (resolves success true) rs w no_address refl
  on_resolve-HasEffect rs success false w = opens (resolves success false) connect _ resolved
  on_resolve-HasEffect rs aborted is_empty w = ends _ _ tt
  on_resolve-HasEffect rs failed is_empty w =
      next-HasEffect (resolves failed is_empty) rs w (no_answer is_empty) tt

  start_data-HasEffect :
      (e : Event) (w v : World cb sc)
      → Opens e handshake
      → StartsRelay e
      → MayEnd e
      → IsStill w v
      → HasEffect e w (start_data v)
  start_data-HasEffect e w v o r n q =
      if-both (HasEffect e w) v.session.tradition_tcp_relay
        (λ _. moved (λ c. add (downstream_read ∷ []) (add (upstream_read ∷ []) c)) (relays e _ r))
        (λ _. at_pack v.session.first_pack_analyzer)
    where
      moved :
          (g : Pipes → Pipes)
          → Effect e (pipes_of w.session) (g (pipes_of w.session))
          → Effect e (pipes_of w.session) (g (pipes_of v.session))
      moved g x = subst (λ c. Effect e (pipes_of w.session) (g c)) (sym q) x

      at_pack :
          (p : Option Analyzer)
          → HasEffect e w (elim p [
            | none ↦
                on_session
                  (λ s. begin handshake (record s {
                    first_pack_analyzer =
                        some (record { connect_type = unknown; host = []; port = 0 });
                  }))
                  v
            | some a ↦ close v
          ])
      at_pack none = moved (λ c. add (handshake ∷ []) c) (opens e handshake _ o)
      at_pack (some a) = closed e w v (moved (λ c. c) (ends e _ n))

  on_connect-HasEffect :
      (rs : Readings) (ec : Ec) (now : ℕ) (w : World cb sc)
      → AllSome (HasEffect (connects ec now) w) (on_connect rs ec now w)
  unfolding on_connect
  on_connect-HasEffect rs success now w =
      AllSome-bind (λ _. Unit) (HasEffect e w) w.session.now_server _
        (AllSome-any w.session.now_server)
        λ i _.
          AllSome-bind (IsStill w) (HasEffect e w)
            (on_statistics (count_statistics i now w.session) (counted_server i now w)) _
            (on_statistics-IsStill (count_statistics i now w.session) (counted_server i now w))
            (λ v q. start_data-HasEffect e w v (connected now) tt tt q)
    where
      e : Event
      e = connects success now
  on_connect-HasEffect rs aborted now w = ends _ _ tt
  on_connect-HasEffect rs failed now w =
      next-HasEffect (connects failed now) rs w (no_connection now) tt

  when_complete-HasEffect :
      (a : Analyzer) (au : Option AuthUser) (now : ℕ) (w : World cb sc)
      → AllSome (HasEffect (completes a au now) w) (when_complete a au now w)
  unfolding when_complete
  when_complete-HasEffect a au now w =
      let v = on_session (complete_session a au) w in
      let same : pipes_of (complete_session a au w.session) ≡ pipes_of w.session =
        pipes_of-get_connection_tracker
          (record w.session { first_pack_analyzer = some a; auth_user = au }) in
      then_session (completes a au now) w v start_relay
        (λ c. add (downstream_read ∷ []) (add (upstream_read ∷ []) c)) _ (λ s. refl)
        (on_statistics-IsStill (complete_statistics (complete_session a au w.session) now) v)
        (subst
          (λ c.
            Effect (completes a au now) (pipes_of w.session)
              (add (downstream_read ∷ []) (add (upstream_read ∷ []) c)))
          (sym same) (relays (completes a au now) (pipes_of w.session) tt))

  on_upstream_read-HasEffect :
      (ec : Ec) (b : Bytes) (now : Times) (w : World cb sc)
      → AllSome (HasEffect (upstream_reads ec b now) w) (on_upstream_read ec b now w)
  unfolding on_upstream_read
  on_upstream_read-HasEffect success b now w =
      let v = on_session (λ s. track (relay_goto_down b) (read_up b s)) w in
      then_session (upstream_reads success b now) w v (begin (downstream_write (length b)))
        (λ c. add (downstream_write (length b) ∷ []) c) (up_delay now v) (λ s. refl)
        (up_delay-IsStill now v)
        (subst
          (λ c.
            Effect (upstream_reads success b now) (pipes_of w.session)
              (add (downstream_write (length b) ∷ []) c))
          (sym (pipes_of-track (relay_goto_down b) (read_up b w.session))) (takes_up b now _))
  on_upstream_read-HasEffect aborted b now w =
      closed (upstream_reads aborted b now) w w (ends _ _ tt)
  on_upstream_read-HasEffect failed b now w = closed (upstream_reads failed b now) w w (ends _ _ tt)

  on_downstream_read-HasEffect :
      (ec : Ec) (b : Bytes) (now : Times) (w : World cb sc)
      → AllSome (HasEffect (downstream_reads ec b now) w) (on_downstream_read ec b now w)
  unfolding on_downstream_read
  on_downstream_read-HasEffect success b now w =
      let v = on_session (λ s. track (relay_goto_up b) (read_down b s)) w in
      then_session (downstream_reads success b now) w v (begin (upstream_write (length b)))
        (λ c. add (upstream_write (length b) ∷ []) c) (down_delay now v) (λ s. refl)
        (down_delay-IsStill now v)
        (subst
          (λ c.
            Effect (downstream_reads success b now) (pipes_of w.session)
              (add (upstream_write (length b) ∷ []) c))
          (sym (pipes_of-track (relay_goto_up b) (read_down b w.session))) (takes_down b now _))
  on_downstream_read-HasEffect aborted b now w =
      closed (downstream_reads aborted b now) w w (ends _ _ tt)
  on_downstream_read-HasEffect failed b now w =
      closed (downstream_reads failed b now) w w (ends _ _ tt)

  on_downstream_write-HasEffect :
      (n : ℕ) (ec : Ec) (k : ℕ) (w : World cb sc)
      → AllSome (HasEffect (downstream_writes n ec k) w) (on_downstream_write n ec k w)
  unfolding on_downstream_write add_down_2_statistics
  on_downstream_write-HasEffect n ec k w =
      let v =
        on_session
          (λ s. record s { to_downstream = s.to_downstream ++ take k (take n s.upstream_data) })
          w in
      if-both (AllSome (HasEffect (downstream_writes n ec k) w)) (goes_on ec n k)
        (λ q.
          then_session (downstream_writes n ec k) w v (begin upstream_read)
            (λ c. add (upstream_read ∷ []) c) (add_down_2_statistics k v) (λ s. refl)
            (on_statistics-IsStill
              (λ t. w.session.now_server >>= λ i. some (down_statistics i w.session k t)) v)
            (gives_down n ec k _ q))
        (λ q. closed (downstream_writes n ec k) w v (last_down n ec k _ q))

  on_upstream_write-HasEffect :
      (n : ℕ) (ec : Ec) (k : ℕ) (w : World cb sc)
      → AllSome (HasEffect (upstream_writes n ec k) w) (on_upstream_write n ec k w)
  unfolding on_upstream_write add_up_2_statistics
  on_upstream_write-HasEffect n ec k w =
      let v =
        on_session
          (λ s. record s { to_upstream = s.to_upstream ++ take k (take n s.downstream_data) }) w in
      if-both (AllSome (HasEffect (upstream_writes n ec k) w)) (goes_on ec n k)
        (λ q.
          then_session (upstream_writes n ec k) w v (begin downstream_read)
            (λ c. add (downstream_read ∷ []) c) (add_up_2_statistics k v) (λ s. refl)
            (on_statistics-IsStill
              (λ t. w.session.now_server >>= λ i. some (up_statistics i w.session k t)) v)
            (gives_up n ec k _ q))
        (λ q. closed (upstream_writes n ec k) w v (last_up n ec k _ q))

  -- Every handler that returns does to the data and the running operations of its session what its
  -- operation and the result of it allow. A read that succeeds takes its data and begins the write of
  -- it, and one that does not succeed ends. A write gives its data and, if it succeeds or was not
  -- complete, begins the next read, and ends otherwise. A resolve with an address begins the connect;
  -- one with no address or an error, or a connect with an error, ends or begins the next attempt; an
  -- aborted one ends. A connect that succeeds begins the handshake or the relay, or
  -- ends; nothing else begins the handshake, and only the end of the handshake begins the relay too,
  -- which is a read from each side.
  pub handle-HasEffect :
      (rs : Readings) (e : Event) (w v : World cb sc) → handle rs e w ≡ some v → HasEffect e w v
  unfolding handle when_error
  handle-HasEffect rs e w v h = result (handle rs e w) h (all e)
    where
      result : (o : Option (World cb sc)) → o ≡ some v → AllSome (HasEffect e w) o → HasEffect e w v
      result o p x = rw p at x

      all : (e : Event) → AllSome (HasEffect e w) (handle rs e w)
      all (resolves ec is_empty) = on_resolve-HasEffect rs ec is_empty w
      all (connects ec now) = on_connect-HasEffect rs ec now w
      all (completes a au now) = when_complete-HasEffect a au now w
      all errs = closed errs w w (ends _ _ tt)
      all (upstream_reads ec b now) = on_upstream_read-HasEffect ec b now w
      all (downstream_reads ec b now) = on_downstream_read-HasEffect ec b now w
      all (downstream_writes n ec k) = on_downstream_write-HasEffect n ec k w
      all (upstream_writes n ec k) = on_upstream_write-HasEffect n ec k w
      all posted = closed posted w w (ends _ _ tt)
