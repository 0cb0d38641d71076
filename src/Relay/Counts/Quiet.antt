-- ===== src/Relay/Counts/Quiet.antt =====
-- The operations that leave the counts and the session's part in them alone.
use socks5balancer_asio.Prelude.{
  ℕ, ◌≡◌, refl, ap, ◌∙◌, true, ◌||◌, [], ◌∷◌, ◌++◌, Option, none, some, arith, pos, ◌-◌, ◌>>=◌,
  AllSome, AllSome-bind, AllSome-any, if-both, get_elem?,
}
use socks5balancer_asio.Delay.Buffer.{CircularBuffer}
use socks5balancer_asio.Delay.Collect.{DelayCollect, push_relay_first_delay}
use socks5balancer_asio.Pool.Server.{UpstreamServer}
use socks5balancer_asio.Relay.State.{TcpRelaySession, Tracker, Fed, RelayOp, begin}
use socks5balancer_asio.Relay.Statistics.Sessions.{SessionInfoContainer}
use socks5balancer_asio.Relay.Statistics.Maps.{Statistics}
use socks5balancer_asio.Relay.World.{Times, World, modify_server, on_session}
use socks5balancer_asio.Relay.Session.{
  get_connection_tracker, make_tracker, feed, track, on_statistics,
}
use socks5balancer_asio.Relay.Transfer.{first_delay, push_at, up_delay, down_delay}
use socks5balancer_asio.Relay.Counts.Lists.{weight, connecting, connecting-append}
use socks5balancer_asio.Relay.Counts.Steps.{
  Balanced, Balanced-refl, Balanced-trans, Balanced-same, modified-Balanced,
}
use socks5balancer_asio.Relay.Counts.Handlers.{IsTidy, Kept}

pub record Alike (s s' : TcpRelaySession) : Type 0 where
  pub added : s'.ref_added ≡ s.ref_added
  pub taken : s'.is_de_cont ≡ s.is_de_cont
  pub server : s'.now_server ≡ s.now_server
  pub ops : connecting s'.pending ≡ connecting s.pending

pub Alike-refl : (s : TcpRelaySession) → Alike s s
Alike-refl s = record { added = refl; taken = refl; server = refl; ops = refl }

pub Alike-trans : {s t u : TcpRelaySession} → Alike s t → Alike t u → Alike s u
Alike-trans a b = record {
  added = b.added ∙ a.added;
  taken = b.taken ∙ a.taken;
  server = b.server ∙ a.server;
  ops = b.ops ∙ a.ops;
}

-- Any change of the other fields.
pub alike :
    {s s' : TcpRelaySession}
    → s'.ref_added ≡ s.ref_added
    → s'.is_de_cont ≡ s.is_de_cont
    → s'.now_server ≡ s.now_server
    → s'.pending ≡ s.pending
    → Alike s s'
alike a t n p = record { added = a; taken = t; server = n; ops = ap connecting p }

pub begin-Alike :
    (op : RelayOp) (s : TcpRelaySession) → connecting (op ∷ []) ≡ 0 → Alike s (begin op s)
begin-Alike op s z = record {
  added = refl;
  taken = refl;
  server = refl;
  ops = rw (connecting-append s.pending (op ∷ []), z) (omega arith);
}

tracked : (s : TcpRelaySession) → Alike s (get_connection_tracker s)
unfolding get_connection_tracker
tracked s =
    if-both (Alike s) s.disable_connection_tracker (λ e. Alike-refl s)
      (λ e. made s.connection_tracker)
  where
    made :
        (o : Option Tracker)
        → Alike s
            (elim o [ some t ↦ s | none ↦ record s { connection_tracker = some (make_tracker s) } ])
    made none = alike refl refl refl refl
    made (some t) = Alike-refl s

fed-Alike : (d : Fed) (s : TcpRelaySession) → Alike s (feed d s)
fed-Alike d s =
    if-both (Alike s) s.disable_connection_tracker (λ e. Alike-refl s)
      (λ e. given s.connection_tracker)
  where
    given :
        (o : Option Tracker)
        → Alike s (elim o [
          | none ↦ s
          | some t ↦ record s { connection_tracker = some (record t { fed = t.fed ++ d ∷ [] }) }
        ])
    given none = Alike-refl s
    given (some t) = alike refl refl refl refl

pub get_connection_tracker-Alike : (s : TcpRelaySession) → Alike s (get_connection_tracker s)
get_connection_tracker-Alike s = tracked s

pub track-Alike : (d : Fed) (s : TcpRelaySession) → Alike s (track d s)
unfolding track
track-Alike d s = Alike-trans (tracked s) (fed-Alike d (get_connection_tracker s))

Alike-weight : {s s' : TcpRelaySession} → Alike s s' → (i : ℕ) → weight i s' ≡ weight i s
Alike-weight {s} {s'} a i = rw (a.added, a.taken, a.server)

module _ {cb : CircularBuffer} {sc : SessionInfoContainer} where
  pub record Quiet (w w' : World cb sc) : Type 0 where
    pub balanced : Balanced w w'
    pub parts : Alike w.session w'.session

  pub Quiet-refl : (w : World cb sc) → Quiet w w
  Quiet-refl w = record { balanced = Balanced-refl w; parts = Alike-refl w.session }

  pub Quiet-trans : {u v w : World cb sc} → Quiet u v → Quiet v w → Quiet u w
  Quiet-trans a b = record {
    balanced = Balanced-trans a.balanced b.balanced;
    parts = Alike-trans a.parts b.parts;
  }

  pub Quiet-Tidy : {w w' : World cb sc} → Quiet w w' → IsTidy w.session → IsTidy w'.session
  Quiet-Tidy q v = record {
    once = rw (q.parts.ops, q.parts.added) v.once;
    counted = rw (q.parts.added, q.parts.taken) v.counted;
  }

  pub Quiet-Kept : {w w' : World cb sc} → Quiet w w' → IsTidy w.session → Kept w w'
  Quiet-Kept q v = record { balanced = q.balanced; tidy = Quiet-Tidy q v }

  pub session-Quiet :
      (w w' : World cb sc)
      → w'.pool.servers ≡ w.pool.servers
      → Alike w.session w'.session
      → Quiet w w'
  session-Quiet w w' p a = record { balanced = Balanced-same w w' p (Alike-weight a); parts = a }

  pub Quiet-bind :
      (w : World cb sc) (m : Option (World cb sc)) (k : World cb sc → Option (World cb sc))
      → AllSome (Quiet w) m
      → ((v : World cb sc) → AllSome (Quiet v) (k v))
      → AllSome (Quiet w) (m >>= k)
  Quiet-bind w none k h g = tt
  Quiet-bind w (some v) k h g = further (k v) (g v)
    where
      further : (o : Option (World cb sc)) → AllSome (Quiet v) o → AllSome (Quiet w) o
      further none q = tt
      further (some u) q = Quiet-trans h q

  pub on_statistics-Quiet :
      (f : Statistics sc → Option (Statistics sc)) (w : World cb sc)
      → AllSome (Quiet w) (on_statistics f w)
  on_statistics-Quiet f w = over w.statistics
    where
      stored :
          (m : Option (Statistics sc))
          → AllSome (Quiet w) (m >>= λ t'. some (record w { statistics = some t' }))
      stored none = tt
      stored (some t) = session-Quiet w _ refl (Alike-refl w.session)

      over :
          (o : Option (Statistics sc))
          → AllSome (Quiet w) (elim o [
            | none ↦ some w
            | some t ↦ f t >>= λ t'. some (record w { statistics = some t' })
          ])
      over none = Quiet-refl w
      over (some t) = stored (f t)

  pushed-Quiet :
      (i : ℕ) (d : DelayCollect cb) (w : World cb sc)
      → Quiet w (record w { pool = modify_server i (λ v. record v { delay_collect = d }) w.pool })
  pushed-Quiet i d w = record {
    balanced =
        modified-Balanced (λ v. record v { delay_collect = d }) 0 i w _ (λ u. omega arith) refl
          (λ j. ground arith);
    parts = Alike-refl w.session;
  }

  push_at-Quiet : (i delay now : ℕ) (w : World cb sc) → AllSome (Quiet w) (push_at i delay now w)
  push_at-Quiet i delay now w = at_server (get_elem? w.pool.servers i)
    where
      pushed :
          (m : Option (DelayCollect cb))
          → AllSome (Quiet w) (
              m >>= λ d.
              some
                (record w { pool = modify_server i (λ v. record v { delay_collect = d }) w.pool }))
      pushed none = tt
      pushed (some d) = pushed-Quiet i d w

      at_server :
          (o : Option (UpstreamServer cb))
          → AllSome (Quiet w) (elim o [
            | none ↦ none
            | some u ↦ push_relay_first_delay u.delay_collect (pos delay) now >>= λ d.
                some
                  (record w { pool = modify_server i (λ v. record v { delay_collect = d }) w.pool })
          ])
      at_server none = tt
      at_server (some u) = pushed (push_relay_first_delay u.delay_collect (pos delay) now)

  first_delay-Quiet : (now : Times) (w : World cb sc) → AllSome (Quiet w) (first_delay now w)
  unfolding first_delay
  first_delay-Quiet now w = at_time w.session.first_delay_timestamp
    where
      at_time :
          (o : Option ℕ)
          → AllSome (Quiet w) (elim o [
            | none ↦ some (on_session (λ s. record s { first_delay_timestamp = some now.0 }) w)
            | some first ↦ w.session.now_server >>= λ i. push_at i (now.0 - first) now.1 w
          ])
      at_time none = session-Quiet w _ refl (alike refl refl refl refl)
      at_time (some first) =
          AllSome-bind (λ _. Unit) (Quiet w) w.session.now_server _
            (AllSome-any w.session.now_server) λ i _. push_at-Quiet i (now.0 - first) now.1 w

  Quiet-before :
      (w v : World cb sc) (o : Option (World cb sc))
      → Quiet w v
      → AllSome (Quiet v) o
      → AllSome (Quiet w) o
  Quiet-before w v none q h = tt
  Quiet-before w v (some u) q h = Quiet-trans q h

  pub up_delay-Quiet : (now : Times) (w : World cb sc) → AllSome (Quiet w) (up_delay now w)
  up_delay-Quiet now w =
      if-both (AllSome (Quiet w)) (w.session.tradition_tcp_relay || w.session.first_delay_up_end)
        (λ e. Quiet-refl w)
        (λ e.
          Quiet-before w (on_session (λ s. record s { first_delay_up_end = true }) w) _
            (session-Quiet w _ refl (alike refl refl refl refl)) (first_delay-Quiet now _))

  pub down_delay-Quiet : (now : Times) (w : World cb sc) → AllSome (Quiet w) (down_delay now w)
  down_delay-Quiet now w =
      if-both (AllSome (Quiet w)) (w.session.tradition_tcp_relay || w.session.first_delay_down_end)
        (λ e. Quiet-refl w)
        (λ e.
          Quiet-before w (on_session (λ s. record s { first_delay_down_end = true }) w) _
            (session-Quiet w _ refl (alike refl refl refl refl)) (first_delay-Quiet now _))
