-- ===== src/Relay/Counts/Events.antt =====
-- The handlers of the attempts to connect and of the handshake.
use socks5balancer_asio.Prelude.{
  ℕ, ◌≡◌, refl, Bool, [], ◌∷◌, Option, none, some, arith, ◌>>=◌, AllSome, if-both,
}
use socks5balancer_asio.Auth.Users.{AuthUser}
use socks5balancer_asio.Handshake.State.{unknown}
use socks5balancer_asio.Delay.Buffer.{CircularBuffer}
use socks5balancer_asio.Relay.State.{TcpRelaySession, Analyzer, RelayOp, connect, handshake, begin}
use socks5balancer_asio.Relay.Statistics.Sessions.{SessionInfoContainer}
use socks5balancer_asio.Relay.World.{
  World, Ec, success, aborted, failed, on_session, server_count_add,
}
use socks5balancer_asio.Relay.Select.{Readings}
use socks5balancer_asio.Relay.Session.{
  close, on_statistics, on_resolve, on_connect, start_data, start_relay, counted_server,
  count_statistics, when_complete, complete_session, complete_statistics,
}
use socks5balancer_asio.Relay.Counts.Lists.{connecting-append}
use socks5balancer_asio.Relay.Counts.Steps.{
  Balanced-refl, Balanced-trans, Balanced-same, modified-Balanced,
}
use socks5balancer_asio.Relay.Counts.Handlers.{
  IsTidy, IsFree, Kept, Kept-after, close-Kept, try_next-Kept,
}
use socks5balancer_asio.Relay.Counts.Quiet.{
  Alike, Alike-trans, alike, begin-Alike, get_connection_tracker-Alike, Quiet, Quiet-trans,
  Quiet-Kept, Quiet-Tidy, session-Quiet, on_statistics-Quiet,
}

start_relay-Alike : (s : TcpRelaySession) → Alike s (start_relay s)
start_relay-Alike s =
    Alike-trans (begin-Alike RelayOp.upstream_read s refl)
      (begin-Alike RelayOp.downstream_read _ refl)

complete_session-Alike :
    (a : Analyzer) (au : Option AuthUser) (s : TcpRelaySession) → Alike s (complete_session a au s)
complete_session-Alike a au s =
    Alike-trans
      (Alike-trans (alike refl refl refl refl)
        (get_connection_tracker-Alike (record s { first_pack_analyzer = some a; auth_user = au })))
      (alike refl refl refl refl)

module _ {cb : CircularBuffer} {sc : SessionInfoContainer} where
  pub on_resolve-Kept :
      (rs : Readings) (ec : Ec) (is_empty : Bool) (w : World cb sc)
      → IsFree w.session
      → AllSome (Kept w) (on_resolve rs ec is_empty w)
  unfolding on_resolve
  on_resolve-Kept rs success is_empty w f =
      if-both (AllSome (Kept w)) is_empty (λ e. try_next-Kept rs w f)
        (λ e. record {
          balanced = Balanced-same w _ refl (λ i. refl);
          tidy = record {
            once =
                rw (connecting-append w.session.pending (connect ∷ []), f.idle, f.not_added)
                  (omega arith);
            counted = λ d. cc (d, f.not_taken);
          };
        })
  on_resolve-Kept rs aborted is_empty w f = record {
    balanced = Balanced-refl w;
    tidy = record {
      once = rw (f.idle, f.not_added) (omega arith);
      counted = λ d. cc (d, f.not_taken);
    };
  }
  on_resolve-Kept rs failed is_empty w f = try_next-Kept rs w f

  start_data-Kept : (w : World cb sc) → IsTidy w.session → Kept w (start_data w)
  start_data-Kept w v =
      if-both (Kept w) w.session.tradition_tcp_relay
        (λ e. Quiet-Kept (session-Quiet w _ refl (start_relay-Alike w.session)) v)
        (λ e. first_pack w.session.first_pack_analyzer)
    where
      first_pack :
          (o : Option Analyzer)
          → Kept w (elim o [
            | none ↦
                on_session
                  (λ s. begin handshake (record s {
                    first_pack_analyzer =
                        some (record { connect_type = unknown; host = []; port = 0 });
                  }))
                  w
            | some a ↦ close w
          ])
      first_pack none =
          Quiet-Kept
            (session-Quiet w _ refl
              (Alike-trans (alike refl refl refl refl) (begin-Alike handshake _ refl)))
            v
      first_pack (some a) = close-Kept w v

  added-Kept :
      (i now : ℕ) (w : World cb sc)
      → w.session.now_server ≡ some i
      → IsFree w.session
      → Kept w (counted_server i now w)
  added-Kept i now w n f = record {
    balanced =
        modified-Balanced (server_count_add now) 1 i w (counted_server i now w) (λ u. omega arith)
          refl (λ j. rw (n, f.not_added, f.not_taken) (ground arith));
    tidy = record { once = rw (f.idle) (omega arith); counted = λ d. refl };
  }

  counted_after :
      (i now : ℕ) (w : World cb sc) (o : Option (World cb sc))
      → w.session.now_server ≡ some i
      → IsFree w.session
      → AllSome (Quiet (counted_server i now w)) o
      → AllSome (Kept w) (o >>= λ v. some (start_data v))
  counted_after i now w none n f h = tt
  counted_after i now w (some v) n f h =
      let k = added-Kept i now w n f in
      Kept-after (Balanced-trans k.balanced h.balanced) (start_data-Kept v (Quiet-Tidy h k.tidy))

  pub on_connect-Kept :
      (rs : Readings) (ec : Ec) (now : ℕ) (w : World cb sc)
      → IsFree w.session
      → AllSome (Kept w) (on_connect rs ec now w)
  unfolding on_connect
  on_connect-Kept rs success now w f = at_server w.session.now_server refl
    where
      at_server :
          (o : Option ℕ)
          → w.session.now_server ≡ o
          → AllSome (Kept w) (
              o >>= λ i.
              on_statistics (count_statistics i now w.session) (counted_server i now w) >>= λ w1.
              some (start_data w1))
      at_server none e = tt
      at_server (some i) e =
          counted_after i now w _ e f
            (on_statistics-Quiet (count_statistics i now w.session) (counted_server i now w))
  on_connect-Kept rs aborted now w f = record {
    balanced = Balanced-refl w;
    tidy = record {
      once = rw (f.idle, f.not_added) (omega arith);
      counted = λ d. cc (d, f.not_taken);
    };
  }
  on_connect-Kept rs failed now w f = try_next-Kept rs w f

  relayed-Kept :
      (w v : World cb sc) (o : Option (World cb sc))
      → IsTidy w.session
      → Quiet w v
      → AllSome (Quiet v) o
      → AllSome (Kept w) (o >>= λ u. some (on_session start_relay u))
  relayed-Kept w v none t q h = tt
  relayed-Kept w v (some u) t q h =
      Quiet-Kept
        (Quiet-trans q (Quiet-trans h (session-Quiet u _ refl (start_relay-Alike u.session)))) t

  pub when_complete-Kept :
      (a : Analyzer) (au : Option AuthUser) (now : ℕ) (w : World cb sc)
      → IsTidy w.session
      → AllSome (Kept w) (when_complete a au now w)
  unfolding when_complete
  when_complete-Kept a au now w t =
      let v = on_session (complete_session a au) w in
      relayed-Kept w v _ t (session-Quiet w v refl (complete_session-Alike a au w.session))
        (on_statistics-Quiet (complete_statistics (complete_session a au w.session) now) v)
