-- ===== src/Relay/Pipe/Runs.antt =====
-- No data is lost, doubled or reordered by a relay session whose writes are complete.
use socks5balancer_asio.Relay.Pipe.{no_answer}
use socks5balancer_asio.Prelude.{
  ◌≡◌, refl, false, List, [], ◌∷◌, ◌++◌, Option, some, arith, AllSome,
}
use socks5balancer_asio.Delay.Buffer.{CircularBuffer}
use socks5balancer_asio.Pool.Server.{Pool}
use socks5balancer_asio.Relay.State.{RelayOp, resolve, posted_close}
use socks5balancer_asio.Relay.Statistics.Sessions.{SessionInfoContainer}
use socks5balancer_asio.Relay.Statistics.Maps.{Statistics}
use socks5balancer_asio.Relay.World.{World}
use socks5balancer_asio.Relay.Select.{Readings}
use socks5balancer_asio.Relay.Session.{force_close, stop}
use socks5balancer_asio.Relay.Run.{
  Income, make_session, start, Event, resolves, op_of, handle, taken,
}
use socks5balancer_asio.Relay.World.{failed}
use socks5balancer_asio.Relay.Pipe.{Pipes, pipes_of, add}
use socks5balancer_asio.Relay.Pipe.Effects.{HasEffect, handle-HasEffect, attempt-HasEffect}
use socks5balancer_asio.Relay.Pipe.Lanes.{extended, down_lane, up_lane, flight}
use socks5balancer_asio.Relay.Pipe.Sound.{IsWhole, IsSound, IsTaken, effect-IsSound}

-- One session among others, which may change the pool and the statistics at any time. Its writes are
-- complete, with or without an error; everything else has any result.
pub data WholeRun {cb : CircularBuffer} {sc : SessionInfoContainer} : World cb sc → Type 0 where
  starts :
      (p : Pool cb) (t : Option (Statistics sc)) (c : Income) (rs : Readings) (w : World cb sc)
      → start rs (record { pool = p; statistics = t; session = make_session c }) ≡ some w
      → WholeRun w
  runs :
      (w v : World cb sc) (rs : Readings) (e : Event) (before after : List RelayOp)
      → WholeRun w
      → w.session.pending ≡ before ++ op_of e ∷ after
      → IsWhole e
      → handle rs e (taken before after w) ≡ some v
      → WholeRun v
  forced : (w : World cb sc) → WholeRun w → WholeRun (force_close w)
  stopped : (w : World cb sc) → WholeRun w → WholeRun (stop w)
  others :
      (w : World cb sc) (p : Pool cb) (t : Option (Statistics sc))
      → WholeRun w
      → WholeRun (record w { pool = p; statistics = t })

-- The first attempt, as if an attempt before it had failed.
abbrev first_event : Event
first_event = resolves failed false

new-IsTaken : (c : Income) → IsTaken resolve [] [] (pipes_of (make_session c))
unfolding make_session
new-IsTaken c = record { rest = refl; down = (omega arith, refl); up = (omega arith, refl) }

posted-IsSound : (c : Pipes) → IsSound c → IsSound (add (posted_close ∷ []) c)
posted-IsSound c v = record {
  down = extended down_lane c.pending (posted_close ∷ []) _ _ _ (omega arith) v.down;
  up = extended up_lane c.pending (posted_close ∷ []) _ _ _ (omega arith) v.up;
}

module _ {cb : CircularBuffer} {sc : SessionInfoContainer} where
  started :
      (v w : World cb sc) (o : Option (World cb sc))
      → o ≡ some w
      → AllSome (HasEffect first_event v) o
      → HasEffect first_event v w
  started v w o e x = rw e at x

  start-HasEffect :
      (rs : Readings) (v : World cb sc) → AllSome (HasEffect first_event v) (start rs v)
  unfolding start
  start-HasEffect rs v = attempt-HasEffect first_event rs v (no_answer false) tt

  run-IsSound : (w : World cb sc) → WholeRun w → IsSound (pipes_of w.session)
  unfolding force_close stop
  run-IsSound w (starts p t c rs _ h) =
      let v : World cb sc = record { pool = p; statistics = t; session = make_session c } in
      effect-IsSound first_event (pipes_of v.session) (pipes_of w.session) [] [] tt
        (started v w (start rs v) h (start-HasEffect rs v)) (new-IsTaken c)
  run-IsSound w (runs u _ rs e before after r p whole h) =
      effect-IsSound e (pipes_of (taken before after u).session) (pipes_of w.session) before after
        whole (handle-HasEffect rs e (taken before after u) w h)
        (let v = run-IsSound u r in
          record { rest = refl; down = rw p at v.down; up = rw p at v.up })
  run-IsSound w (forced u r) = posted-IsSound (pipes_of u.session) (run-IsSound u r)
  run-IsSound w (stopped u r) = let v = run-IsSound u r in record { down = v.down; up = v.up }
  run-IsSound w (others u p t r) = run-IsSound u r

-- In a session whose writes each send all they were asked to, whatever else happens to it and to the
-- other sessions: the bytes read from the upstream server are, in order, the bytes written to the
-- client followed by those of the write that is running, and the same holds for the other direction.
pub WholeRun-flight :
    {cb : CircularBuffer} {sc : SessionInfoContainer} (w : World cb sc)
    → WholeRun w
    → (w.session.from_upstream
        ≡ w.session.to_downstream ++ flight down_lane w.session.pending w.session.upstream_data)
      × (w.session.from_downstream
          ≡ w.session.to_upstream ++ flight up_lane w.session.pending w.session.downstream_data)
WholeRun-flight w r = let v = run-IsSound w r in (v.down.1, v.up.1)
