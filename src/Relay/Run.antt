-- ===== src/Relay/Run.antt =====
-- The relay sessions of the program over one pool: every operation that a session has running may
-- complete next, with any result.
use socks5balancer_asio.Prelude.{
  ℕ, ◌≡◌, Bool, true, false, List, [], ◌∷◌, ◌++◌, Option, none, some, Bytes,
}
use socks5balancer_asio.Auth.Users.{AuthUser}
use socks5balancer_asio.Delay.Buffer.{CircularBuffer}
use socks5balancer_asio.Pool.Server.{Pool}
use socks5balancer_asio.Relay.State.{
  TcpRelaySession, Analyzer, RelayOp, resolve, connect, handshake, upstream_read, downstream_read,
  downstream_write, upstream_write, posted_close,
}
use socks5balancer_asio.Relay.Statistics.Sessions.{SessionInfoContainer}
use socks5balancer_asio.Relay.Statistics.Maps.{Statistics}
use socks5balancer_asio.Relay.World.{Times, World, Ec, on_session}
use socks5balancer_asio.Relay.Select.{Readings, try_connect_upstream}
use socks5balancer_asio.Relay.Session.{
  on_resolve, on_connect, when_complete, when_error, close, force_close, stop,
}
use socks5balancer_asio.Relay.Transfer.{
  on_upstream_read, on_downstream_write, on_downstream_read, on_upstream_write,
}

-- What a new session is given: its id, its three addresses, and its settings.
pub record Income : Type 0 where
  pub relay_id : ℕ
  pub client_endpoint_addr_string : Bytes
  pub client_endpoint_addr_port_string : Bytes
  pub listen_endpoint_addr_string : Bytes
  pub retry_limit : ℕ
  pub tradition_tcp_relay : Bool
  pub disable_connection_tracker : Bool

-- The constructor, and the addresses as `start` sets them.
unfoldable pub make_session : Income → TcpRelaySession
make_session c = record {
  relay_id = c.relay_id;
  client_endpoint_addr_string = c.client_endpoint_addr_string;
  client_endpoint_addr_port_string = c.client_endpoint_addr_port_string;
  listen_endpoint_addr_string = c.listen_endpoint_addr_string;
  target_endpoint_addr_string = [];
  first_pack_analyzer = none;
  connection_tracker = none;
  ref_added = false;
  now_server = none;
  retry_count = 0;
  retry_limit = c.retry_limit;
  tradition_tcp_relay = c.tradition_tcp_relay;
  disable_connection_tracker = c.disable_connection_tracker;
  is_de_cont = false;
  first_delay_timestamp = none;
  first_delay_up_end = false;
  first_delay_down_end = false;
  auth_user = none;
  downstream_open = true;
  upstream_open = false;
  downstream_data = [];
  upstream_data = [];
  pending = [];
  from_upstream = [];
  to_downstream = [];
  from_downstream = [];
  to_upstream = [];
}

-- The completion of an operation, with the time where its handler reads the clock.
pub data Event : Type 0 where
  resolves : Ec → Bool → Event
  connects : Ec → ℕ → Event
  completes : Analyzer → Option AuthUser → ℕ → Event
  errs : Event
  upstream_reads : Ec → Bytes → Times → Event
  downstream_reads : Ec → Bytes → Times → Event
  -- the bytes asked for, and those sent
  downstream_writes : ℕ → Ec → ℕ → Event
  upstream_writes : ℕ → Ec → ℕ → Event
  posted : Event

abbrev pub op_of : Event → RelayOp
op_of (resolves ec is_empty) = resolve
op_of (connects ec now) = connect
op_of (completes a au now) = handshake
op_of errs = handshake
op_of (upstream_reads ec b now) = upstream_read
op_of (downstream_reads ec b now) = downstream_read
op_of (downstream_writes n ec k) = downstream_write n
op_of (upstream_writes n ec k) = upstream_write n
op_of posted = posted_close

module _ {cb : CircularBuffer} {sc : SessionInfoContainer} where
  unfoldable pub start : Readings → World cb sc → Option (World cb sc)
  start rs w = try_connect_upstream rs w

  unfoldable pub handle : Readings → Event → World cb sc → Option (World cb sc)
  handle rs (resolves ec is_empty) w = on_resolve rs ec is_empty w
  handle rs (connects ec now) w = on_connect rs ec now w
  handle rs (completes a au now) w = when_complete a au now w
  handle rs errs w = some (when_error w)
  handle rs (upstream_reads ec b now) w = on_upstream_read ec b now w
  handle rs (downstream_reads ec b now) w = on_downstream_read ec b now w
  handle rs (downstream_writes n ec k) w = on_downstream_write n ec k w
  handle rs (upstream_writes n ec k) w = on_upstream_write n ec k w
  handle rs posted w = some (close w)

  -- One pending operation is taken out.
  abbrev pub taken : List RelayOp → List RelayOp → World cb sc → World cb sc
  taken before after w = on_session (λ s. record s { pending = before ++ after }) w

-- One step of a session; the last three are calls of other parts.
pub data Step {cb : CircularBuffer} {sc : SessionInfoContainer}
    : World cb sc → World cb sc → Type 0 where
  runs :
      (w w' : World cb sc) (rs : Readings) (e : Event) (before after : List RelayOp)
      → w.session.pending ≡ before ++ op_of e ∷ after
      → handle rs e (taken before after w) ≡ some w'
      → Step w w'
  forced : (w : World cb sc) → Step w (force_close w)
  stopped : (w : World cb sc) → Step w (stop w)

-- All sessions that there are.
pub record Sessions (cb : CircularBuffer) (sc : SessionInfoContainer) : Type 0 where
  pub pool : Pool cb
  pub statistics : Option (Statistics sc)
  pub sessions : List TcpRelaySession

module _ {cb : CircularBuffer} {sc : SessionInfoContainer} where
  abbrev pub world_of : Sessions cb sc → TcpRelaySession → World cb sc
  world_of g s = record { pool = g.pool; statistics = g.statistics; session = s }

  abbrev pub joined : World cb sc → List TcpRelaySession → Sessions cb sc
  joined w ss = record { pool = w.pool; statistics = w.statistics; sessions = ss }

-- A session acts, a new one is accepted, or one is destroyed, which closes it.
pub data Move {cb : CircularBuffer} {sc : SessionInfoContainer}
    : Sessions cb sc → Sessions cb sc → Type 0 where
  acts :
      (g : Sessions cb sc) (before after : List TcpRelaySession) (s : TcpRelaySession)
      (w : World cb sc)
      → g.sessions ≡ before ++ s ∷ after
      → Step (world_of g s) w
      → Move g (joined w (before ++ w.session ∷ after))
  accepts :
      (g : Sessions cb sc) (c : Income) (rs : Readings) (w : World cb sc)
      → start rs (world_of g (make_session c)) ≡ some w
      → Move g (joined w (g.sessions ++ w.session ∷ []))
  destroys :
      (g : Sessions cb sc) (before after : List TcpRelaySession) (s : TcpRelaySession)
      → g.sessions ≡ before ++ s ∷ after
      → Move g (joined (close (world_of g s)) (before ++ after))

pub data Reach {cb : CircularBuffer} {sc : SessionInfoContainer} (g : Sessions cb sc)
    : Sessions cb sc → Type 0 where
  begins : Reach g g
  moves : {h k : Sessions cb sc} → Reach g h → Move h k → Reach g k
