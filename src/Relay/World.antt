-- ===== src/Relay/World.antt =====
-- One relay session with the pool and the statistics that it shares with all others.
use socks5balancer_asio.Prelude.{ℕ, zero, suc, true, false, List, [], ◌∷◌, Option, add64, sub64}
use socks5balancer_asio.Delay.Buffer.{CircularBuffer}
use socks5balancer_asio.Pool.Server.{UpstreamServer, Pool}
use socks5balancer_asio.Relay.State.{TcpRelaySession}
use socks5balancer_asio.Relay.Statistics.Sessions.{SessionInfoContainer}
use socks5balancer_asio.Relay.Statistics.Maps.{Statistics}

-- `statistics` is `none` where the weak pointer cannot be locked.
pub record World (cb : CircularBuffer) (sc : SessionInfoContainer) : Type 0 where
  pub pool : Pool cb
  pub statistics : Option (Statistics sc)
  pub session : TcpRelaySession

-- The result of an operation on a socket or a resolver.
pub data Ec : Type 0 where
  success aborted failed : Ec

-- The steady clock in milliseconds, and the system clock.
abbrev pub Times : Type 0
Times = ℕ × ℕ

-- What one choice of a server draws on: the random draw and two readings of the clock.
pub record Reading : Type 0 where
  pub draw : ℕ → ℕ
  pub now : ℕ
  pub now' : ℕ

module _ {A : Type 0} where
  abbrev pub modify_at : ℕ → (A → A) → List A → List A
  modify_at i f [] = []
  modify_at zero f (x ∷ xs) = f x ∷ xs
  modify_at (suc i) f (x ∷ xs) = x ∷ modify_at i f xs

module _ {cb : CircularBuffer} where
  abbrev pub modify_server : ℕ → (UpstreamServer cb → UpstreamServer cb) → Pool cb → Pool cb
  modify_server i f p = record p { servers = modify_at i f p.servers }

  abbrev pub server_count_add : ℕ → UpstreamServer cb → UpstreamServer cb
  server_count_add now u = record u {
    connect_count = add64 u.connect_count 1;
    is_offline = false;
    last_online_time = now;
  }

  abbrev pub server_count_sub : UpstreamServer cb → UpstreamServer cb
  server_count_sub u = record u { connect_count = sub64 u.connect_count 1 }

module _ {cb : CircularBuffer} {sc : SessionInfoContainer} where
  abbrev pub on_session : (TcpRelaySession → TcpRelaySession) → World cb sc → World cb sc
  on_session f w = record w { session = f w.session }

  abbrev pub set_offline : ℕ → World cb sc → World cb sc
  set_offline i w = record w { pool = modify_server i (λ u. record u { is_offline = true }) w.pool }
