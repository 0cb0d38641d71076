-- ===== src/Relay/Pipe.antt =====
-- What a relay session promises about its data: two pipes. `Effect` is what one completed operation
-- may do to the data and to the operations that are running.
pub mod Still
pub mod Effects
pub mod Lanes
pub mod Sound
pub mod Runs
use socks5balancer_asio.Prelude.{
  ℕ, ◌≡◌, ◌⊎◌, ◌||◌, ◌==◌, not, true, false, Bool, List, [], ◌∷◌, ◌++◌, Bytes, length, take, Option,
}
use socks5balancer_asio.Relay.State.{
  TcpRelaySession, Analyzer, RelayOp, resolve, connect, handshake, upstream_read, downstream_read,
  downstream_write, upstream_write, posted_close,
}
use socks5balancer_asio.Auth.Users.{AuthUser}
use socks5balancer_asio.Relay.World.{Times, Ec, success, aborted, failed}
use socks5balancer_asio.Relay.Transfer.{is_success}
use socks5balancer_asio.Relay.Run.{
  Event, resolves, connects, completes, upstream_reads, downstream_reads, downstream_writes,
  upstream_writes,
}

-- The data of a session, and its running operations.
pub record Pipes : Type 0 where
  pub pending : List RelayOp
  pub from_upstream : Bytes
  pub to_downstream : Bytes
  pub upstream_data : Bytes
  pub from_downstream : Bytes
  pub to_upstream : Bytes
  pub downstream_data : Bytes

abbrev pub pipes_of : TcpRelaySession → Pipes
pipes_of s = record {
  pending = s.pending;
  from_upstream = s.from_upstream;
  to_downstream = s.to_downstream;
  upstream_data = s.upstream_data;
  from_downstream = s.from_downstream;
  to_upstream = s.to_upstream;
  downstream_data = s.downstream_data;
}

-- The operations before the relay starts.
abbrev pub IsOpening : RelayOp → Type 0
IsOpening resolve = Unit
IsOpening connect = Unit
IsOpening handshake = Unit
IsOpening _ = ⊥

abbrev pub add : List RelayOp → Pipes → Pipes
add ops c = record c { pending = c.pending ++ ops }

abbrev pub read_from_upstream : Bytes → Pipes → Pipes
read_from_upstream b c = record c { upstream_data = b; from_upstream = c.from_upstream ++ b }

abbrev pub read_from_downstream : Bytes → Pipes → Pipes
read_from_downstream b c = record c {
  downstream_data = b;
  from_downstream = c.from_downstream ++ b;
}

abbrev pub sent_downstream : ℕ → ℕ → Pipes → Pipes
sent_downstream n k c = record c {
  to_downstream = c.to_downstream ++ take k (take n c.upstream_data);
}

abbrev pub sent_upstream : ℕ → ℕ → Pipes → Pipes
sent_upstream n k c = record c { to_upstream = c.to_upstream ++ take k (take n c.downstream_data) }

-- Operations that may end without another one: a read, a resolve and a connect that did not
-- succeed, an empty answer of the resolver, a connect of a session that is in a handshake already.
abbrev pub MayEnd : Event → Type 0
MayEnd (resolves success is_empty) = is_empty ≡ true
MayEnd (completes a au now) = ⊥
MayEnd (upstream_reads success b now) = ⊥
MayEnd (downstream_reads success b now) = ⊥
MayEnd (downstream_writes n ec k) = ⊥
MayEnd (upstream_writes n ec k) = ⊥
MayEnd _ = Unit

-- What follows an operation before the relay starts: the next attempt, the connect to a resolved
-- server, and the handshake on a connection.
pub data Opens : Event → RelayOp → Type 0 where
  no_address : Opens (resolves success true) resolve
  no_answer : (is_empty : Bool) → Opens (resolves failed is_empty) resolve
  no_connection : (now : ℕ) → Opens (connects failed now) resolve
  resolved : Opens (resolves success false) connect
  connected : (now : ℕ) → Opens (connects success now) handshake

-- What the relay starts after: a connection, or a complete handshake.
abbrev pub StartsRelay : Event → Type 0
StartsRelay (connects success now) = Unit
StartsRelay (completes a au now) = Unit
StartsRelay _ = ⊥

-- The test of the write handlers.
abbrev pub goes_on : Ec → ℕ → ℕ → Bool
goes_on ec n k = is_success ec || not (k == n)

pub data Effect : Event → Pipes → Pipes → Type 0 where
  -- an operation ends
  ends : (e : Event) (c : Pipes) → MayEnd e → Effect e c c
  -- the next operation before the relay
  opens : (e : Event) (op : RelayOp) (c : Pipes) → Opens e op → Effect e c (add (op ∷ []) c)
  relays :
      (e : Event) (c : Pipes)
      → StartsRelay e
      → Effect e c (add (downstream_read ∷ []) (add (upstream_read ∷ []) c))
  -- a successful read
  takes_up :
      (b : Bytes) (now : Times) (c : Pipes)
      → Effect
          (upstream_reads success b now)
          c
          (add (downstream_write (length b) ∷ []) (read_from_upstream b c))
  takes_down :
      (b : Bytes) (now : Times) (c : Pipes)
      → Effect
          (downstream_reads success b now)
          c
          (add (upstream_write (length b) ∷ []) (read_from_downstream b c))
  -- the sent data, and the next read or the end
  gives_down :
      (n : ℕ) (ec : Ec) (k : ℕ) (c : Pipes)
      → goes_on ec n k ≡ true
      → Effect (downstream_writes n ec k) c (add (upstream_read ∷ []) (sent_downstream n k c))
  last_down :
      (n : ℕ) (ec : Ec) (k : ℕ) (c : Pipes)
      → goes_on ec n k ≡ false
      → Effect (downstream_writes n ec k) c (sent_downstream n k c)
  gives_up :
      (n : ℕ) (ec : Ec) (k : ℕ) (c : Pipes)
      → goes_on ec n k ≡ true
      → Effect (upstream_writes n ec k) c (add (downstream_read ∷ []) (sent_upstream n k c))
  last_up :
      (n : ℕ) (ec : Ec) (k : ℕ) (c : Pipes)
      → goes_on ec n k ≡ false
      → Effect (upstream_writes n ec k) c (sent_upstream n k c)
