-- ===== src/Relay/Pipe/Lanes.antt =====
-- One direction of the relay: the operations that belong to it, and the data that is on its way.
use socks5balancer_asio.Prelude.{ℕ, ◌+◌, ◌≤◌, ◌≡◌, refl, List, [], ◌∷◌, ◌++◌, Bytes, take, arith}
use mathlib.Core.List.{append-nil, append_assoc}
use socks5balancer_asio.Relay.State.{
  RelayOp, resolve, connect, handshake, upstream_read, downstream_read, downstream_write,
  upstream_write, posted_close,
}

-- An operation either belongs to the direction or has no data of it on the way.
pub record Lane : Type 0 where
  pub token : RelayOp → ℕ
  pub carried : RelayOp → Bytes → Bytes
  pub empty : (op : RelayOp) (d : Bytes) → token op ≡ 0 → carried op d ≡ []

module _ (l : Lane) where
  abbrev pub tokens : List RelayOp → ℕ
  tokens [] = 0
  tokens (op ∷ ops) = l.token op + tokens ops

  abbrev pub flight : List RelayOp → Bytes → Bytes
  flight [] d = []
  flight (op ∷ ops) d = l.carried op d ++ flight ops d

  tokens-append : (xs ys : List RelayOp) → tokens (xs ++ ys) ≡ tokens xs + tokens ys
  tokens-append [] ys = omega arith
  tokens-append (x ∷ xs) ys = omega (arith, tokens-append xs ys)

  flight-append :
      (xs ys : List RelayOp) (d : Bytes) → flight (xs ++ ys) d ≡ flight xs d ++ flight ys d
  flight-append [] ys d = refl
  flight-append (x ∷ xs) ys d = rw (flight-append xs ys d, append_assoc)

  flight_none : (ops : List RelayOp) (d : Bytes) → tokens ops ≡ 0 → flight ops d ≡ []
  flight_none [] d z = refl
  flight_none (op ∷ ops) d z =
      rw (l.empty op d (omega (arith, z)), flight_none ops d (omega (arith, z)))

  -- At most one operation of the direction is running, and what was read is what was written and
  -- what is on its way.
  abbrev pub IsLossless : List RelayOp → Bytes → Bytes → Bytes → Type 0
  IsLossless ops d from to = (tokens ops ≤ 1) × (from ≡ to ++ flight ops d)

  taken_tokens :
      (before after : List RelayOp) (op : RelayOp)
      → tokens (before ++ op ∷ after) ≡ l.token op + tokens (before ++ after)
  taken_tokens before after op =
      rw (tokens-append before (op ∷ after), tokens-append before after) (omega arith)

  -- The operation of the direction is taken out, and others come in its place.
  pub replaced :
      (before after : List RelayOp) (op : RelayOp) (ops : List RelayOp)
      (d d' from from' to to' : Bytes)
      → l.token op ≡ 1
      → tokens ops ≤ 1
      → IsLossless (before ++ op ∷ after) d from to
      → (from ≡ to ++ l.carried op d → from' ≡ to' ++ flight ops d')
      → IsLossless ((before ++ after) ++ ops) d' from' to'
  replaced before after op ops d d' from from' to to' o one v k =
      let none : tokens (before ++ after) ≡ 0 =
        omega (arith, o, v.0, taken_tokens before after op) in
      let none_before : tokens before ≡ 0 = omega (arith, none, tokens-append before after) in
      let none_after : tokens after ≡ 0 = omega (arith, none, tokens-append before after) in
      (
        rw (tokens-append (before ++ after) ops) (omega (arith, none, one)),
        rw (flight-append (before ++ after) ops d', flight_none (before ++ after) d' none)
            (k (
              rw
                (
                  flight-append before (op ∷ after) d,
                  flight_none before d none_before,
                  flight_none after d none_after,
                  append-nil (l.carried op d),
                )
                at v.1)),
      )

  -- An operation with no data on the way is taken out.
  pub dropped :
      (before after : List RelayOp) (op : RelayOp) (d from to : Bytes)
      → l.carried op d ≡ []
      → IsLossless (before ++ op ∷ after) d from to
      → IsLossless (before ++ after) d from to
  dropped before after op d from to z v = (
    omega (arith, v.0, taken_tokens before after op),
    rw (flight-append before after d) (rw (flight-append before (op ∷ after) d, z) at v.1),
  )

  -- Operations of no concern come in.
  pub extended :
      (xs ops : List RelayOp) (d from to : Bytes)
      → tokens ops ≡ 0
      → IsLossless xs d from to
      → IsLossless (xs ++ ops) d from to
  extended xs ops d from to z v = (
    rw (tokens-append xs ops) (omega (arith, z, v.0)),
    rw (flight-append xs ops d, flight_none ops d z, append-nil (flight xs d)) v.1,
  )

  -- An operation of no concern is taken out, and others of no concern come in its place.
  pub untouched :
      (before after : List RelayOp) (op : RelayOp) (ops : List RelayOp) (d from to : Bytes)
      → l.token op ≡ 0
      → tokens ops ≡ 0
      → IsLossless (before ++ op ∷ after) d from to
      → IsLossless ((before ++ after) ++ ops) d from to
  untouched before after op ops d from to o z v =
      extended (before ++ after) ops d from to z
        (dropped before after op d from to (l.empty op d o) v)

-- From the upstream server to the client.
abbrev pub down_token : RelayOp → ℕ
down_token resolve = 1
down_token connect = 1
down_token handshake = 1
down_token upstream_read = 1
down_token (downstream_write n) = 1
down_token _ = 0

abbrev pub down_carried : RelayOp → Bytes → Bytes
down_carried (downstream_write n) d = take n d
down_carried _ d = []

-- From the client to the upstream server.
abbrev pub up_token : RelayOp → ℕ
up_token resolve = 1
up_token connect = 1
up_token handshake = 1
up_token downstream_read = 1
up_token (upstream_write n) = 1
up_token _ = 0

abbrev pub up_carried : RelayOp → Bytes → Bytes
up_carried (upstream_write n) d = take n d
up_carried _ d = []

pub down_empty : (op : RelayOp) (d : Bytes) → down_token op ≡ 0 → down_carried op d ≡ []
down_empty (downstream_write n) d z = absurd (omega (arith, z))
down_empty resolve d z = refl
down_empty connect d z = refl
down_empty handshake d z = refl
down_empty upstream_read d z = refl
down_empty downstream_read d z = refl
down_empty posted_close d z = refl
down_empty (upstream_write n) d z = refl

pub up_empty : (op : RelayOp) (d : Bytes) → up_token op ≡ 0 → up_carried op d ≡ []
up_empty (upstream_write n) d z = absurd (omega (arith, z))
up_empty resolve d z = refl
up_empty connect d z = refl
up_empty handshake d z = refl
up_empty upstream_read d z = refl
up_empty downstream_read d z = refl
up_empty posted_close d z = refl
up_empty (downstream_write n) d z = refl

abbrev pub down_lane : Lane
down_lane = record { token = down_token; carried = down_carried; empty = down_empty }

abbrev pub up_lane : Lane
up_lane = record { token = up_token; carried = up_carried; empty = up_empty }
