-- ===== src/Relay/Counts/Lists.antt =====
-- The count of each server, the part that a session has in it, and sums over sessions.
use socks5balancer_asio.Prelude.{
  ℕ, zero, suc, ◌+◌, ◌%◌, ◌<◌, ◌≡◌, refl, ap, not, ◌&&◌, List, [], ◌∷◌, ◌++◌, none, some, length,
  ◌==◌, if◌then◌else◌, arith, size_mod,
}
use socks5balancer_asio.Delay.Buffer.{CircularBuffer}
use socks5balancer_asio.Pool.Server.{UpstreamServer}
use socks5balancer_asio.Relay.State.{TcpRelaySession, RelayOp, resolve, connect}
use socks5balancer_asio.Relay.World.{modify_at}

-- 1 if the session is counted at server `i`: it was connected, and it was not taken off again.
abbrev pub weight : ℕ → TcpRelaySession → ℕ
weight i s =
    if s.ref_added && not s.is_de_cont
    then elim s.now_server [ none ↦ 0 | some j ↦ if j == i then 1 else 0 ]
    else 0

abbrev pub total : ℕ → List TcpRelaySession → ℕ
total i [] = 0
total i (s ∷ ss) = weight i s + total i ss

pub total-append :
    (i : ℕ) (xs ys : List TcpRelaySession) → total i (xs ++ ys) ≡ total i xs + total i ys
total-append i [] ys = omega arith
total-append i (x ∷ xs) ys = omega (arith, total-append i xs ys)

-- The resolve and connect operations that a session has running.
abbrev pub connecting : List RelayOp → ℕ
connecting [] = 0
connecting (resolve ∷ ops) = suc (connecting ops)
connecting (connect ∷ ops) = suc (connecting ops)
connecting (_ ∷ ops) = connecting ops

pub connecting-append :
    (xs ys : List RelayOp) → connecting (xs ++ ys) ≡ connecting xs + connecting ys
connecting-append [] ys = omega arith
connecting-append (resolve ∷ xs) ys = omega (arith, connecting-append xs ys)
connecting-append (connect ∷ xs) ys = omega (arith, connecting-append xs ys)
connecting-append (RelayOp.handshake ∷ xs) ys = connecting-append xs ys
connecting-append (RelayOp.upstream_read ∷ xs) ys = connecting-append xs ys
connecting-append (RelayOp.downstream_read ∷ xs) ys = connecting-append xs ys
connecting-append (RelayOp.posted_close ∷ xs) ys = connecting-append xs ys
connecting-append (RelayOp.downstream_write n ∷ xs) ys = connecting-append xs ys
connecting-append (RelayOp.upstream_write n ∷ xs) ys = connecting-append xs ys

module _ {cb : CircularBuffer} where
  abbrev pub count_at : ℕ → List (UpstreamServer cb) → ℕ
  count_at i [] = 0
  count_at zero (u ∷ us) = u.connect_count
  count_at (suc i) (u ∷ us) = count_at i us

  pub length-modify_at :
      (f : UpstreamServer cb → UpstreamServer cb) (i : ℕ) (us : List (UpstreamServer cb))
      → length (modify_at i f us) ≡ length us
  length-modify_at f i [] = refl
  length-modify_at f zero (u ∷ us) = refl
  length-modify_at f (suc i) (u ∷ us) = ap suc (length-modify_at f i us)

  -- A change that adds `d` to the count, in the arithmetic of `size_t`.
  pub count_at-modify_at :
      (f : UpstreamServer cb → UpstreamServer cb) (d : ℕ)
      → ((u : UpstreamServer cb)
          → (f u).connect_count % size_mod ≡ (u.connect_count + d) % size_mod)
      → (i j : ℕ) (us : List (UpstreamServer cb)) → j < length us
      → count_at j (modify_at i f us) % size_mod
        ≡ (count_at j us + (if i == j then d else 0)) % size_mod
  count_at-modify_at f d h i j [] l = elim l [ ]
  count_at-modify_at f d h zero zero (u ∷ us) l = h u
  count_at-modify_at f d h zero (suc j) (u ∷ us) l = ground arith
  count_at-modify_at f d h (suc i) zero (u ∷ us) l = ground arith
  count_at-modify_at f d h (suc i) (suc j) (u ∷ us) l =
      ground (arith, count_at-modify_at f d h i j us (omega arith))
