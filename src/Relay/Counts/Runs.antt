-- ===== src/Relay/Counts/Runs.antt =====
-- The balance over every sequence of moves of any number of sessions.
use socks5balancer_asio.Prelude.{
  ℕ, zero, suc, ◌+◌, ◌%◌, ◌<◌, ◌≡◌, refl, Bool, List, [], ◌∷◌, ◌++◌, Option, none, some, arith,
  if-both, size_mod, length,
}
use socks5balancer_asio.Config.{Config, Upstream}
use socks5balancer_asio.Delay.Buffer.{CircularBuffer}
use socks5balancer_asio.Pool.Server.{Pool, set_config, make_servers, make_server}
use socks5balancer_asio.Relay.State.{TcpRelaySession}
use socks5balancer_asio.Relay.Statistics.Sessions.{SessionInfoContainer}
use socks5balancer_asio.Relay.Statistics.Maps.{Statistics}
use socks5balancer_asio.Relay.World.{World, on_session}
use socks5balancer_asio.Relay.Select.{Readings}
use socks5balancer_asio.Relay.Session.{close, uncount_at, shut}
use socks5balancer_asio.Relay.Run.{
  Income, make_session, start, Sessions, world_of, joined, Move, acts, accepts, destroys, Reach,
  begins, moves,
}
use socks5balancer_asio.Relay.Counts.Lists.{weight, total, total-append, count_at}
use socks5balancer_asio.Relay.Counts.Handlers.{IsTidy, Kept, close-Kept, try_connect_upstream-Kept}
use socks5balancer_asio.Relay.Counts.Step.{Step-Kept, Kept-result}

abbrev pub AllTidy : List TcpRelaySession → Type 0
AllTidy [] = Unit
AllTidy (s ∷ ss) = IsTidy s × AllTidy ss

IsTidy-at : (xs ys : List TcpRelaySession) (s : TcpRelaySession) → AllTidy (xs ++ s ∷ ys) → IsTidy s
IsTidy-at [] ys s v = v.0
IsTidy-at (x ∷ xs) ys s v = IsTidy-at xs ys s v.1

tidy_with :
    (xs ys : List TcpRelaySession) (s t : TcpRelaySession)
    → AllTidy (xs ++ s ∷ ys)
    → IsTidy t
    → AllTidy (xs ++ t ∷ ys)
tidy_with [] ys s t v u = (u, v.1)
tidy_with (x ∷ xs) ys s t v u = (v.0, tidy_with xs ys s t v.1 u)

tidy_without :
    (xs ys : List TcpRelaySession) (s : TcpRelaySession)
    → AllTidy (xs ++ s ∷ ys)
    → AllTidy (xs ++ ys)
tidy_without [] ys s v = v.1
tidy_without (x ∷ xs) ys s v = (v.0, tidy_without xs ys s v.1)

tidy_last :
    (xs : List TcpRelaySession) (s : TcpRelaySession)
    → AllTidy xs
    → IsTidy s
    → AllTidy (xs ++ s ∷ [])
tidy_last [] s v u = (u, tt)
tidy_last (x ∷ xs) s v u = (v.0, tidy_last xs s v.1 u)

total_split :
    (i : ℕ) (xs ys : List TcpRelaySession) (s : TcpRelaySession)
    → total i (xs ++ s ∷ ys) ≡ weight i s + total i (xs ++ ys)
total_split i xs ys s = rw (total-append i xs (s ∷ ys), total-append i xs ys) (omega arith)

total_last :
    (i : ℕ) (xs : List TcpRelaySession) (s : TcpRelaySession)
    → total i (xs ++ s ∷ []) ≡ weight i s + total i xs
total_last i xs s = rw (total-append i xs (s ∷ [])) (omega arith)

-- One session's part moves with the count.
moved_sum :
    (c c' x y rest : ℕ)
    → (c' + x) % size_mod ≡ (c + y) % size_mod
    → c % size_mod ≡ (x + rest) % size_mod
    → c' % size_mod ≡ (y + rest) % size_mod
moved_sum c c' x y rest h k = omega arith

count_at-make_servers :
    (cb : CircularBuffer) (limit : ℕ) (rs : List Upstream) (tradition : Bool) (i k : ℕ)
    → count_at k (make_servers cb limit i rs tradition) ≡ 0
unfolding make_servers make_server
count_at-make_servers cb limit [] tradition i k = refl
count_at-make_servers cb limit (r ∷ rs) tradition i zero = refl
count_at-make_servers cb limit (r ∷ rs) tradition i (suc k) =
    count_at-make_servers cb limit rs tradition (suc i) k

-- The same for a session that had no part.
new_sum :
    (c c' y rest : ℕ)
    → (c' + 0) % size_mod ≡ (c + y) % size_mod
    → c % size_mod ≡ rest % size_mod
    → c' % size_mod ≡ (y + rest) % size_mod
new_sum c c' y rest h k = omega arith

module _ {cb : CircularBuffer} {sc : SessionInfoContainer} where
  -- Every server's count is the number of the sessions that are counted at it.
  pub record IsBalanced (g : Sessions cb sc) : Type 0 where
    pub tidy : AllTidy g.sessions
    pub counts :
        (i : ℕ)
        → i < length g.pool.servers
        → count_at i g.pool.servers % size_mod ≡ total i g.sessions % size_mod

  -- The session in the middle acts.
  moved-IsBalanced :
      (g : Sessions cb sc) (before after : List TcpRelaySession) (s : TcpRelaySession)
      (w : World cb sc)
      → g.sessions ≡ before ++ s ∷ after
      → Kept (world_of g s) w
      → IsBalanced g
      → IsBalanced (joined w (before ++ w.session ∷ after))
  moved-IsBalanced g before after s w p k v = record {
    tidy = tidy_with before after s w.session (rw (← p) v.tidy) k.tidy;
    counts = λ i h. rw (total_split i before after w.session) (
        moved_sum _ _ _ _ _ (k.balanced.balance i (omega (arith, h, k.balanced.same_length))) (
          rw (← total_split i before after s, ← p)
            (v.counts i (omega (arith, h, k.balanced.same_length)))));
  }

  uncounted :
      (o : Option ℕ) (w : World cb sc) (i : ℕ)
      → w.session.now_server ≡ o
      → weight i (uncount_at o w).session ≡ 0
  uncounted none w i n = ground (arith, n)
  uncounted (some j) w i n =
      if-both {A = World cb sc} (λ v. weight i v.session ≡ 0) w.session.ref_added
        (λ r. ground (arith, r, n)) (λ r. ground (arith, r, n))

  weight-close : (w : World cb sc) (i : ℕ) → weight i (close w).session ≡ 0
  unfolding close
  weight-close w i =
      if-both {A = World cb sc} (λ v. weight i v.session ≡ 0) w.session.is_de_cont
        (λ d. ground (arith, d)) (λ d. uncounted w.session.now_server (on_session shut w) i refl)

  destroyed-IsBalanced :
      (g : Sessions cb sc) (before after : List TcpRelaySession) (s : TcpRelaySession)
      → g.sessions ≡ before ++ s ∷ after
      → IsBalanced g
      → IsBalanced (joined (close (world_of g s)) (before ++ after))
  destroyed-IsBalanced g before after s p v =
      let t : AllTidy (before ++ s ∷ after) = rw (← p) v.tidy in
      let b =
        moved-IsBalanced g before after s (close (world_of g s)) p
          (close-Kept (world_of g s) (IsTidy-at before after s t)) v in
      record {
        tidy = tidy_without before after s t;
        counts = λ i h.
            without i _ _ _ (b.counts i h)
              (total_split i before after (close (world_of g s)).session)
              (weight-close (world_of g s) i);
      }
    where
      without :
          (i c n x : ℕ)
          → c % size_mod ≡ n % size_mod
          → n ≡ x + total i (before ++ after)
          → x ≡ 0
          → c % size_mod ≡ total i (before ++ after) % size_mod
      without i c n x h k z = omega (arith, h, k, z)

  accepted-IsBalanced :
      (g : Sessions cb sc) (c : Income) (rs : Readings) (w : World cb sc)
      → start rs (world_of g (make_session c)) ≡ some w
      → IsBalanced g
      → IsBalanced (joined w (g.sessions ++ w.session ∷ []))
  unfolding start make_session
  accepted-IsBalanced g c rs w e v =
      let k = Kept-result (world_of g (make_session c)) w _ e (
        try_connect_upstream-Kept rs (world_of g (make_session c))
          (record { idle = refl; not_added = refl; not_taken = refl })) in
      record {
        tidy = tidy_last g.sessions w.session v.tidy k.tidy;
        counts = λ i h. rw (total_last i g.sessions w.session) (
            new_sum _ _ _ _ (k.balanced.balance i (omega (arith, h, k.balanced.same_length)))
              (v.counts i (omega (arith, h, k.balanced.same_length))));
      }

  Move-IsBalanced : (g h : Sessions cb sc) → Move g h → IsBalanced g → IsBalanced h
  Move-IsBalanced g h (acts _ before after s w p t) v =
      moved-IsBalanced g before after s w p
        (Step-Kept (world_of g s) w t (IsTidy-at before after s (rw (← p) v.tidy))) v
  Move-IsBalanced g h (accepts _ c rs w e) v = accepted-IsBalanced g c rs w e v
  Move-IsBalanced g h (destroys _ before after s p) v = destroyed-IsBalanced g before after s p v

  Reach-IsBalanced : (g h : Sessions cb sc) → Reach g h → IsBalanced g → IsBalanced h
  Reach-IsBalanced g h (begins) v = v
  Reach-IsBalanced g h (moves {h = k} r m) v = Move-IsBalanced k h m (Reach-IsBalanced g k r v)

-- Over any interleaving of any number of relay sessions that starts with a pool as `setConfig` leaves
-- it, with any results of the network, forced closes and destroyed sessions: each server's
-- connectCount is, modulo 2^64, the number of sessions that were connected to it and have not been
-- closed since.
pub Reach-counts :
    {cb : CircularBuffer} {sc : SessionInfoContainer} (limit : ℕ) (c : Config) (p : Pool cb)
    (t : Option (Statistics sc)) (g : Sessions cb sc)
    → Reach (record { pool = set_config limit c p; statistics = t; sessions = [] }) g
    → (i : ℕ) → i < length g.pool.servers
    → count_at i g.pool.servers % size_mod ≡ total i g.sessions % size_mod
unfolding set_config
Reach-counts {cb} limit c p t g r i h =
    let v = Reach-IsBalanced _ g r (record {
      tidy = tt;
      counts = λ i h. rw (count_at-make_servers cb limit c.upstream c.tradition_tcp_relay 0 i);
    }) in
    v.counts i h
