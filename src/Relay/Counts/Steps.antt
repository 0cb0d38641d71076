-- ===== src/Relay/Counts/Steps.antt =====
-- Each operation of a session keeps the balance between the counts of the servers and the session's
-- part in them.
use socks5balancer_asio.Prelude.{
  ℕ, ◌+◌, ◌%◌, ◌<◌, ◌≡◌, refl, ap, sym, true, length, ◌==◌, if◌then◌else◌, arith, size_mod,
}
use socks5balancer_asio.Delay.Buffer.{CircularBuffer}
use socks5balancer_asio.Pool.Server.{UpstreamServer}
use socks5balancer_asio.Relay.Statistics.Sessions.{SessionInfoContainer}
use socks5balancer_asio.Relay.World.{World, modify_at, set_offline}
use socks5balancer_asio.Relay.Counts.Lists.{weight, count_at, length-modify_at, count_at-modify_at}

balanced_sum :
    (a b x y d : ℕ)
    → a % size_mod ≡ (b + d) % size_mod
    → y % size_mod ≡ (x + d) % size_mod
    → (a + x) % size_mod ≡ (b + y) % size_mod
balanced_sum a b x y d h k = omega arith

module _ {cb : CircularBuffer} {sc : SessionInfoContainer} where
  -- What the counts gain, the session's part gains.
  pub record Balanced (w w' : World cb sc) : Type 0 where
    pub same_length : length w'.pool.servers ≡ length w.pool.servers
    pub balance :
        (i : ℕ)
        → i < length w.pool.servers
        → (count_at i w'.pool.servers + weight i w.session) % size_mod
          ≡ (count_at i w.pool.servers + weight i w'.session) % size_mod

  pub Balanced-refl : (w : World cb sc) → Balanced w w
  Balanced-refl w = record { same_length = refl; balance = λ i h. refl }

  pub Balanced-trans : {u v w : World cb sc} → Balanced u v → Balanced v w → Balanced u w
  Balanced-trans a b = record {
    same_length = omega (arith, a.same_length, b.same_length);
    balance = λ i h.
        let h' = rw (sym a.same_length) at h in
        omega (arith, a.balance i h, b.balance i (omega (arith, h, a.same_length)));
  }

  -- The pool's counts and the session's part stay as they are.
  pub Balanced-same :
      (w w' : World cb sc)
      → w'.pool.servers ≡ w.pool.servers
      → ((i : ℕ) → weight i w'.session ≡ weight i w.session)
      → Balanced w w'
  Balanced-same w w' p s = record { same_length = ap length p; balance = λ i h. rw (p, s i) }

  -- A change of one server that adds `d` to its count goes with a session whose part grows by `d`.
  pub modified-Balanced :
      (f : UpstreamServer cb → UpstreamServer cb) (d i : ℕ) (w w' : World cb sc)
      → ((u : UpstreamServer cb)
          → (f u).connect_count % size_mod ≡ (u.connect_count + d) % size_mod)
      → w'.pool.servers ≡ modify_at i f w.pool.servers
      → ((j : ℕ)
          → weight j w'.session % size_mod
            ≡ (weight j w.session + (if i == j then d else 0)) % size_mod)
      → Balanced w w'
  modified-Balanced f d i w w' h p s = record {
    same_length = rw p (length-modify_at f i w.pool.servers);
    balance =
        λ j l. rw p (balanced_sum _ _ _ _ _ (count_at-modify_at f d h i j w.pool.servers l) (s j));
  }

  pub offline-Balanced : (i : ℕ) (w : World cb sc) → Balanced w (set_offline i w)
  offline-Balanced i w =
      modified-Balanced (λ u. record u { is_offline = true }) 0 i w (set_offline i w)
        (λ u. omega arith) refl (λ j. ground arith)
