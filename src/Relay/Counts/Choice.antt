-- ===== src/Relay/Counts/Choice.antt =====
-- The choice of a server leaves the servers and the session alone, and an attempt only counts itself.
use socks5balancer_asio.Prelude.{
  ℕ, ◌≡◌, refl, ◌∙◌, Option, none, some, inl, inr, Bool-cases, Option-cases, AllSome, AllSome-bind,
}
use socks5balancer_asio.Delay.Buffer.{CircularBuffer}
use socks5balancer_asio.Pool.Select.{
  Pick, picked, out_of_bounds, endless, get_server_global, after_global, is_inherit,
}
use socks5balancer_asio.Relay.Statistics.Sessions.{SessionInfoContainer}
use socks5balancer_asio.Relay.Statistics.Info.{Info}
use socks5balancer_asio.Relay.Statistics.Maps.{Statistics}
use socks5balancer_asio.Relay.World.{World, Reading}
use socks5balancer_asio.Relay.Select.{
  Readings, Chosen, take_pick, by_info, store_client, store_listen, try_client, try_listen,
  global_pick, try_global, or_next, choose_server,
}

module _ {cb : CircularBuffer} {sc : SessionInfoContainer} where
  pub record Same (w w' : World cb sc) : Type 0 where
    pub servers : w'.pool.servers ≡ w.pool.servers
    pub session : w'.session ≡ w.session

  Same-refl : (w : World cb sc) → Same w w
  Same-refl w = record { servers = refl; session = refl }

  abbrev pub SameAfter : World cb sc → Chosen cb sc → Type 0
  SameAfter w c = Same w c.1

  take_pick_same :
      (store : ℕ → Statistics sc → Statistics sc) (t : Statistics sc) (p : Pick cb)
      (w : World cb sc)
      → AllSome (SameAfter w) (take_pick store t p w)
  take_pick_same store t (picked s i c) w = record { servers = refl; session = refl }
  take_pick_same store t out_of_bounds w = tt
  take_pick_same store t endless w = tt

  by_info_same :
      (o : Option (Info sc)) (store : ℕ → Statistics sc → Statistics sc) (t : Statistics sc)
      (r : Reading) (w : World cb sc)
      → AllSome (SameAfter w) (by_info o store t r w)
  unfolding by_info
  by_info_same none store t r w = Same-refl w
  by_info_same (some n) store t r w = elim (Bool-cases (is_inherit n.rule)) [
    | inl e ↦ rw e (Same-refl w)
    | inr e ↦ rw e (take_pick_same store t _ w)
  ]

  try_client_same : (r : Reading) (w : World cb sc) → AllSome (SameAfter w) (try_client r w)
  unfolding try_client
  try_client_same r w = elim (Option-cases w.statistics) [
    | inl e ↦ rw e (Same-refl _)
    | inr (t, e) ↦ rw e (by_info_same _ (store_client w.session.client_endpoint_addr_string) t r _)
  ]

  try_listen_same : (r : Reading) (w : World cb sc) → AllSome (SameAfter w) (try_listen r w)
  unfolding try_listen
  try_listen_same r w = elim (Option-cases w.statistics) [
    | inl e ↦ rw e (Same-refl _)
    | inr (t, e) ↦ rw e (by_info_same _ (store_listen w.session.client_endpoint_addr_string) t r _)
  ]

  global_pick_same : (p : Pick cb) (w : World cb sc) → AllSome (SameAfter w) (global_pick p w)
  unfolding after_global
  global_pick_same (picked s i c) w = record { servers = refl; session = refl }
  global_pick_same out_of_bounds w = tt
  global_pick_same endless w = tt

  Same-trans :
      (w v : World cb sc) (o : Option (Chosen cb sc))
      → Same w v
      → AllSome (SameAfter v) o
      → AllSome (SameAfter w) o
  Same-trans w v none s h = tt
  Same-trans w v (some c) s h = record {
    servers = h.servers ∙ s.servers;
    session = h.session ∙ s.session;
  }

  or_next_same :
      (next : World cb sc → Option (Chosen cb sc)) (w : World cb sc) (c : Chosen cb sc)
      → ((v : World cb sc) → AllSome (SameAfter v) (next v))
      → SameAfter w c
      → AllSome (SameAfter w) (or_next next c)
  or_next_same next w (some s, v) h k = k
  or_next_same next w (none, v) h k = Same-trans w v (next v) k (h v)

  pub choose_server_same :
      (rs : Readings) (w : World cb sc) → AllSome (SameAfter w) (choose_server rs w)
  unfolding choose_server try_global
  choose_server_same rs w =
      AllSome-bind (SameAfter w) (SameAfter w) _ _ (try_client_same rs.by_client w) λ c h.
        AllSome-bind (SameAfter w) (SameAfter w) _ _
          (or_next_same (try_listen rs.by_listen) w c (try_listen_same rs.by_listen) h)
          λ d k.
            or_next_same (try_global rs.by_all) w d
              (λ v.
                global_pick_same
                  (get_server_global v.pool rs.by_all.draw rs.by_all.now rs.by_all.now') v)
              k
