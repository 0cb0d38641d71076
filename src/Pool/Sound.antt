-- ===== src/Pool/Sound.antt =====
-- The pool's invariant over any sequence of calls.
use socks5balancer_asio.Prelude.{
  ℕ, zero, suc, ◌+◌, ◌≤◌, ◌<◌, ◌≡◌, refl, ap, inl, inr, Bool, List, [], ◌∷◌, some, length,
  get_elem?, ltb, arith, Bool-cases,
}
use socks5balancer_asio.Config.{Config, Upstream}
use socks5balancer_asio.Delay.Buffer.{CircularBuffer}
use socks5balancer_asio.Pool.Server.{
  UpstreamServer, Pool, make_server, make_servers, set_config, force_set_last_use_upstream_index,
  update_last_connect_come_time, IsIndexed,
}
use socks5balancer_asio.Pool.Select.{get_server_global, after_global}
use socks5balancer_asio.Pool.Select.Hint.{get_server_global_picks}

-- The calls of other parts that change the pool's own state.
pub data Call : Type 0 where
  -- the choice for a new connection, with the random draw and the two clock readings
  choose : (ℕ → ℕ) → ℕ → ℕ → Call
  force_index : ℕ → Call
  connect_come : ℕ → Call

-- Every draw lies in the range of its distribution.
abbrev pub AreFair : List Call → Type 0
AreFair [] = Unit
AreFair (choose draw now now' ∷ cs) = ((b : ℕ) → draw b ≤ b) × AreFair cs
AreFair (_ ∷ cs) = AreFair cs

module _ {cb : CircularBuffer} where
  unfoldable pub step : Pool cb → Call → Pool cb
  step p (choose draw now now') = after_global p (get_server_global p draw now now')
  step p (force_index i) = force_set_last_use_upstream_index p i
  step p (connect_come now) = update_last_connect_come_time p now

  unfoldable pub run : Pool cb → List Call → Pool cb
  unfolding step
  run p [] = p
  run p (c ∷ cs) = run (step p c) cs

  -- The index is inside the pool, and each server knows its position.
  pub record IsSound (p : Pool cb) : Type 0 where
    pub in_range : p.last_use_upstream_index < length p.servers
    pub indexed : IsIndexed p.servers

  after_global-IsSound :
      (p : Pool cb) (draw : ℕ → ℕ) (now now' : ℕ)
      → ((b : ℕ) → draw b ≤ b)
      → IsSound p
      → IsSound (after_global p (get_server_global p draw now now'))
  unfolding after_global
  after_global-IsSound p draw now now' fair v =
      elim (get_server_global_picks p draw now now' v.in_range fair v.indexed) [
        | inl (_, f) ↦ rw f.result (record { in_range = v.in_range; indexed = v.indexed })
        | inr (inl f) ↦ rw f.result (record { in_range = f.inside; indexed = v.indexed })
        | inr (inr f) ↦ rw f.result (record { in_range = v.in_range; indexed = v.indexed })
      ]

  step-IsSound : (p : Pool cb) (c : Call) → AreFair (c ∷ []) → IsSound p → IsSound (step p c)
  unfolding step force_set_last_use_upstream_index update_last_connect_come_time
  step-IsSound p (choose draw now now') fair v = after_global-IsSound p draw now now' fair.0 v
  step-IsSound p (force_index i) fair v = elim (Bool-cases (ltb i (length p.servers))) [
    | inl inside ↦ rw inside (record { in_range = ground arith; indexed = v.indexed })
    | inr outside ↦ rw outside v
  ]
  step-IsSound p (connect_come now) fair v = record { in_range = v.in_range; indexed = v.indexed }

  run-IsSound : (cs : List Call) (p : Pool cb) → AreFair cs → IsSound p → IsSound (run p cs)
  unfolding run
  run-IsSound [] p fair v = v
  run-IsSound (choose draw now now' ∷ cs) p fair v =
      run-IsSound cs (step p (choose draw now now')) fair.1
        (step-IsSound p (choose draw now now') (fair.0, tt) v)
  run-IsSound (force_index i ∷ cs) p fair v =
      run-IsSound cs (step p (force_index i)) fair (step-IsSound p (force_index i) tt v)
  run-IsSound (connect_come now ∷ cs) p fair v =
      run-IsSound cs (step p (connect_come now)) fair (step-IsSound p (connect_come now) tt v)

module _ (cb : CircularBuffer) (limit : ℕ) (tradition : Bool) where
  length-make_servers :
      (rs : List Upstream) (i : ℕ) → length (make_servers cb limit i rs tradition) ≡ length rs
  unfolding make_servers
  length-make_servers [] i = refl
  length-make_servers (r ∷ rs) i = ap suc (length-make_servers rs (suc i))

  index-make_servers :
      (rs : List Upstream) (i k : ℕ) (u : UpstreamServer cb)
      → get_elem? (make_servers cb limit i rs tradition) k ≡ some u
      → u.index ≡ i + k
  unfolding make_servers make_server
  index-make_servers [] i k u e = cc
  index-make_servers (r ∷ rs) i zero u e = ground arith
  index-make_servers (r ∷ rs) i (suc k) u e = omega (arith, index-make_servers rs (suc i) k u e)

-- After `setConfig` with at least one upstream, on a pool whose index is 0, any sequence of
-- choices by the global rule (each random draw in its range), forced indices and new connections
-- keeps the index inside the pool and each server's own index equal to its position.
pub run-set_config-IsSound :
    {cb : CircularBuffer} (limit : ℕ) (c : Config) (p : Pool cb) (cs : List Call)
    → 0 < length c.upstream
    → p.last_use_upstream_index ≡ 0
    → AreFair cs
    → IsSound (run (set_config limit c p) cs)
unfolding set_config
run-set_config-IsSound {cb} limit c p cs h z fair = run-IsSound cs _ fair (record {
  in_range = omega (arith, length-make_servers cb limit c.tradition_tcp_relay c.upstream 0);
  indexed =
      λ i u e. omega (arith, index-make_servers cb limit c.tradition_tcp_relay c.upstream 0 i u e);
})
