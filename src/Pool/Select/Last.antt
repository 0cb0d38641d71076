-- ===== src/Pool/Select/Last.antt =====
-- `tryGetLastServer`: the last server used if it is valid, or else the first valid one after it.
use socks5balancer_asio.Prelude.{
  ℕ, zero, suc, ◌+◌, ◌≤◌, ◌<◌, ◌≡◌, refl, subst, inl, inr, false, List, [], ◌∷◌, some, none, length,
  get_elem?, ltb, ◌==◌, arith, Bool-cases,
}
use socks5balancer_asio.Config.{Config}
use socks5balancer_asio.Delay.Buffer.{CircularBuffer}
use socks5balancer_asio.Pool.Server.{UpstreamServer}
use socks5balancer_asio.Pool.Select.{wrap, Found, is_valid_at, last_loop, try_get_last_server}
use socks5balancer_asio.Pool.Select.Cycle.{
  ahead, wrap-ahead, wrap-suc-ahead, ahead_returns, ahead_full, ahead_covers, SearchResult,
}

module _ {cb : CircularBuffer} (c : Config) (xs : List (UpstreamServer cb)) (s : ℕ) where
  abbrev from : ℕ → ℕ
  from k = ahead (length xs) s k

  abbrev Passed : ℕ → Type 0
  Passed k = (m : ℕ) → m < k → is_valid_at c xs (from m) ≡ false

  Passed-suc : (k : ℕ) → Passed k → is_valid_at c xs (from k) ≡ false → Passed (suc k)
  Passed-suc k old new m l = elim (Bool-cases (ltb m k)) [
    | inl lt ↦ old m (ground arith)
    | inr ge ↦ let e : k ≡ m = ground arith in subst (λ j. is_valid_at c xs (from j) ≡ false) e new
  ]

  all-Passed :
      s < length xs → Passed (length xs) → (m : ℕ) → m < length xs → is_valid_at c xs m ≡ false
  all-Passed h old m l =
      let (k, lt, e) = ahead_covers (length xs) s m h l in
      subst (λ j. is_valid_at c xs j ≡ false) e (old k lt)

  loop_finds :
      (fuel k i : ℕ)
      → s < length xs
      → k < length xs
      → length xs ≤ fuel + k
      → i ≡ from k
      → Passed k
      → (r : Found cb) × (last_loop c xs s fuel i ≡ some r) × SearchResult c xs from s r
  unfolding last_loop
  loop_finds zero k i h l f e old = absurd (omega arith)
  loop_finds (suc fuel) k i h l f e old =
      rw (here, step)
        (elim (Bool-cases (is_valid_at c xs (from k))) [
          | inl good ↦ (
            (get_elem? xs (from k), from k),
            rw good,
            inl (record {
              places = k;
              in_cycle = l;
              stops = refl;
              server = refl;
              valid = good;
              skipped = old;
            }),
          )
          | inr bad ↦ rw bad (elim (Bool-cases (s == from (suc k))) [
            | inl back ↦ (
              (none, from (suc k)),
              rw back,
              inr (record {
                null = refl;
                back = ground arith;
                all_invalid = all-Passed h (all_bad bad (ground arith));
              }),
            )
            | inr on ↦ rw on (
                loop_finds fuel (suc k) (from (suc k)) h (further on) (omega arith) refl
                  (Passed-suc k old bad))
          ])
        ])
    where
      here : wrap (length xs) i ≡ from k
      here = rw e (wrap-ahead (length xs) s k h l)

      step : wrap (length xs) (suc (from k)) ≡ from (suc k)
      step = wrap-suc-ahead (length xs) s k h l

      all_bad : is_valid_at c xs (from k) ≡ false → from (suc k) ≡ s → Passed (length xs)
      all_bad bad back =
          subst Passed (ahead_returns (length xs) s k h l back) (Passed-suc k old bad)

      further : (s == from (suc k)) ≡ false → suc k < length xs
      further on = ground (arith, ahead_full (length xs) s k h)

-- From an index inside the pool `tryGetLastServer` ends. It returns the first valid server among
-- the one at the index and those after it, round the pool, and moves the index there; if no server
-- is valid it returns null with the index unchanged.
pub try_get_last_server_searches :
    {cb : CircularBuffer} (c : Config) (xs : List (UpstreamServer cb)) (s : ℕ)
    → s < length xs
    → (r : Found cb) × (try_get_last_server c xs s ≡ some r)
      × SearchResult c xs (ahead (length xs) s) s r
unfolding try_get_last_server
try_get_last_server_searches c [] s h = elim h [ ]
try_get_last_server_searches c (u ∷ us) s h =
    loop_finds c (u ∷ us) s (suc (length (u ∷ us))) 0 s h (omega arith) (omega arith) (ground arith)
      (λ m l. elim l [ ])
