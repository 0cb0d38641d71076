-- ===== src/Pool/Select/Next.antt =====
-- `getNextServer`: the first valid server strictly after the last one used.
use socks5balancer_asio.Prelude.{
  ℕ, zero, suc, ◌+◌, ◌≤◌, ◌<◌, ◌≡◌, refl, subst, inl, inr, false, List, [], ◌∷◌, some, none, length,
  get_elem?, ltb, ◌==◌, arith, Bool-cases,
}
use socks5balancer_asio.Config.{Config}
use socks5balancer_asio.Delay.Buffer.{CircularBuffer}
use socks5balancer_asio.Pool.Server.{UpstreamServer}
use socks5balancer_asio.Pool.Select.{wrap, Found, is_valid_at, next_loop, get_next_server}
use socks5balancer_asio.Pool.Select.Cycle.{
  ahead, wrap-suc-ahead, ahead_returns, ahead_full, ahead_covers_suc, SearchResult,
}

module _ {cb : CircularBuffer} (c : Config) (xs : List (UpstreamServer cb)) (s : ℕ) where
  abbrev after : ℕ → ℕ
  after k = ahead (length xs) s (suc k)

  abbrev Skipped : ℕ → Type 0
  Skipped k = (m : ℕ) → m < k → is_valid_at c xs (after m) ≡ false

  Skipped-suc : (k : ℕ) → Skipped k → is_valid_at c xs (after k) ≡ false → Skipped (suc k)
  Skipped-suc k old new m l = elim (Bool-cases (ltb m k)) [
    | inl lt ↦ old m (ground arith)
    | inr ge ↦ let e : k ≡ m = ground arith in subst (λ j. is_valid_at c xs (after j) ≡ false) e new
  ]

  all-Skipped :
      s < length xs → (m : ℕ) → Skipped (length xs) → m < length xs → is_valid_at c xs m ≡ false
  all-Skipped h m old l =
      let (k, lt, e) = ahead_covers_suc (length xs) s m h l in
      subst (λ j. is_valid_at c xs j ≡ false) e (old k lt)

  loop_finds :
      (fuel k i : ℕ)
      → s < length xs
      → k < length xs
      → length xs ≤ fuel + k
      → i ≡ ahead (length xs) s k
      → Skipped k
      → (r : Found cb) × (next_loop c xs s fuel i ≡ some r) × SearchResult c xs after s r
  unfolding next_loop
  loop_finds zero k i h l f e old = absurd (omega arith)
  loop_finds (suc fuel) k i h l f e old = rw step (elim (Bool-cases (is_valid_at c xs (after k))) [
    | inl good ↦ (
      (get_elem? xs (after k), after k),
      rw good,
      inl (record {
        places = k;
        in_cycle = l;
        stops = refl;
        server = refl;
        valid = good;
        skipped = old;
      }),
    )
    | inr bad ↦ rw bad (elim (Bool-cases (s == after k)) [
      | inl back ↦ (
        (none, after k),
        rw back,
        inr (record {
          null = refl;
          back = ground arith;
          all_invalid = λ m lt. all-Skipped h m (all_bad bad (ground arith)) lt;
        }),
      )
      | inr on ↦ rw on (
          loop_finds fuel (suc k) (after k) h (further on) (omega arith) refl
            (Skipped-suc k old bad))
    ])
  ])
    where
      step : wrap (length xs) (suc i) ≡ after k
      step = rw e (wrap-suc-ahead (length xs) s k h l)

      all_bad : is_valid_at c xs (after k) ≡ false → after k ≡ s → Skipped (length xs)
      all_bad bad back =
          subst Skipped (ahead_returns (length xs) s k h l back) (Skipped-suc k old bad)

      further : (s == after k) ≡ false → suc k < length xs
      further on = ground (arith, ahead_full (length xs) s k h)

-- From an index inside the pool `getNextServer` ends. It returns the first valid server among
-- those after the index, round the pool and the index itself last, and moves the index there; if
-- no server is valid it returns null with the index unchanged.
pub get_next_server_searches :
    {cb : CircularBuffer} (c : Config) (xs : List (UpstreamServer cb)) (s : ℕ)
    → s < length xs
    → (r : Found cb) × (get_next_server c xs s ≡ some r)
      × SearchResult c xs (λ k. ahead (length xs) s (suc k)) s r
unfolding get_next_server
get_next_server_searches c [] s h = elim h [ ]
get_next_server_searches c (u ∷ us) s h =
    loop_finds c (u ∷ us) s (suc (length (u ∷ us))) 0 s h (omega arith) (omega arith) (ground arith)
      (λ m l. elim l [ ])
