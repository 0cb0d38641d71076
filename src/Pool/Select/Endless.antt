-- ===== src/Pool/Select/Endless.antt =====
-- An index outside the pool, with no valid server: the test that ends the searches never holds.
use socks5balancer_asio.Prelude.{
  ℕ, zero, suc, ◌≤◌, ◌<◌, ◌≡◌, refl, false, List, none, length, arith,
}
use socks5balancer_asio.Config.{Config}
use socks5balancer_asio.Delay.Buffer.{CircularBuffer}
use socks5balancer_asio.Pool.Server.{UpstreamServer}
use socks5balancer_asio.Pool.Select.{wrap, is_valid_at, next_loop, last_loop}

module _ {cb : CircularBuffer} (c : Config) (xs : List (UpstreamServer cb)) (s : ℕ) where
  wrap_lt : (i : ℕ) → 0 < length xs → wrap (length xs) i < length xs
  wrap_lt i h = ground arith

  next_loop_endless :
      0 < length xs
      → length xs ≤ s
      → ((m : ℕ) → m < length xs → is_valid_at c xs m ≡ false)
      → (fuel i : ℕ) → next_loop c xs s fuel i ≡ none
  unfolding next_loop
  next_loop_endless some_server outside invalid zero i = refl
  next_loop_endless some_server outside invalid (suc fuel) i =
      let j = wrap (length xs) (suc i) in
      ground (
        arith,
        invalid j (wrap_lt (suc i) some_server),
        wrap_lt (suc i) some_server,
        next_loop_endless some_server outside invalid fuel j,
      )

  last_loop_endless :
      0 < length xs
      → length xs ≤ s
      → ((m : ℕ) → m < length xs → is_valid_at c xs m ≡ false)
      → (fuel i : ℕ) → last_loop c xs s fuel i ≡ none
  unfolding last_loop
  last_loop_endless some_server outside invalid zero i = refl
  last_loop_endless some_server outside invalid (suc fuel) i =
      let k = wrap (length xs) i in
      let j = wrap (length xs) (suc k) in
      ground (
        arith,
        invalid k (wrap_lt i some_server),
        wrap_lt (suc k) some_server,
        last_loop_endless some_server outside invalid fuel j,
      )
