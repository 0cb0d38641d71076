-- ===== src/Pool/Select/Cycle.antt =====
-- Positions counted round the pool, and what the two searches promise: the first valid server in
-- that order, or none where no server is valid.
use socks5balancer_asio.Prelude.{
  ℕ, suc, ◌+◌, ◌-◌, ◌<◌, ◌≡◌, ◌⊎◌, true, false, List, none, length, get_elem?, ltb, if◌then◌else◌,
  arith,
}
use socks5balancer_asio.Config.{Config}
use socks5balancer_asio.Delay.Buffer.{CircularBuffer}
use socks5balancer_asio.Pool.Server.{UpstreamServer}
use socks5balancer_asio.Pool.Select.{wrap, Found, is_valid_at}

-- `k` places after `s` in a cycle of `n`, for `k` up to `n`.
abbrev pub ahead : ℕ → ℕ → ℕ → ℕ
ahead n s k = if ltb (s + k) n then s + k else s + k - n

pub wrap-suc-ahead : (n s k : ℕ) → s < n → k < n → wrap n (suc (ahead n s k)) ≡ ahead n s (suc k)
wrap-suc-ahead n s k h l = ground arith

pub wrap-ahead : (n s k : ℕ) → s < n → k < n → wrap n (ahead n s k) ≡ ahead n s k
wrap-ahead n s k h l = ground arith

pub ahead-lt : (n s k : ℕ) → s < n → k < suc n → ahead n s k < n
ahead-lt n s k h l = ground arith

-- One returns to the start after exactly `n` places.
pub ahead_returns : (n s k : ℕ) → s < n → k < n → ahead n s (suc k) ≡ s → suc k ≡ n
ahead_returns n s k h l e = ground arith

pub ahead_full : (n s k : ℕ) → s < n → suc k ≡ n → ahead n s (suc k) ≡ s
ahead_full n s k h e = ground arith

abbrev distance : ℕ → ℕ → ℕ → ℕ
distance n s m = if ltb m s then m + n - s else m - s

-- Every position is met.
pub ahead_covers : (n s m : ℕ) → s < n → m < n → (k : ℕ) × (k < n) × (ahead n s k ≡ m)
ahead_covers n s m h l = (distance n s m, ground arith, ground arith)

abbrev distance_after : ℕ → ℕ → ℕ → ℕ
distance_after n s m = if ltb s m then m - s - 1 else m + n - s - 1

pub ahead_covers_suc : (n s m : ℕ) → s < n → m < n → (k : ℕ) × (k < n) × (ahead n s (suc k) ≡ m)
ahead_covers_suc n s m h l = (distance_after n s m, ground arith, ground arith)

module _ {cb : CircularBuffer} (c : Config) (xs : List (UpstreamServer cb)) where
  -- `r` is the server at the first valid position among `pos 0`, `pos 1`, ….
  pub record IsFirst (pos : ℕ → ℕ) (r : Found cb) : Type 0 where
    pub places : ℕ
    pub in_cycle : places < length xs
    pub stops : r.1 ≡ pos places
    pub server : r.0 ≡ get_elem? xs (pos places)
    pub valid : is_valid_at c xs (pos places) ≡ true
    pub skipped : (m : ℕ) → m < places → is_valid_at c xs (pos m) ≡ false

  -- No server is valid, null is returned and the index is back at `s`.
  pub record IsNoneValid (s : ℕ) (r : Found cb) : Type 0 where
    pub null : r.0 ≡ none
    pub back : r.1 ≡ s
    pub all_invalid : (m : ℕ) → m < length xs → is_valid_at c xs m ≡ false

  abbrev pub SearchResult : (ℕ → ℕ) → ℕ → Found cb → Type 0
  SearchResult pos s r = IsFirst pos r ⊎ IsNoneValid s r
